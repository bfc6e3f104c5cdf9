-- ===== src/Switching/Classify/Frame.antt =====
-- The ownership oracle of internal/switching/classify.go only reads.
use cswap.Base.{ℕ, String, Option, none, some, arith}
use cswap.Runtime.{Runtime}
use cswap.Roster.{SequenceData, record_for}
use cswap.Files.{World, read_account_credentials}
use cswap.Files.Frame.{Reads, Reads-refl, read_account_credentials-Reads}
use cswap.Switching.Provenance.{Identity, Provenance}
use cswap.Switching.Classify.{
  judge_foreign, judge, classify_resolved, classify_mismatch, classify_outgoing, stored_email,
  attribute,
}

module _ (R : Runtime) where
  open R use {Text, trim_space}

  judge_foreign-Reads :
      (slot : ℕ) (creds : Text) (sd : Option SequenceData) (w : World R)
      → Reads R w (judge_foreign R slot creds sd w)
  unfolding judge_foreign
  judge_foreign-Reads slot creds sd w =
      let read = read_account_credentials-Reads R slot (stored_email R (record_for sd slot)) w in
      ground (arith, read)

  judge-Reads :
      (current : ℕ) (who : Identity) (uuid : String) (creds : Text) (sd : Option SequenceData)
      (slot : Option ℕ) (w : World R)
      → Reads R w (judge R current who uuid creds sd slot w)
  unfolding judge
  judge-Reads current who uuid creds sd none w = Reads-refl R _ w
  judge-Reads current who uuid creds sd (some slot) w =
      ground (arith, judge_foreign-Reads slot creds sd w)

  mismatch-Reads :
      (current : ℕ) (creds : Text) (prov : Provenance R) (who : Option Identity)
      (sd : Option SequenceData) (w : World R)
      → Reads R w (classify_mismatch R current creds prov who sd w)
  unfolding classify_mismatch classify_resolved
  mismatch-Reads current creds prov none sd w = Reads-refl R _ w
  mismatch-Reads current creds prov (some who) sd w = ground (
    arith,
    judge-Reads current who (trim_space who.uuid) creds sd
        (attribute R who (trim_space who.uuid) sd) w,
  )

  -- Whatever the oracle answers, it has changed no file.
  pub classify_outgoing-Reads :
      (current : ℕ) (email : String) (creds : Text) (prov : Provenance R) (sd : Option SequenceData)
      (w : World R)
      → Reads R w (classify_outgoing R current email creds prov sd w)
  unfolding classify_outgoing
  classify_outgoing-Reads current email creds prov sd w =
      let out = read_account_credentials R current email w in
      let read = read_account_credentials-Reads R current email w in
      ground (arith, read, mismatch-Reads current creds prov prov.resolved sd out.1)
