-- ===== src/Switching/Classify.antt =====
-- internal/switching/classify.go: whose credential is the live one? The answer decides what the
-- backup of the outgoing slot may do with it.
pub mod Attribution
pub mod Frame
use cswap.Base.{
  ℕ, String, Bool, true, false, ◌&&◌, ◌||◌, not, Option, none, some, List, [], ◌∷◌, ◌++◌, ◌==◌,
  str_eq, if◌then◌else◌, contains, keep, is_some,
}
use cswap.Runtime.{Runtime}
use cswap.Roster.{Account, SequenceData, lookup, record_for, keys, find_account_slot}
use cswap.Files.{World, read_account_credentials}
use cswap.Switching.Provenance.{Identity, Provenance, fingerprint_equal}

pub data Kind : Type 0 where
  own_bytes own_family own_rotated alien unresolved : Kind
  foreign foreign_synced : ℕ → Kind

abbrev pub is_blank : String → Bool
is_blank s = str_eq s ""

managed : List (ℕ × Account) → List ℕ → List ℕ
managed accounts seq = keep (λ n. is_some (lookup n accounts)) seq

module _ (R : Runtime) where
  open R use {Text, text_eq, blank, trim_space, sort_strings}

  -- recStr(rec, "uuid") of a record that may be missing, trimmed
  pub stored_uuid : Option Account → String
  stored_uuid none = trim_space ""
  stored_uuid (some rec) = trim_space rec.uuid

  stored_org : Option Account → String
  stored_org none = ""
  stored_org (some rec) = rec.organization_uuid

  pub stored_email : Option Account → String
  stored_email none = ""
  stored_email (some rec) = rec.email

  -- sortedAccountKeys: sequence order, then the rest as sorted strings.
  sorted_account_keys : SequenceData → List ℕ
  unfolding managed
  sorted_account_keys sd =
      let ordered = managed sd.accounts sd.sequence in
      ordered ++ sort_strings (keep (λ k. not (contains ordered k)) (keys sd.accounts))

  -- The uuid match on the outgoing slot; organizations must agree when both sides record one.
  pub own_uuid_matches : Identity → String → Option Account → Bool
  unfolding stored_uuid stored_org
  own_uuid_matches resolved r_uuid own =
      not (is_blank r_uuid)
      && not (is_blank (stored_uuid own))
      && str_eq r_uuid (stored_uuid own)
      && (is_blank resolved.org_uuid
          || is_blank (stored_org own)
          || str_eq resolved.org_uuid (stored_org own))

  raw_uuid_matches : String → String → Option Account → Bool
  raw_uuid_matches r_uuid r_org none = false
  raw_uuid_matches r_uuid r_org (some rec) =
      not (is_blank rec.uuid) && str_eq rec.uuid r_uuid && str_eq rec.organization_uuid r_org

  scan_uuid : String → String → List (ℕ × Account) → List ℕ → Option ℕ
  unfolding raw_uuid_matches
  scan_uuid r_uuid r_org accounts [] = none
  scan_uuid r_uuid r_org accounts (num ∷ nums) =
      if raw_uuid_matches r_uuid r_org (lookup num accounts)
      then some num
      else scan_uuid r_uuid r_org accounts nums

  -- A slot found by email and organization is dropped when its uuid conflicts.
  without_conflict : String → Option SequenceData → Option ℕ → Option ℕ
  unfolding stored_uuid
  without_conflict r_uuid sd none = none
  without_conflict r_uuid sd (some slot) =
      let stored = stored_uuid (record_for sd slot) in
      if not (is_blank r_uuid) && not (is_blank stored) && not (str_eq stored r_uuid)
      then none
      else some slot

  or_by_uuid : String → String → Option SequenceData → Option ℕ → Option ℕ
  unfolding scan_uuid sorted_account_keys
  or_by_uuid r_uuid r_org none found = found
  or_by_uuid r_uuid r_org (some sd) (some slot) = some slot
  or_by_uuid r_uuid r_org (some sd) none =
      if is_blank r_uuid then none else scan_uuid r_uuid r_org sd.accounts (sorted_account_keys sd)

  -- Step 5: the slot that the resolved identity names.
  unfoldable pub attribute : Identity → String → Option SequenceData → Option ℕ
  unfolding without_conflict or_by_uuid
  attribute resolved r_uuid sd = or_by_uuid r_uuid resolved.org_uuid sd (
      without_conflict r_uuid sd (
        if is_blank resolved.email
        then none
        else find_account_slot sd resolved.email resolved.org_uuid))

  -- Step 8: does the other slot already hold this lineage?
  judge_foreign : ℕ → Text → Option SequenceData → World R → Kind × World R
  unfolding stored_email
  judge_foreign slot creds sd w =
      let (backup, w') = read_account_credentials R slot (stored_email (record_for sd slot)) w in
      if not (text_eq backup blank) && (text_eq backup creds || fingerprint_equal R backup creds)
      then (foreign_synced slot, w')
      else (foreign slot, w')

  -- Steps 6 and 7: a complete identity that matches nothing is alien, and an attribution to
  -- another slot must be confirmed by the uuid.
  judge : ℕ → Identity → String → Text → Option SequenceData → Option ℕ → World R → Kind × World R
  unfolding judge_foreign stored_uuid
  judge current resolved r_uuid creds sd none w = (
    if not (is_blank resolved.email) && not (is_blank resolved.org_uuid) then alien else unresolved,
    w,
  )
  judge current resolved r_uuid creds sd (some slot) w =
      if slot == current
      then (own_rotated, w)
      else if is_blank r_uuid || not (str_eq (stored_uuid (record_for sd slot)) r_uuid)
      then (alien, w)
      else judge_foreign slot creds sd w

  -- Steps 4 to 8, for a resolved identity.
  classify_resolved : ℕ → Identity → Text → Option SequenceData → World R → Kind × World R
  unfolding own_uuid_matches judge
  classify_resolved current resolved creds sd w =
      let r_uuid = trim_space resolved.uuid in
      if own_uuid_matches resolved r_uuid (record_for sd current)
      then (own_rotated, w)
      else judge current resolved r_uuid creds sd (attribute resolved r_uuid sd) w

  is_live : Option Text → Text → Bool
  is_live none creds = false
  is_live (some live) creds = text_eq live creds

  -- Step 3: no identity, or the bytes moved since it was resolved.
  classify_mismatch :
      ℕ → Text → Provenance R → Option Identity → Option SequenceData → World R → Kind × World R
  unfolding classify_resolved is_live
  classify_mismatch current creds prov none sd w = (unresolved, w)
  classify_mismatch current creds prov (some resolved) sd w =
      if is_live prov.live creds
      then classify_resolved current resolved creds sd w
      else (unresolved, w)

  -- classifyOutgoing
  unfoldable pub classify_outgoing :
      ℕ → String → Text → Provenance R → Option SequenceData → World R → Kind × World R
  unfolding classify_mismatch
  classify_outgoing current email creds prov sd w =
      let (backup, w') = read_account_credentials R current email w in
      if not (text_eq backup blank) && text_eq backup creds
      then (own_bytes, w')
      else if not (text_eq backup blank) && fingerprint_equal R backup creds
      then (own_family, w')
      else classify_mismatch current creds prov prov.resolved sd w'
