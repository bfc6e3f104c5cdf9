-- ===== src/Switching/Normal/Loaded.antt =====
-- Step 2 of the normal path loads what is stored, or fails; step 1 keeps the rotation's order.
use mathlib.Core.Path.{subst}
use cswap.Base.{
  ℕ, String, ◌≡◌, refl, ap, ◌∙◌, Bool, true, false, not, Option, none, some, arith, inl, inr, ◌⊎◌,
  Bool-cases, str_eq,
}
use cswap.Runtime.{Runtime}
use cswap.Roster.{Account, SequenceData, record_for}
use cswap.Files.{Error, World, answer, ask, read_account_credentials, read_account_config}
use cswap.Files.Frame.{Vault, vault, read_account_credentials-Reads, read_account_config-Reads}
use cswap.Files.Hoare.{Post, Post-bind, Post-any, pure-Post, fail-Post, lenient-returned}
use cswap.Switching.Provenance.{Identity, Provenance}
use cswap.Switching.Shared.{guard, retrieve_target}
use cswap.Switching.Classify.{
  Kind, own_bytes, own_family, own_rotated, alien, unresolved, foreign, foreign_synced,
}
use cswap.Switching.Normal.{
  backup_kind, backup_outgoing, backfill_resolved, backfill_uuid_in_data, fill_uuid,
}

fill_uuid-sequence :
    (num : ℕ) (uuid : String) (rec : Option Account) (sd : SequenceData)
    → (fill_uuid num uuid rec sd).sequence ≡ sd.sequence
unfolding fill_uuid
fill_uuid-sequence num uuid none sd = refl
fill_uuid-sequence num uuid (some rec) sd = ground arith

backfill_resolved-sequence :
    (num : ℕ) (id : Option Identity) (sd : SequenceData)
    → (backfill_resolved num id sd).sequence ≡ sd.sequence
unfolding backfill_resolved backfill_uuid_in_data
backfill_resolved-sequence num none sd = refl
backfill_resolved-sequence num (some id) sd = elim (Bool-cases (str_eq id.uuid "")) [
  | inl e ↦ rw e refl
  | inr e ↦ rw e (fill_uuid-sequence num id.uuid (record_for (some sd) num) sd)
]

module _ (R : Runtime) where
  open R use {Text, text_eq, text_eq_iff, blank}

  guard-true :
      {Q : World R → Type 0} (b : Bool) (e : Error) (w : World R)
      → Q w
      → Post (λ v. Unit {0}) (λ a v. (b ≡ true) × Q v) (guard R b e w)
  unfolding guard
  guard-true true e w q = pure-Post tt w (refl, q)
  guard-true false e w q = fail-Post e w tt

  -- A text that was read: what is stored, unless nothing could be read.
  abbrev Read : Text → Text → Type 0
  Read kept text = (text ≡ blank) ⊎ (text ≡ kept)

  Read-credentials :
      (num : ℕ) (email : String) (w : World R)
      → Read (w.credential_backups num email) (read_account_credentials R num email w).0
  unfolding read_account_credentials ask
  Read-credentials num email w = elim (Bool-cases (answer R w.refusals)) [
    | inl stop ↦ rw stop (inl refl)
    | inr go ↦ rw go (inr refl)
  ]

  Read-config :
      (num : ℕ) (email : String) (w : World R)
      → Read (w.config_backups num email) (read_account_config R num email w).0
  unfolding read_account_config ask
  Read-config num email w = elim (Bool-cases (answer R w.refusals)) [
    | inl stop ↦ rw stop (inl refl)
    | inr go ↦ rw go (inr refl)
  ]

  Read-exact : (kept text : Text) → Read kept text → not (text_eq text blank) ≡ true → text ≡ kept
  Read-exact kept text (inl b) n = let same = ap not ((text_eq_iff text blank).1 b) in cc
  Read-exact kept text (inr e) n = e

  -- The target's login as the vault has it.
  pub record Loaded (vaulted : Vault R) (target : ℕ) (email : String) (creds config : Text)
      (w : World R) : Type 0 where
    pub same_vault : vault R w ≡ vaulted
    pub creds_stored : creds ≡ vaulted.credentials target email
    pub config_stored : config ≡ vaulted.configs target email

  pub retrieve_target-Loaded :
      (target : ℕ) (email : String) (w : World R)
      → Post
          (λ v. Unit {0})
          (λ (creds, config) v. Loaded (vault R w) target email creds config v)
          (retrieve_target R target email w)
  unfolding retrieve_target
  retrieve_target-Loaded target email w =
      Post-bind
        (λ creds v. (vault R v ≡ vault R w) × Read (w.credential_backups target email) creds) _ _ w
        (lenient-returned _ w (
          (read_account_credentials-Reads R target email w).same_vault,
          Read-credentials target email w,
        ))
        λ creds w1 (e1, c).
          Post-bind
            (λ config v. (vault R v ≡ vault R w) × Read (w.config_backups target email) config) _ _
            w1
            (lenient-returned _ w1 (
              (read_account_config-Reads R target email w1).same_vault ∙ e1,
              subst
                  (λ (x : Vault R).
                    Read (x.configs target email) (read_account_config R target email w1).0)
                  e1 (Read-config target email w1),
            ))
            λ config w2 (e2, g). Post-bind _ _ _ w2 (guard-true _ _ w2 e2) λ a w3 (c_set, e3).
              Post-bind _ _ _ w3 (guard-true _ _ w3 e3) λ b w4 (g_set, e4).
                pure-Post (creds, config) w4
                  (record {
                    same_vault = e4;
                    creds_stored = Read-exact _ creds c c_set;
                    config_stored = Read-exact _ config g g_set;
                  })

  module _ (current : ℕ) (email : String) (creds config : Text) where
    backup_kind-sequence :
        (kind : Kind) (prov : Provenance R) (sd : SequenceData) (w : World R)
        → Post
            (λ v. Unit {0})
            (λ (sd', warnings) v. sd'.sequence ≡ sd.sequence)
            (backup_kind R kind current email creds config prov sd w)
    unfolding backup_kind
    backup_kind-sequence (foreign slot) prov sd w =
        Post-bind _ _ _ w (Post-any _) (λ a v u. pure-Post _ v refl)
    backup_kind-sequence alien prov sd w =
        Post-bind _ _ _ w (Post-any _) (λ a v u. pure-Post _ v refl)
    backup_kind-sequence (foreign_synced slot) prov sd w = pure-Post _ w refl
    backup_kind-sequence own_bytes prov sd w =
        Post-bind _ _ _ w (Post-any _) (λ a v u. pure-Post _ v refl)
    backup_kind-sequence own_rotated prov sd w = Post-bind _ _ _ w (Post-any _) (λ a v u.
        Post-bind _ _ _ v (Post-any _)
          (λ b x t. pure-Post _ x (backfill_resolved-sequence current prov.resolved sd)))
    backup_kind-sequence own_family prov sd w =
        Post-bind _ _ _ w (Post-any _)
          (λ a v u. Post-bind _ _ _ v (Post-any _) (λ b x t. pure-Post _ x refl))
    backup_kind-sequence unresolved prov sd w =
        Post-bind _ _ _ w (Post-any _)
          (λ a v u. Post-bind _ _ _ v (Post-any _) (λ b x t. pure-Post _ x refl))

    pub backup_outgoing-sequence :
        (prov : Provenance R) (sd : SequenceData) (w : World R)
        → Post
            (λ v. Unit {0})
            (λ (sd', warnings) v. sd'.sequence ≡ sd.sequence)
            (backup_outgoing R current email creds config prov sd w)
    unfolding backup_outgoing
    backup_outgoing-sequence prov sd w =
        Post-bind _ _ _ w (Post-any _) (λ kind v u. backup_kind-sequence kind prov sd v)
