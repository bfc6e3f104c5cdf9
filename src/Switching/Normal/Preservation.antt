-- ===== src/Switching/Normal/Preservation.antt =====
-- No login is lost by a normal switch: the outgoing credential survives in a stored copy.
use mathlib.Core.Path.{subst}
use cswap.Base.{
  ℕ, String, ◌≡◌, refl, sym, ap, ◌∙◌, true, some, List, ◌∷◌, arith, inl, inr, str_eq_iff,
}
use cswap.Runtime.{Runtime}
use cswap.Roster.{SequenceData}
use cswap.Files.{
  Unclaimed, Result, ok, err, World, pure, ◌>>◌, write_account_credentials, write_account_config,
  write_unclaimed, ask, chmod_after,
}
use cswap.Files.Frame.{Vault, vault}
use cswap.Files.Store.{
  Stored, stored, not_stored, set_at, write_account_credentials-Stored, write_unclaimed-Stored,
}
use cswap.Files.Hoare.{Post, returned, failed, Post-bind, pure-Post, lenient-returned}
use cswap.Switching.Provenance.{Provenance, fingerprint_equal}
use cswap.Switching.Classify.{
  Kind, own_bytes, own_family, own_rotated, alien, unresolved, foreign, foreign_synced,
  classify_outgoing,
}
use cswap.Switching.Classify.Frame.{classify_outgoing-Reads}
use cswap.Switching.Classify.Attribution.{Verdict, classify_outgoing-Verdict}
use cswap.Switching.Normal.Keeps.{Keeps-Post, retrieve_target-Keeps, activate-Keeps}
use cswap.Switching.Normal.{backup_kind, backup_outgoing, normal_switch_body}

module _ (R : Runtime) where
  open R use {Text}

  -- A copy of the credential, or another generation of its lineage, is in the vault.
  pub data Preserved (creds : Text) (v : Vault R) : Type 0 where
    in_slot : (num : ℕ) (email : String) → v.credentials num email ≡ creds → Preserved creds v
    in_lineage :
        (num : ℕ) (email : String)
        → fingerprint_equal R (v.credentials num email) creds ≡ true
        → Preserved creds v
    in_stash :
        (u : Unclaimed R) (us : List (Unclaimed R))
        → v.unclaimed ≡ u ∷ us
        → u.credential ≡ creds
        → Preserved creds v

  module _ (current : ℕ) (email : String) (creds config : Text) where
    set_at_self :
        (backups : ℕ → String → Text) → set_at R current email creds backups current email ≡ creds
    set_at_self backups = ground (arith, str_eq_iff email email)

    write_slot :
        (w : World R)
        → Post
            (λ v. Unit {0})
            (λ a v. v.credential_backups current email ≡ creds)
            (write_account_credentials R current email creds w)
    write_slot w = go _ (write_account_credentials-Stored R w current email creds)
      where
        go :
            {A : Type 0} (out : Result A × World R)
            → Stored R w
                (record (vault R w) {
                  credentials = set_at R current email creds w.credential_backups;
                })
                out
            → Post (λ v. Unit {0}) (λ a v. v.credential_backups current email ≡ creds) out
        go (ok a, v) (stored f c k) =
            returned (
              ap (λ (x : Vault R). x.credentials current email) k
              ∙ set_at_self w.credential_backups)
        go (err e, v) (not_stored f c k) = failed tt

    write_stash :
        (w : World R)
        → Post
            (λ v. Unit {0})
            (λ a v. Preserved creds (vault R v))
            (write_unclaimed R creds (some current) w)
    write_stash w = go _ (write_unclaimed-Stored R w creds (some current))
      where
        go :
            {A : Type 0} (out : Result A × World R)
            → Stored R w
                (record (vault R w) {
                  unclaimed =
                      record { credential = creds; config_slot = some current } ∷ w.unclaimed;
                })
                out
            → Post (λ v. Unit {0}) (λ a v. Preserved creds (vault R v)) out
        go (ok a, v) (stored f c k) =
            returned (in_stash _ _ (ap (λ (x : Vault R). x.unclaimed) k) refl)
        go (err e, v) (not_stored f c k) = failed tt

    config_backups-only :
        (w : World R)
        → (write_account_config R current email config w).1.credential_backups
          ≡ w.credential_backups
    unfolding write_account_config ask chmod_after
    config_backups-only w = ground arith

    write_config :
        (w : World R) (n : ℕ) (e : String) (kept : Text)
        → w.credential_backups n e ≡ kept
        → Post
            (λ v. Unit {0})
            (λ a v. v.credential_backups n e ≡ kept)
            (write_account_config R current email config w)
    write_config w n e kept h = go _ (config_backups-only w)
      where
        go :
            {A : Type 0} (out : Result A × World R)
            → out.1.credential_backups ≡ w.credential_backups
            → Post (λ v. Unit {0}) (λ a v. v.credential_backups n e ≡ kept) out
        go (ok a, v) k = returned (ap (λ (f : ℕ → String → Text). f n e) k ∙ h)
        go (err d, v) k = failed tt

    write_both :
        {B : Type 0} (b : B) (w : World R)
        → Post
            (λ v. Unit {0})
            (λ a v. Preserved creds (vault R v))
            ((do
              write_account_credentials R current email creds
              write_account_config R current email config
              pure R b)
              w)
    write_both b w =
        Post-bind (λ a v. v.credential_backups current email ≡ creds) _ _ w (write_slot w)
          λ a w1 h1.
            Post-bind (λ a v. v.credential_backups current email ≡ creds) _ _ w1
              (write_config w1 current email creds h1)
              λ a w2 h2. pure-Post b w2 (in_slot current email h2)

    backup_kind-Preserved :
        (kind : Kind) (prov : Provenance R) (sd : SequenceData) (w : World R)
        → Verdict R w.credential_backups current email creds prov (some sd) kind
        → Post
            (λ v. Unit {0})
            (λ a v. Preserved creds (vault R v))
            (backup_kind R kind current email creds config prov sd w)
    unfolding backup_kind
    backup_kind-Preserved own_bytes prov sd w h =
        Post-bind (λ a v. v.credential_backups current email ≡ creds) _ _ w
          (write_config w current email creds h) λ a v g. pure-Post _ v (in_slot current email g)
    backup_kind-Preserved (foreign slot) prov sd w h =
        Post-bind _ _ _ w (write_stash w) (λ a v g. pure-Post _ v g)
    backup_kind-Preserved alien prov sd w h =
        Post-bind _ _ _ w (write_stash w) (λ a v g. pure-Post _ v g)
    backup_kind-Preserved (foreign_synced slot) prov sd w (c, inl bytes) =
        pure-Post _ w (in_slot slot _ bytes)
    backup_kind-Preserved (foreign_synced slot) prov sd w (c, inr family) =
        pure-Post _ w (in_lineage slot _ family)
    backup_kind-Preserved own_family prov sd w h = write_both _ w
    backup_kind-Preserved own_rotated prov sd w h = write_both _ w
    backup_kind-Preserved unresolved prov sd w h = write_both _ w

    pub body-Preserved :
        (target : ℕ) (target_email : String) (prov : Provenance R) (sd : SequenceData) (w : World R)
        → Post
            (λ v. Unit {0})
            (λ a v. Preserved creds (vault R v))
            (normal_switch_body R target target_email current email creds config prov sd w)
    unfolding normal_switch_body backup_outgoing
    body-Preserved target target_email prov sd w =
        Post-bind (λ a v. Preserved creds (vault R v)) _ _ w
          (Post-bind
            (λ kind v. Verdict R v.credential_backups current email creds prov (some sd) kind) _ _ w
            (lenient-returned _ w (
              subst (λ b. Verdict R b current email creds prov (some sd) (out w).0)
                (sym (
                  ap (λ (x : Vault R). x.credentials)
                    (classify_outgoing-Reads R current email creds prov (some sd) w).same_vault))
                (classify_outgoing-Verdict R w.credential_backups current email creds prov (some sd)
                  w refl)))
            λ kind v h. backup_kind-Preserved kind prov sd v h)
          λ (sd', warnings) w1 h1.
            Post-bind (λ a v. Preserved creds (vault R v)) _ _ w1
              (Keeps-Post R (Preserved creds) _ w1 (retrieve_target-Keeps R target target_email) h1)
              λ (target_creds, target_config) w2 h2.
                Post-bind (λ a v. Preserved creds (vault R v)) _ _ w2
                  (Keeps-Post R (Preserved creds) _ w2
                    (activate-Keeps R target target_creds target_config sd') h2)
                  λ a w3 h3. pure-Post warnings w3 h3
      where
        out : World R → Kind × World R
        out v = classify_outgoing R current email creds prov (some sd) v
