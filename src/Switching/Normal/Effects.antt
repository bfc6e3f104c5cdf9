-- ===== src/Switching/Normal/Effects.antt =====
-- The calls of the normal path, one postcondition each, on a file system where chmod does not fail.
use cswap.Base.{Bool, ℕ, String, ◌≡◌, ap, ◌∙◌, ◌&&◌, some, [], ◌==◌, str_eq, Bool-cases, inl, inr}
use cswap.Runtime.{Runtime}
use cswap.Roster.{SequenceData}
use cswap.Files.{
  Result, ok, err, World, pure, lenient, write_account_credentials, write_account_config,
  write_unclaimed,
}
use cswap.Files.Active.{looks_like_api_key}
use cswap.Files.Active.Effects.{IsOauth}
use cswap.Files.Frame.{Face, face, Vault, Reads}
use cswap.Files.Store.{
  Stored, stored, not_stored, set_at, write_account_credentials-Stored, write_account_config-Stored,
  write_unclaimed-Stored,
}
use cswap.Files.Hoare.{Post, returned, failed, Post-bind}
use cswap.Switching.Provenance.{Provenance}
use cswap.Switching.Classify.{Kind, own_bytes, alien, foreign, foreign_synced, classify_outgoing}
use cswap.Switching.Classify.Frame.{classify_outgoing-Reads}
use cswap.Switching.Normal.{backup_kind, backup_outgoing}

module _ (R : Runtime) (target : ℕ) (target_email : String) where
  open R use {Text, text_eq, blank, Object, marshal_indent}

  -- The face is `f`, no chmod fails, and the target's stored credential is no API key.
  pub record Holds (f : Face R) (w : World R) : Type 0 where
    pub at_face : face R w ≡ f
    pub no_chmod : w.chmod_failures ≡ []
    pub stored : IsOauth R (w.credential_backups target target_email)

  pub Reads-Holds :
      {A : Type 0} {f : Face R} {w : World R} (out : A × World R)
      → Reads R w out
      → Holds f w
      → Holds f out.1
  Reads-Holds out r h = record {
    at_face = r.same_face ∙ h.at_face;
    no_chmod = r.same_chmods ∙ h.no_chmod;
    stored =
        ap (λ (v : Vault R). looks_like_api_key R (v.credentials target target_email)) r.same_vault
        ∙ h.stored;
  }

  pub lenient-Post :
      {A : Type 0} {f : Face R} (m : World R → A × World R) (w : World R)
      → Reads R w (m w)
      → Holds f w
      → Post (Holds f) (λ a v. Holds f v) (lenient R m w)
  unfolding lenient
  lenient-Post m w r h = returned (Reads-Holds (m w) r h)

  set_at-IsOauth :
      (num : ℕ) (email : String) (creds : Text) (backups : ℕ → String → Text)
      → IsOauth R creds
      → IsOauth R (backups target target_email)
      → IsOauth R (set_at R num email creds backups target target_email)
  set_at-IsOauth num email creds backups o h =
      elim (Bool-cases (target == num && str_eq target_email email)) [
        | inl e ↦ rw e o
        | inr e ↦ rw e h
      ]

  Stored-Post :
      {A : Type 0} {f : Face R} (w : World R) (new : Vault R) (out : Result A × World R)
      → Holds f w
      → IsOauth R (new.credentials target target_email)
      → Stored R w new out
      → Post (Holds f) (λ a v. Holds f v) out
  Stored-Post w new (ok a, v) h o (stored e c k) = returned (record {
    at_face = e ∙ h.at_face;
    no_chmod = c h.no_chmod;
    stored = ap (λ (x : Vault R). looks_like_api_key R (x.credentials target target_email)) k ∙ o;
  })
  Stored-Post w new (err d, v) h o (not_stored e c k) =
      let same : IsOauth R (v.credential_backups target target_email) = elim k [
        | inl kept ↦ ap looks kept ∙ h.stored
        | inr written ↦ ap looks written ∙ o
      ] in
      failed (record { at_face = e ∙ h.at_face; no_chmod = c h.no_chmod; stored = same })
    where
      looks : (ℕ → String → Text) → Bool
      looks x = looks_like_api_key R (x target target_email)

  module _ {f : Face R} (current : ℕ) (email : String) (creds config : Text)
      (oauth : IsOauth R creds) where
    credentials-Post :
        (w : World R)
        → Holds f w
        → Post (Holds f) (λ a v. Holds f v) (write_account_credentials R current email creds w)
    credentials-Post w h =
        Stored-Post w _ _ h (set_at-IsOauth current email creds w.credential_backups oauth h.stored)
          (write_account_credentials-Stored R w current email creds)

    config-Post :
        (w : World R)
        → Holds f w
        → Post (Holds f) (λ a v. Holds f v) (write_account_config R current email config w)
    config-Post w h =
        Stored-Post w _ _ h h.stored (write_account_config-Stored R w current email config)

    stash-Post :
        (w : World R)
        → Holds f w
        → Post (Holds f) (λ a v. Holds f v) (write_unclaimed R creds (some current) w)
    stash-Post w h = Stored-Post w _ _ h h.stored (write_unclaimed-Stored R w creds (some current))

    pure-Post :
        {A : Type 0} (a : A) (w : World R)
        → Holds f w
        → Post (Holds f) (λ b v. Holds f v) (pure R a w)
    unfolding pure
    pure-Post a w h = returned h

    -- Whatever the kind, the backup of the outgoing slot leaves the live files alone.
    backup_kind-Post :
        (kind : Kind) (prov : Provenance R) (sd : SequenceData) (w : World R)
        → Holds f w
        → Post
            (Holds f)
            (λ a v. Holds f v)
            (backup_kind R kind current email creds config prov sd w)
    unfolding backup_kind
    backup_kind-Post (foreign slot) prov sd w h =
        Post-bind (λ a v. Holds f v) _ _ w (stash-Post w h) (λ a v g. pure-Post _ v g)
    backup_kind-Post alien prov sd w h =
        Post-bind (λ a v. Holds f v) _ _ w (stash-Post w h) (λ a v g. pure-Post _ v g)
    backup_kind-Post (foreign_synced slot) prov sd w h = pure-Post _ w h
    backup_kind-Post own_bytes prov sd w h =
        Post-bind (λ a v. Holds f v) _ _ w (config-Post w h) (λ a v g. pure-Post _ v g)
    backup_kind-Post _ prov sd w h =
        Post-bind (λ a v. Holds f v) _ _ w (credentials-Post w h)
          (λ a v g. Post-bind (λ b u. Holds f u) _ _ v (config-Post v g) (λ b u k. pure-Post _ u k))

    pub backup_outgoing-Post :
        (prov : Provenance R) (sd : SequenceData) (w : World R)
        → Holds f w
        → Post (Holds f) (λ a v. Holds f v) (backup_outgoing R current email creds config prov sd w)
    unfolding backup_outgoing
    backup_outgoing-Post prov sd w h =
        Post-bind (λ a v. Holds f v) _ _ w
          (lenient-Post (classify_outgoing R current email creds prov (some sd)) w
            (classify_outgoing-Reads R current email creds prov (some sd) w) h)
          (λ kind v g. backup_kind-Post kind prov sd v g)
