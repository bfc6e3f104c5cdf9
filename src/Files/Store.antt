-- ===== src/Files/Store.antt =====
-- What a write of a stored copy changes: the slot backups of internal/store/credproxy.go and the
-- safety copies of internal/credstore/unclaimed.go.
use cswap.Base.{
  ℕ, String, ◌≡◌, refl, ◌&&◌, inl, inr, Option, Bool, List, [], ◌∷◌, ap, ◌∙◌, ◌⊎◌, ◌==◌, str_eq,
  if◌then◌else◌, Bool-cases,
}
use cswap.Runtime.{Runtime}
use cswap.Files.{
  Error, Result, ok, err, World, answer, rest, ask, chmod_after, continue, write_manifest,
  set_backup, write_account_credentials, write_account_config, write_unclaimed,
}
use cswap.Files.Frame.{Vault, face, vault}

module _ (R : Runtime) where
  open R use {Text}

  -- The live files are untouched; a write that went well left the vault `new`, one that failed left
  -- the slots' credentials as they were or as `new` has them.
  pub data Stored {A : Type 0} (w : World R) (new : Vault R) : Result A × World R → Type 0 where
    stored :
        {a : A} {v : World R}
        → face R v ≡ face R w
        → (w.chmod_failures ≡ [] → v.chmod_failures ≡ [])
        → vault R v ≡ new
        → Stored w new (ok a, v)
    not_stored :
        {e : Error} {v : World R}
        → face R v ≡ face R w
        → (w.chmod_failures ≡ [] → v.chmod_failures ≡ [])
        → (v.credential_backups ≡ w.credential_backups) ⊎ (v.credential_backups ≡ new.credentials)
        → Stored w new (err e, v)

  abbrev pub set_at : ℕ → String → Text → (ℕ → String → Text) → ℕ → String → Text
  set_at num email text backups n e = if n == num && str_eq e email then text else backups n e

  rest-empty : (bs : List Bool) → bs ≡ [] → rest R bs ≡ []
  unfolding rest
  rest-empty [] e = refl
  rest-empty (b ∷ bs) e = cc

  -- A write whose contents are in place when its chmod fails.
  chmod_after-Stored :
      (w v : World R) (new : Vault R)
      → face R v ≡ face R w
      → v.chmod_failures ≡ w.chmod_failures
      → vault R v ≡ new
      → Stored w new (chmod_after R v)
  unfolding chmod_after
  chmod_after-Stored w v new f c k =
      let empty : w.chmod_failures ≡ [] → rest R v.chmod_failures ≡ [] =
        λ e. rest-empty v.chmod_failures (c ∙ e) in
      elim (Bool-cases (answer R v.chmod_failures)) [
        | inl t ↦ rw t (not_stored f empty (inr (ap (λ (x : Vault R). x.credentials) k)))
        | inr b ↦ rw b (stored f empty k)
      ]

  module _ (w : World R) where
    pub write_account_credentials-Stored :
        (num : ℕ) (email : String) (creds : Text)
        → Stored w
            (record (vault R w) { credentials = set_at num email creds w.credential_backups })
            (write_account_credentials R num email creds w)
    unfolding write_account_credentials
    write_account_credentials-Stored num email creds = elim (Bool-cases (ask R w).0) [
      | inl stop ↦ rw stop (unfold ask in not_stored refl (λ e. e) (inl refl))
      | inr go ↦ rw go (unfold ask set_backup in chmod_after-Stored w _ _ refl refl refl)
    ]

    pub write_account_config-Stored :
        (num : ℕ) (email : String) (config : Text)
        → Stored w
            (record (vault R w) { configs = set_at num email config w.config_backups })
            (write_account_config R num email config w)
    unfolding write_account_config
    write_account_config-Stored num email config = elim (Bool-cases (ask R w).0) [
      | inl stop ↦ rw stop (unfold ask in not_stored refl (λ e. e) (inl refl))
      | inr go ↦ rw go (unfold ask set_backup in chmod_after-Stored w _ _ refl refl refl)
    ]

    write_manifest-Stored :
        (new : Vault R) (out : Result (Unit {0}) × World R)
        → Stored w new out
        → Stored w new (continue R out (λ u. write_manifest R))
    unfolding write_manifest ask
    write_manifest-Stored new (err e, v) s = s
    write_manifest-Stored new (ok a, v) (stored f c k) = elim (Bool-cases (answer R v.refusals)) [
      | inl t ↦ rw t (not_stored f c (inr (ap (λ (x : Vault R). x.credentials) k)))
      | inr b ↦ rw b (stored f c k)
    ]

    pub write_unclaimed-Stored :
        (creds : Text) (slot : Option ℕ)
        → Stored w
            (record (vault R w) {
              unclaimed = record { credential = creds; config_slot = slot } ∷ w.unclaimed;
            })
            (write_unclaimed R creds slot w)
    unfolding write_unclaimed
    write_unclaimed-Stored creds slot = elim (Bool-cases (ask R w).0) [
      | inl stop ↦ rw stop (unfold ask in not_stored refl (λ e. e) (inl refl))
      | inr go ↦
          rw go (unfold ask in write_manifest-Stored _ _ (chmod_after-Stored w _ _ refl refl refl))
    ]
