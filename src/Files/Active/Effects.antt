-- ===== src/Files/Active/Effects.antt =====
-- What a write of the active credential changes (internal/credstore/active.go, WriteActive).
use cswap.Base.{◌≡◌, refl, ap, ◌∙◌, false, inl, inr, ◌⊎◌, Option, some, [], arith, Bool-cases}
use cswap.Runtime.{Runtime}
use cswap.Files.{
  rest, answer, update_global_config, write_config_json, write_config_text, credential_unreadable,
  Result, ok, err, World, continue, ask, chmod_after, decode, read_config_json,
}
use cswap.Files.Frame.{
  Face, face, vault, Wrote, done, refused, face-read_config_json, vault-update_global_config, Reads,
  Reads-value, ask-Reads,
}
use cswap.Files.Active.{
  looks_like_api_key, has_managed_key, clear_managed_key, write_credentials_file, or_fail_write,
  write_oauth_credentials, write_managed_credentials, approve_key, clear_oauth_credential,
  write_active, read_active, read_credentials_file, active_from, or_managed_key,
}

module _ (R : Runtime) where
  open R use {Text, Object, delete, trim_text, text_eq, blank}

  -- The credential is not an API key.
  abbrev pub IsOauth : Text → Type 0
  IsOauth creds = looks_like_api_key R creds ≡ false

  -- ~/.claude.json holds no managed key.
  abbrev pub HasNoManagedKey : Option Text → Type 0
  HasNoManagedKey config = has_managed_key R (decode R config) ≡ false

  read_no_key :
      (w : World R)
      → HasNoManagedKey w.global_config
      → has_managed_key R (read_config_json R w).0 ≡ false
  unfolding read_config_json has_managed_key
  read_no_key w h = ground arith

  clear_managed_key-face :
      (w : World R)
      → HasNoManagedKey w.global_config
      → (face R (clear_managed_key R w) ≡ face R w)
        × ((clear_managed_key R w).chmod_failures ≡ w.chmod_failures)
  unfolding clear_managed_key
  clear_managed_key-face w h =
      rw (read_no_key w h) (let (f, c, v) = face-read_config_json R w in (f, c))

  write_credentials-Wrote :
      (creds : Text) (w : World R)
      → w.chmod_failures ≡ []
      → Wrote R
          (face R w)
          (record (face R w) { credentials = some creds })
          (write_credentials_file R creds w)
  unfolding write_credentials_file
  write_credentials-Wrote creds w c = elim (Bool-cases (ask R w).0) [
    | inl stop ↦ rw stop (refused (unfold ask in refl) (unfold ask in c))
    | inr go ↦ rw (go, c) (unfold ask in done refl refl)
  ]

  after_write :
      (creds : Text) (w : World R) (out : Result (Unit {0}) × World R)
      → HasNoManagedKey w.global_config
      → Wrote R (face R w) (record (face R w) { credentials = some creds }) out
      → Wrote R
          (face R w)
          (record (face R w) { credentials = some creds })
          (continue R (or_fail_write R out) λ _ w'. (ok tt, clear_managed_key R w'))
  unfolding or_fail_write
  after_write creds w (ok a, w') h (done f c) =
      let (g, d) = clear_managed_key-face w' (rw (ap (λ (x : Face R). x.config) f) h) in
      done (g ∙ f) (d ∙ c)
  after_write creds w (err e, w') h (refused f c) = refused f c

  -- On a file system where chmod does not fail, writing an OAuth credential over a login with no
  -- managed key changes the credentials file alone, and not at all when it is refused.
  pub write_active-Wrote :
      (creds : Text) (w : World R)
      → w.chmod_failures ≡ []
      → looks_like_api_key R creds ≡ false
      → HasNoManagedKey w.global_config
      → Wrote R (face R w) (record (face R w) { credentials = some creds }) (write_active R creds w)
  unfolding write_active write_oauth_credentials
  write_active-Wrote creds w c o h =
      rw o (after_write creds w _ h (write_credentials-Wrote creds w c))

  vault-clear_managed_key : (w : World R) → vault R (clear_managed_key R w) ≡ vault R w
  unfolding clear_managed_key
  vault-clear_managed_key w =
      let (f, c, v) = face-read_config_json R w in
      elim (Bool-cases (has_managed_key R (read_config_json R w).0)) [
        | inl e ↦
            rw e
              (vault-update_global_config R (delete "primaryApiKey") (read_config_json R w).1 ∙ v)
        | inr e ↦ rw e v
      ]

  vault-write_oauth :
      (creds : Text) (w : World R) → vault R (write_oauth_credentials R creds w).1 ≡ vault R w
  unfolding write_oauth_credentials write_credentials_file or_fail_write ask chmod_after
  vault-write_oauth creds w = ground arith

  vault-clear_oauth : (w : World R) → vault R (clear_oauth_credential R w) ≡ vault R w
  unfolding clear_oauth_credential ask
  vault-clear_oauth w = ground arith

  or_fail_write-world : {A : Type 0} (out : Result A × World R) → (or_fail_write R out).1 ≡ out.1
  unfolding or_fail_write
  or_fail_write-world (ok a, w) = refl
  or_fail_write-world (err e, w) = refl

  abbrev then_run : (World R → World R) → Unit {0} → World R → Result (Unit {0}) × World R
  then_run f _ v = (ok tt, f v)

  vault-continue :
      (out : Result (Unit {0}) × World R) (f : World R → World R) (w : World R)
      → vault R out.1 ≡ vault R w
      → ((v : World R) → vault R (f v) ≡ vault R v)
      → vault R (continue R out (then_run f)).1 ≡ vault R w
  vault-continue (ok a, v) f w h k = k v ∙ h
  vault-continue (err e, v) f w h k = h

  -- No write of the active credential touches a stored copy.
  pub vault-write_active :
      (creds : Text) (w : World R) → vault R (write_active R creds w).1 ≡ vault R w
  unfolding write_active write_managed_credentials
  vault-write_active creds w = elim (Bool-cases (looks_like_api_key R creds)) [
    | inl key ↦ rw key (
        vault-continue _ (clear_oauth_credential R) w
          (ap (vault R) (or_fail_write-world _)
            ∙ vault-update_global_config R (approve_key R (trim_text creds)) w)
          vault-clear_oauth)
    | inr oauth ↦ rw oauth (
        vault-continue _ (clear_managed_key R) w (vault-write_oauth creds w)
          vault-clear_managed_key)
  ]

  -- A credentials file that is not blank is what ReadActive returns, unless it cannot be read.
  pub read_active-file :
      (live : Text) (w : World R)
      → w.credentials_file ≡ some live
      → text_eq (trim_text live) blank ≡ false
      → (((read_active R w).0 ≡ ok live) ⊎ ((read_active R w).0 ≡ err credential_unreadable))
        × Reads R w (read_active R w)
  unfolding read_active read_credentials_file active_from or_managed_key
  read_active-file live w h n = elim (Bool-cases (ask R w).0) [
    | inl stop ↦ rw stop (inr refl, Reads-value R (ask R w) _ (ask-Reads R w))
    | inr go ↦
        rw (go, file)
          (rw n (
            inl refl,
            unfold ask rest in
                record {
                  same_face = refl;
                  same_chmods = refl;
                  same_vault = refl;
                  same_now = refl;
                  no_refusals = λ e. ap (rest R) e;
                },
          ))
  ]
    where
      file : (ask R w).1.credentials_file ≡ some live
      file = ap (λ (x : Face R). x.credentials) (ask-Reads R w).same_face ∙ h

  -- With no fault of the environment an OAuth credential is written, and nothing is refused later.
  pub write_active-ok :
      (creds : Text) (w : World R)
      → IsOauth creds
      → w.refusals ≡ []
      → w.chmod_failures ≡ []
      → ((write_active R creds w).0 ≡ ok tt) × ((write_active R creds w).1.refusals ≡ [])
  unfolding write_active write_oauth_credentials write_credentials_file or_fail_write
      clear_managed_key update_global_config write_config_json write_config_text read_config_json
      ask chmod_after answer rest
  write_active-ok creds w o h c = rw (o, h, c) (refl, ground arith)

  pub read_active-ok :
      (live : Text) (w : World R)
      → w.credentials_file ≡ some live
      → text_eq (trim_text live) blank ≡ false
      → w.refusals ≡ []
      → ((read_active R w).0 ≡ ok live) × Reads R w (read_active R w)
  unfolding read_active read_credentials_file active_from or_managed_key ask answer rest
  read_active-ok live w h n r = (rw (r, h, n) refl, (read_active-file live w h n).1)
