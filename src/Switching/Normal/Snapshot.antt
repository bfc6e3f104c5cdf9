-- ===== src/Switching/Normal/Snapshot.antt =====
-- The reads that come before the transaction of a normal switch.
use cswap.Base.{◌≡◌, refl, ap, ◌∙◌, false, some, arith, inl, inr, ◌⊎◌, Bool-cases}
use cswap.Runtime.{Runtime}
use cswap.Files.{Error, credential_unreadable, Result, ok, err, World, ask, read_config_text}
use cswap.Files.Active.{read_active}
use cswap.Files.Active.Effects.{read_active-file}
use cswap.Files.Frame.{Face, face, Reads, ask-Reads, vault}
use cswap.Files.Hoare.{Post, returned, failed}
use cswap.Switching.Shared.{replace_error}
use cswap.Switching.Transaction.Restore.{SameLogin}

module _ (R : Runtime) where
  open R use {Text, text_eq, blank, trim_text}

  -- Before the transaction: nothing but the answers has been used up.
  pub record Before (w v : World R) : Type 0 where
    pub same_face : face R v ≡ face R w
    pub same_vault : vault R v ≡ vault R w
    pub same_chmods : v.chmod_failures ≡ w.chmod_failures

  pub Before-read :
      {A : Type 0} (w v : World R) (out : A × World R) → Before w v → Reads R v out → Before w out.1
  Before-read w v out b r = record {
    same_face = r.same_face ∙ b.same_face;
    same_vault = r.same_vault ∙ b.same_vault;
    same_chmods = r.same_chmods ∙ b.same_chmods;
  }

  pub Before-same : (w v : World R) → Before w v → SameLogin R (face R v) (face R w)
  Before-same w v b = record {
    credentials = ap (λ (x : Face R). x.credentials) b.same_face;
    config = ap (λ (x : Face R). x.config) b.same_face;
    sequence = ap (λ (x : Face R). x.sequence) b.same_face;
  }

  pub read_live :
      (live : Text) (w : World R)
      → w.credentials_file ≡ some live
      → text_eq (trim_text live) blank ≡ false
      → Post
          (Before w)
          (λ creds v. (Before w v) × (creds ≡ live))
          (replace_error R credential_unreadable (read_active R) w)
  unfolding replace_error
  read_live live w h n = go (read_active R w) (read_active-file R live w h n)
    where
      go :
          (out : Result Text × World R)
          → ((out.0 ≡ ok live) ⊎ (out.0 ≡ err credential_unreadable)) × Reads R w out
          → Post
              (Before w)
              (λ creds v. (Before w v) × (creds ≡ live))
              (elim out.0 [ ok a ↦ ok a | err _ ↦ err credential_unreadable ], out.1)
      go (ok a, v) (e, r) = returned (
        Before-read w w _ (record { same_face = refl; same_vault = refl; same_chmods = refl }) r,
        ground arith,
      )
      go (err d, v) (e, r) =
          failed (
            Before-read w w _ (record { same_face = refl; same_vault = refl; same_chmods = refl })
              r)

  pub read_text :
      (e : Error) (w v : World R)
      → Before w v
      → Post
          (Before w)
          (λ text u. (Before w u) × (text ≡ w.global_config))
          (replace_error R e (read_config_text R) v)
  unfolding replace_error read_config_text
  read_text e w v b = elim (Bool-cases (ask R v).0) [
    | inl stop ↦ rw stop (failed (Before-read w v (ask R v) b (ask-Reads R v)))
    | inr go ↦ rw go (
        returned
          (Before-read w v (ask R v) b (ask-Reads R v), ap (λ (x : Face R). x.config) b.same_face))
  ]
