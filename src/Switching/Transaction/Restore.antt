-- ===== src/Switching/Transaction/Restore.antt =====
-- What the rollback of internal/switching/transaction.go restores.
use mathlib.Core.List.{reverse}
use cswap.Base.{◌≡◌, refl, sym, ap, ◌∙◌, Bool, true, false, ◌&&◌, some, [], ◌∷◌}
use cswap.Runtime.{Runtime}
use cswap.Files.{credentials_written, config_written, Result, ok, err, World, write_config_text}
use cswap.Files.Active.{looks_like_api_key, write_active}
use cswap.Files.Active.Effects.{HasNoManagedKey, write_active-Wrote}
use cswap.Files.Frame.{Face, face, Wrote, done, refused, write_config_text-Wrote}
use cswap.Switching.Transaction.{
  SwitchTransaction, rollback_step, rollback_steps, succeeded, rollback,
}

module _ (R : Runtime) where
  open R use {Text}

  -- What a transaction leaves behind at each failure: nothing done, the credentials written, or
  -- the credentials and the config written. `f` is the face before the switch.
  pub data Stopped (f : Face R) : Face R → Type 0 where
    at_start : Stopped f (record f { steps = [] })
    at_credentials :
        (creds : Text)
        → Stopped f (record f { credentials = some creds; steps = credentials_written ∷ [] })
    at_config :
        (creds config : Text)
        → Stopped f (record {
          credentials = some creds;
          config = some config;
          sequence = f.sequence;
          steps = credentials_written ∷ config_written ∷ [];
        })

  -- The live login of two faces is the same: credentials, config and roster.
  pub record SameLogin (f g : Face R) : Type 0 where
    pub credentials : f.credentials ≡ g.credentials
    pub config : f.config ≡ g.config
    pub sequence : f.sequence ≡ g.sequence

  module _ (tx : SwitchTransaction R) (f : Face R)
      (oauth : looks_like_api_key R tx.original_credentials ≡ false)
      (clean : HasNoManagedKey R (some tx.original_config))
      (live : f.credentials ≡ some tx.original_credentials)
      (text : f.config ≡ some tx.original_config) where
    write_back :
        (w : World R) (b : Bool)
        → w.chmod_failures ≡ []
        → w.global_config ≡ some tx.original_config
        → w.sequence_file ≡ f.sequence
        → (succeeded R (write_active R tx.original_credentials w).0 && b) ≡ true
        → SameLogin (face R (write_active R tx.original_credentials w).1) f
    unfolding succeeded
    write_back w b c g s r =
        go (write_active R tx.original_credentials w)
          (write_active-Wrote R tx.original_credentials w c oauth (rw g clean)) r
      where
        go :
            (out : Result (Unit {0}) × World R)
            → Wrote R
                (face R w)
                (record (face R w) { credentials = some tx.original_credentials })
                out
            → (succeeded R out.0 && b) ≡ true
            → SameLogin (face R out.1) f
        go (ok a, v) (done e _) r = record {
          credentials = ap (λ (x : Face R). x.credentials) e ∙ sym live;
          config = ap (λ (x : Face R). x.config) e ∙ g ∙ sym text;
          sequence = ap (λ (x : Face R). x.sequence) e ∙ s;
        }
        go (err e, v) (refused _ _) r = cc

    write_back_both :
        (w : World R) (out : Result (Unit {0}) × World R)
        → w.sequence_file ≡ f.sequence
        → Wrote R (face R w) (record (face R w) { config = some tx.original_config }) out
        → (let (others, v) = rollback_steps R tx (credentials_written ∷ []) out.1 in
            succeeded R out.0 && others)
          ≡ true
        → SameLogin (face R (rollback_steps R tx (credentials_written ∷ []) out.1).1) f
    unfolding rollback_steps rollback_step succeeded
    write_back_both w (ok a, v) s (done e c) r =
        write_back v true c (ap (λ (x : Face R). x.config) e)
          (ap (λ (x : Face R). x.sequence) e ∙ s) r
    write_back_both w (err d, v) s (refused e c) r = cc

    restored :
        (w : World R) (g : Face R)
        → w.chmod_failures ≡ []
        → face R w ≡ g
        → Stopped f g
        → (rollback_steps R tx (reverse g.steps) w).0 ≡ true
        → SameLogin (face R (rollback_steps R tx (reverse g.steps) w).1) f
    unfolding rollback_steps rollback_step
    restored w g c e at_start r = record {
      credentials = ap (λ (x : Face R). x.credentials) e;
      config = ap (λ (x : Face R). x.config) e;
      sequence = ap (λ (x : Face R). x.sequence) e;
    }
    restored w g c e (at_credentials creds) r =
        write_back w true c (ap (λ (x : Face R). x.config) e ∙ text)
          (ap (λ (x : Face R). x.sequence) e) r
    restored w g c e (at_config creds config) r =
        write_back_both w (write_config_text R tx.original_config w)
          (ap (λ (x : Face R). x.sequence) e) (write_config_text-Wrote R tx.original_config w c) r

    -- A rollback that reports success, from any step at which the transaction can stop, restores
    -- the live credential, ~/.claude.json and the roster from before the switch. It is assumed that
    -- the originals in the transaction are those from before, that the original credential is no
    -- API key, that the original config has no managed key, and that chmod does not fail.
    pub rollback-SameLogin :
        (w : World R)
        → w.chmod_failures ≡ []
        → Stopped f (face R w)
        → (rollback R tx w).0 ≡ true
        → SameLogin (face R (rollback R tx w).1) f
    unfolding rollback
    rollback-SameLogin w c st r = restored w (face R w) c refl st r
