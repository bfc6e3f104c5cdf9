-- ===== src/Switching/Normal/Keeps.antt =====
-- Calls that leave every stored copy alone: steps 2 to 5 of the normal path are such calls.
use mathlib.Core.Path.{subst}
use cswap.Base.{ℕ, String, ◌≡◌, refl, sym, ◌∙◌, Bool, true, false, Option, none, some}
use cswap.Runtime.{Runtime}
use cswap.Roster.{SequenceData}
use cswap.Files.{
  Error, Step, Result, ok, err, World, Exec, continue, pure, fail, lenient, modify, ◌>>=◌,
  record_step, read_config_json, write_config_json, write_sequence, read_account_credentials,
  read_account_config,
}
use cswap.Files.Active.{write_active}
use cswap.Files.Active.Effects.{vault-write_active}
use cswap.Files.Frame.{
  Vault, vault, read_config_json-Reads, read_account_credentials-Reads, read_account_config-Reads,
  vault-write_config_json, vault-write_sequence,
}
use cswap.Files.Hoare.{Post, returned, failed}
use cswap.Switching.Shared.{or_fail, guard, retrieve_target}
use cswap.Switching.Normal.{activate}

module _ (R : Runtime) where
  open R use {Text}

  -- A call that leaves the vault alone, whether it returns or fails.
  pub record Keeps {A : Type 0} (m : Exec R A) : Type 0 where
    pub at : (w : World R) → vault R (m w).1 ≡ vault R w

  Keeps-pure : {A : Type 0} (a : A) → Keeps (pure R a)
  unfolding pure
  Keeps-pure a = record { at = λ w. refl }

  Keeps-or_fail : {A : Type 0} (o : Option A) (e : Error) → Keeps (or_fail R o e)
  unfolding or_fail pure fail
  Keeps-or_fail none e = record { at = λ w. refl }
  Keeps-or_fail (some a) e = record { at = λ w. refl }

  Keeps-guard : (b : Bool) (e : Error) → Keeps (guard R b e)
  unfolding guard pure fail
  Keeps-guard true e = record { at = λ w. refl }
  Keeps-guard false e = record { at = λ w. refl }

  Keeps-step : (step : Step) → Keeps (modify R (record_step R step))
  unfolding modify record_step
  Keeps-step step = record { at = λ w. refl }

  Keeps-now : Keeps (lenient R (λ w. (w.now, w)))
  unfolding lenient
  Keeps-now = record { at = λ w. refl }

  Keeps-credentials : (num : ℕ) (e : String) → Keeps (lenient R (read_account_credentials R num e))
  unfolding lenient
  Keeps-credentials num e = record {
    at = λ w. (read_account_credentials-Reads R num e w).same_vault;
  }

  Keeps-config : (num : ℕ) (e : String) → Keeps (lenient R (read_account_config R num e))
  unfolding lenient
  Keeps-config num e = record { at = λ w. (read_account_config-Reads R num e w).same_vault }

  Keeps-read : Keeps (lenient R (read_config_json R))
  unfolding lenient
  Keeps-read = record { at = λ w. (read_config_json-Reads R w).same_vault }

  pub Keeps-write_active : (creds : Text) → Keeps (write_active R creds)
  Keeps-write_active creds = record { at = λ w. vault-write_active R creds w }

  Keeps-write_config : (o : R.Object) → Keeps (write_config_json R o)
  Keeps-write_config o = record { at = λ w. vault-write_config_json R o w }

  pub Keeps-write_sequence : (sd : SequenceData) → Keeps (write_sequence R sd)
  Keeps-write_sequence sd = record { at = λ w. vault-write_sequence R sd w }

  Keeps-bind :
      {A B : Type 0} (m : Exec R A) (f : A → Exec R B)
      → Keeps m
      → ((a : A) → Keeps (f a))
      → Keeps (m >>= f)
  unfolding ◌>>=◌
  Keeps-bind {A} {B} m f km kf = record { at = λ w. go w (m w) (km.at w) }
    where
      go :
          (w : World R) (out : Result A × World R)
          → vault R out.1 ≡ vault R w
          → vault R (continue R out f).1 ≡ vault R w
      go w (ok a, v) h = (kf a).at v ∙ h
      go w (err e, v) h = h

  ruleset keeps_rules = (
    Keeps-pure, Keeps-or_fail, Keeps-guard, Keeps-step, Keeps-now, Keeps-credentials, Keeps-config,
    Keeps-read, Keeps-write_active, Keeps-write_config, Keeps-write_sequence, Keeps-bind,
  )

  pub retrieve_target-Keeps : (target : ℕ) (email : String) → Keeps (retrieve_target R target email)
  unfolding retrieve_target
  retrieve_target-Keeps target email = search keeps_rules

  pub activate-Keeps :
      (target : ℕ) (creds config : Text) (sd : SequenceData)
      → Keeps (activate R target creds config sd)
  unfolding activate
  activate-Keeps target creds config sd = search keeps_rules depth 30

  -- A write of ~/.claude.json that starts from what is there.
  pub Keeps-write_target :
      (change : Option R.Object → R.Object)
      → Keeps (do found ← lenient R (read_config_json R); write_config_json R (change found))
  Keeps-write_target change = search keeps_rules

  -- So what holds of the vault before such a call holds after it.
  pub Keeps-Post :
      {A : Type 0} (P : Vault R → Type 0) (m : Exec R A) (w : World R)
      → Keeps m
      → P (vault R w)
      → Post (λ v. Unit {0}) (λ a v. P (vault R v)) (m w)
  Keeps-Post {A = A} P m w k p = go (m w) (k.at w)
    where
      go :
          (out : Result A × World R)
          → vault R out.1 ≡ vault R w
          → Post (λ v. Unit {0}) (λ a v. P (vault R v)) out
      go (ok a, v) e = returned (subst P (sym e) p)
      go (err d, v) e = failed tt
