-- ===== src/Switching/Shared.antt =====
-- Parts of internal/switching/perform.go that both ways to switch use. The switch is modelled in
-- the mode that prints nothing (emitOutput false: --json, and auto-switch).
use cswap.Base.{ℕ, String, Bool, true, false, not, Option, none, some, List, if◌then◌else◌}
use cswap.Runtime.{Runtime}
use cswap.Files.{
  Error, no_stored_credentials, no_stored_config, ok, err, Exec, pure, fail, lenient, ◌>>=◌, ◌>>◌,
  read_account_credentials, read_account_config,
}

-- An account reference: the slot number may be null.
pub record Ref : Type 0 where
  pub number : Option ℕ
  pub email : String

pub data Warning : Type 0 where
  ownership_mismatch already_synced : ℕ → Warning
  unmanaged_login not_preserved : Warning

pub record SwitchOp : Type 0 where
  pub from : Option Ref
  pub to : Ref
  pub warnings : List Warning

module _ (R : Runtime) where
  open R use {
    Text, text_eq, blank, Value, Object, get, put, as_object, of_object, is_empty, unmarshal,
  }

  -- oauthSection: the oauthAccount object, unless it is missing or empty.
  unfoldable pub section_of : Option Value → Option Object
  section_of none = none
  section_of (some v) = elim (as_object v) [
    | none ↦ none
    | some o ↦ if is_empty o then none else some o
  ]

  unfoldable pub oauth_section : Option Object → Option Object
  unfolding section_of
  oauth_section none = none
  oauth_section (some cfg) = section_of (get cfg "oauthAccount")

  unfoldable pub or_fail : {A : Type 0} → Option A → Error → Exec R A
  or_fail none e = fail R e
  or_fail (some a) e = pure R a

  unfoldable pub guard : Bool → Error → Exec R (Unit {0})
  guard true e = pure R tt
  guard false e = fail R e

  unfoldable pub replace_error : {A : Type 0} → Error → Exec R A → Exec R A
  replace_error e m w = let (r, w') = m w in (elim r [ ok a ↦ ok a | err _ ↦ err e ], w')

  -- Step 2: the target's stored login.
  unfoldable pub retrieve_target : ℕ → String → Exec R (Text × Text)
  unfolding guard
  retrieve_target target email = do
    creds ← lenient R (read_account_credentials R target email)
    config ← lenient R (read_account_config R target email)
    guard (not (text_eq creds blank)) no_stored_credentials
    guard (not (text_eq config blank)) no_stored_config
    pure R (creds, config)
