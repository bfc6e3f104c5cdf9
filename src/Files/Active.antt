-- ===== src/Files/Active.antt =====
-- The active credential: internal/credstore/active.go with no usable Keychain, and
-- internal/credstore/classify.go. OAuth lives in .credentials.json, a managed API key in
-- ~/.claude.json.
pub mod Effects
use cswap.Base.{
  ◌-◌, leb, String, Bool, true, false, ◌&&◌, not, Option, none, some, List, [], ◌∷◌, ◌++◌,
  if◌then◌else◌, str_eq, is_none, is_some,
}
use cswap.Runtime.{Runtime}
use cswap.Files.{
  io, credential_write, credential_unreadable, Result, ok, err, World, Exec, continue, ask,
  chmod_after, read_config_json, update_global_config,
}

module _ (R : Runtime) where
  open R use {
    Text, text_eq, blank, content, trim_text, has_prefix, len, slice_from, string_of, Value, Object,
    as_object, of_object, as_string, of_string, as_list, of_list, is_null, empty, get, put, delete,
  }

  -- LooksLikeAPIKey
  unfoldable pub looks_like_api_key : Text → Bool
  looks_like_api_key creds =
      if text_eq creds blank
      then false
      else (let text = trim_text creds in has_prefix text "sk-ant-api" && not (has_prefix text "{"))

  -- ReadCredentialsFile
  read_credentials_file : Exec R (Option Text)
  unfolding ask
  read_credentials_file w =
      let (refused, w') = ask R w in if refused then (err io, w') else (ok w'.credentials_file, w')

  key_in : Option Value → Text
  key_in none = blank
  key_in (some v) = elim (as_string v) [ none ↦ blank | some key ↦ content key ]

  -- readManagedKey: primaryApiKey of ~/.claude.json, "" when absent.
  read_managed_key : World R → Text × World R
  unfolding read_config_json key_in
  read_managed_key w =
      let (found, w') = read_config_json R w in
      (elim found [ none ↦ blank | some cfg ↦ key_in (get cfg "primaryApiKey") ], w')

  or_managed_key : Bool → Text → World R → Result Text × World R
  unfolding read_managed_key
  or_managed_key present raw w =
      let (key, w') = read_managed_key w in if present then (ok raw, w) else (ok key, w')

  -- A blank file counts as none, and a file that is there is returned raw.
  active_from : Result (Option Text) × World R → Result Text × World R
  unfolding or_managed_key
  active_from (err e, w) = (err credential_unreadable, w)
  active_from (ok none, w) = or_managed_key false blank w
  active_from (ok (some raw), w) = or_managed_key (not (text_eq (trim_text raw) blank)) raw w

  -- ReadActive: the OAuth file, then the managed key; an unreadable file is an error.
  unfoldable pub read_active : Exec R Text
  unfolding active_from read_credentials_file
  read_active w = active_from (read_credentials_file w)

  -- WriteCredentialsFile
  write_credentials_file : Text → Exec R (Unit {0})
  unfolding ask chmod_after
  write_credentials_file raw w =
      let (refused, w') = ask R w in
      if refused then (err io, w') else chmod_after R (record w' { credentials_file = some raw })

  unfoldable pub has_managed_key : Option Object → Bool
  has_managed_key none = false
  has_managed_key (some cfg) = elim (get cfg "primaryApiKey") [
    | none ↦ false
    | some v ↦ not (is_null v)
  ]

  -- clearManagedKey, best effort
  clear_managed_key : World R → World R
  unfolding has_managed_key read_config_json update_global_config
  clear_managed_key w =
      let (cfg, w') = read_config_json R w in
      let cleared = update_global_config R (delete "primaryApiKey") w' in
      if has_managed_key cfg then cleared.1 else w'

  -- clearOAuthCredential, best effort
  clear_oauth_credential : World R → World R
  unfolding ask
  clear_oauth_credential w =
      let (refused, w') = ask R w in
      if is_none w.credentials_file
      then w
      else if refused
      then w'
      else record w' { credentials_file = none }

  or_fail_write : {A : Type 0} → Result A × World R → Result A × World R
  or_fail_write (ok a, w) = (ok a, w)
  or_fail_write (err e, w) = (err credential_write, w)

  -- writeOAuthCredentials, file mode
  write_oauth_credentials : Text → Exec R (Unit {0})
  unfolding write_credentials_file or_fail_write
  write_oauth_credentials creds w = or_fail_write (write_credentials_file creds w)

  objects_or_empty : Option Value → Object
  objects_or_empty none = empty
  objects_or_empty (some v) = elim (as_object v) [ none ↦ empty | some o ↦ o ]

  values_or_empty : Option Value → List Value
  values_or_empty none = []
  values_or_empty (some v) = elim (as_list v) [ none ↦ [] | some vs ↦ vs ]

  string_or_blank : Value → String
  string_or_blank v = elim (as_string v) [ none ↦ "" | some s ↦ s ]

  approves : String → List Value → Bool
  unfolding string_or_blank
  approves approved [] = false
  approves approved (v ∷ vs) =
      if str_eq (string_or_blank v) approved then true else approves approved vs

  -- ApprovedForm: the last twenty characters of the stripped key.
  approved_form : Text → Text
  approved_form key =
      let t = trim_text key in if leb (len t) 20 then t else slice_from t (len t - 20)

  -- The mutation of ~/.claude.json that records an approved key.
  approve_key : Text → Object → Object
  unfolding objects_or_empty values_or_empty approves approved_form
  approve_key key cfg =
      let approved = string_of (approved_form key) in
      let responses = objects_or_empty (get cfg "customApiKeyResponses") in
      let listed = values_or_empty (get responses "approved") in
      let extended =
        if approves approved listed then listed else listed ++ of_string approved ∷ [] in
      let answered = put "approved" (of_list extended) responses in
      let complete =
        if is_some (get answered "rejected")
        then answered
        else put "rejected" (of_list []) answered in
      put "primaryApiKey" (of_string (string_of key))
        (put "customApiKeyResponses" (of_object complete) cfg)

  -- writeManagedCredentials, with no Keychain
  write_managed_credentials : Text → Exec R (Unit {0})
  unfolding approve_key or_fail_write update_global_config clear_oauth_credential
  write_managed_credentials key w =
      continue R (or_fail_write (update_global_config R (approve_key key) w))
        λ _ w'. (ok tt, clear_oauth_credential w')

  -- WriteActive: one axis is written and the other cleared.
  unfoldable pub write_active : Text → Exec R (Unit {0})
  unfolding looks_like_api_key write_managed_credentials write_oauth_credentials clear_managed_key
  write_active creds w =
      if looks_like_api_key creds
      then write_managed_credentials (trim_text creds) w
      else continue R (write_oauth_credentials creds w) λ _ w'. (ok tt, clear_managed_key w')

  -- The live identity (email, organizationUuid): ReadOAuthIdentity, GetCurrentAccount.
  string_at : Object → String → String
  string_at o k = elim (get o k) [ none ↦ "" | some v ↦ string_or_blank v ]

  object_at : Object → String → Object
  unfolding objects_or_empty
  object_at o k = objects_or_empty (get o k)

  identity_of : Option Object → Option (String × String)
  unfolding string_at object_at
  identity_of none = none
  identity_of (some m) =
      let account = object_at m "oauthAccount" in
      if str_eq (string_at account "emailAddress") ""
      then none
      else some (string_at account "emailAddress", string_at account "organizationUuid")

  unfoldable pub get_current_account : World R → Option (String × String) × World R
  unfolding identity_of string_or_blank objects_or_empty read_config_json
  get_current_account w = let (m, w') = read_config_json R w in (identity_of m, w')
