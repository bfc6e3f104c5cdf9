-- ===== src/Switching/Provenance.antt =====
-- What is known of the live credential's owner (internal/switching/provenance.go), and the
-- fingerprint of a credential (internal/oauth/fingerprint.go).
pub mod Resolution
use cswap.Base.{ℕ, String, Bool, true, false, ◌||◌, Option, none, some, str_eq, if◌then◌else◌}
use cswap.Runtime.{Runtime}
use cswap.Files.{Result, ok, err, World, read_account_credentials, read_sequence}
use cswap.Files.Active.{read_active, get_current_account}
use cswap.Roster.{SequenceData, find_account_slot}

-- oauth.Identity
pub record Identity : Type 0 where
  pub uuid : String
  pub email : String
  pub org_uuid : String

-- "sha256:" of a refresh token, or "sha256-full:" of the whole credential.
pub data Fingerprint : Type 0 where
  token full : String → Fingerprint

unfoldable pub same_fingerprint : Fingerprint → Fingerprint → Bool
same_fingerprint (token a) (token b) = str_eq a b
same_fingerprint (full a) (full b) = str_eq a b
same_fingerprint _ _ = false

non_blank : Option String → Option String
non_blank none = none
non_blank (some s) = if str_eq s "" then none else some s

module _ (R : Runtime) where
  open R use {
    Text, text_eq, blank, content, sha256, Value, Object, get, as_object, as_string, decode_first,
  }

  pub record Provenance : Type 0 where
    pub live : Option Text
    pub resolved : Option Identity

  -- Provenance{}
  abbrev pub unknown : Provenance
  unknown = record { live = none; resolved = none }

  object_in : Option Value → Option Object
  object_in none = none
  object_in (some v) = as_object v

  string_in : Option Value → Option String
  string_in none = none
  string_in (some v) = as_string v

  -- ExtractOAuthData
  extract_oauth_data : Text → Option Object
  unfolding object_in
  extract_oauth_data creds = elim (decode_first creds) [
    | none ↦ none
    | some m ↦ object_in (get m "claudeAiOauth")
  ]

  -- A field of the OAuth object, when it is a string that is not empty.
  unfoldable pub oauth_string : String → Text → Option String
  unfolding extract_oauth_data string_in non_blank
  oauth_string field creds = elim (extract_oauth_data creds) [
    | none ↦ none
    | some o ↦ non_blank (string_in (get o field))
  ]

  -- CredentialFingerprint
  unfoldable pub credential_fingerprint : Text → Option Fingerprint
  unfolding oauth_string
  credential_fingerprint creds =
      if text_eq creds blank then none else elim (oauth_string "refreshToken" creds) [
        | none ↦ some (full (sha256 creds))
        | some tok ↦ some (token (sha256 (content tok)))
      ]

  both : Option Fingerprint → Option Fingerprint → Bool
  both none none = true
  both (some a) (some b) = same_fingerprint a b
  both _ _ = false

  unfoldable pub fingerprint_equal : Text → Text → Bool
  unfolding both credential_fingerprint
  fingerprint_equal a b = both (credential_fingerprint a) (credential_fingerprint b)

  lineage : Text → Text → Bool
  lineage live backup =
      if text_eq backup blank then false else text_eq live backup || fingerprint_equal live backup

  matches_from : ℕ → String → Result Text × World R → Bool × World R
  unfolding lineage
  matches_from slot email (err e, w) = (true, w)
  matches_from slot email (ok live, w) =
      let (backup, w') = read_account_credentials R slot email w in
      if text_eq live blank then (true, w) else (lineage live backup, w')

  -- Unreadable or empty live credentials count as a match, a missing backup does not.
  unfoldable pub live_matches_slot_backup : ℕ → String → World R → Bool × World R
  unfolding matches_from
  live_matches_slot_backup slot email w = matches_from slot email (read_active R w)

  -- `profile` is the network call that names a token's owner; a nil client never answers.
  module _ (profile : String → Option Identity) where
    resolve : Text → Option Identity
    resolve live = elim (oauth_string "accessToken" live) [
      | none ↦ none
      | some access ↦ profile access
    ]

    resolve_against : Text → Option ℕ → String → World R → Provenance × World R
    unfolding resolve
    resolve_against live none email w = (record { live = some live; resolved = none }, w)
    resolve_against live (some slot) email w =
        let (backup, w') = read_account_credentials R slot email w in
        let known = text_eq backup live || fingerprint_equal backup live in
        (record { live = some live; resolved = if known then none else resolve live }, w')

    found_roster : Result (Option SequenceData) → Option SequenceData
    found_roster (ok found) = found
    found_roster (err e) = none

    resolve_for : Text → Option (String × String) × World R → Provenance × World R
    unfolding resolve_against found_roster
    resolve_for live (none, w) = (record { live = some live; resolved = none }, w)
    resolve_for live (some (email, org), w) =
        let (found, w') = read_sequence R w in
        resolve_against live (find_account_slot (found_roster found) email org) email w'

    prefetch_from : Result Text × World R → Provenance × World R
    unfolding resolve_for
    prefetch_from (err e, w) = (unknown, w)
    prefetch_from (ok live, w) =
        let resolved = resolve_for live (get_current_account R w) in
        if text_eq live blank then (record { live = some live; resolved = none }, w) else resolved

    unfoldable pub prefetch_live_identity : World R → Provenance × World R
    unfolding prefetch_from oauth_string
    prefetch_live_identity w = prefetch_from (read_active R w)
