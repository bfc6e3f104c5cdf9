-- ===== src/Examples/Machine.antt =====
-- Two logins stored in slots 1 and 2, the first of them live.
use cswap.Base.{ℕ, String, Bool, false, none, some, List, [], ◌∷◌, ◌==◌, if◌then◌else◌}
use cswap.Roster.{Account, SequenceData, parsed}
use cswap.Files.{World}
use cswap.Switching.Provenance.{Provenance}
use cswap.Examples.Tree.{Tree, leaf, nothing, field, document, tree_runtime}

-- A credential with these access and refresh tokens.
abbrev pub login : String → String → Tree
login access refresh = document (
    field "claudeAiOauth"
      (field "accessToken" (leaf access) (field "refreshToken" (leaf refresh) nothing)) nothing)

-- The oauthAccount section of this email, and a config that has it.
abbrev pub section_with : String → Tree
section_with email = field "emailAddress" (leaf email) (field "accountUuid" (leaf email) nothing)

abbrev pub config_object : String → Tree
config_object email =
    field "oauthAccount" (section_with email) (field "theme" (leaf "dark") nothing)

abbrev pub config_of : String → Tree
config_of email = document (config_object email)

abbrev pub account_of : String → Account
account_of email = record {
  email = email;
  alias_name = "";
  uuid = email;
  organization_uuid = "";
  kind = "oauth";
  disabled = false;
}

abbrev pub two_accounts : SequenceData
two_accounts = record {
  active_account_number = some 1;
  last_updated = "t0";
  sequence = 1 ∷ 2 ∷ [];
  accounts = (1, account_of "a") ∷ (2, account_of "b") ∷ [];
}

abbrev pub stored_logins : ℕ → String → Tree
stored_logins num email =
    if num == 1 then login "a0" "ra" else if num == 2 then login "b0" "rb" else leaf ""

abbrev pub stored_configs : ℕ → String → Tree
stored_configs num email =
    if num == 1 then config_of "a" else if num == 2 then config_of "b" else leaf ""

-- Slot 1 is live, its access token renewed since its backup; the environment refuses the calls
-- that the list says.
abbrev pub first_live : List Bool → World tree_runtime
first_live refusals = record {
  credentials_file = some (login "a1" "ra");
  global_config = some (config_of "a");
  sequence_file = parsed two_accounts;
  credential_backups = stored_logins;
  config_backups = stored_configs;
  unclaimed = [];
  completed_steps = [];
  now = "t1";
  refusals = refusals;
  chmod_failures = [];
}

-- No identity was resolved for the live login.
abbrev pub offline : Provenance tree_runtime
offline = record { live = some (login "a1" "ra"); resolved = none }

-- The live login was resolved to the owner of slot 2.
abbrev pub owner_of_second : Provenance tree_runtime
owner_of_second = record {
  live = some (login "c0" "rc");
  resolved = some (record { email = "b"; uuid = "b"; org_uuid = "" });
}
