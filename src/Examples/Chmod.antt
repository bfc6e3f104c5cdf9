-- ===== src/Examples/Chmod.antt =====
-- A chmod that fails after the rename. At the config splice, the switch reports that it was rolled
-- back, the credential is the old one again, and ~/.claude.json names the target. At the live
-- credential, the switch fails without a rollback: the credential is the target's, and
-- ~/.claude.json names the old account. At the backup of the outgoing slot, it fails with the backup
-- in place.
use cswap.Base.{◌≡◌, refl, true, false, some, [], ◌∷◌}
use cswap.Files.{
  World, Result, ◌>>=◌, read_config_text, read_account_credentials, read_account_config,
  write_account_credentials, write_account_config, record_step, write_config_text, write_sequence,
  io, credential_write, rolled_back, err,
}
use cswap.Files.Active.{read_active, write_active}
use cswap.Switching.Provenance.{fingerprint_equal, same_fingerprint}
use cswap.Switching.Classify.{classify_outgoing}
use cswap.Switching.Shared.{SwitchOp, oauth_section}
use cswap.Switching.Transaction.{rollback}
use cswap.Switching.Normal.{normal_switch, normal_switch_body}
use cswap.Examples.Tree.{tree_runtime, Tree, field, leaf, nothing, document}
use cswap.Examples.Machine.{first_live, offline, two_accounts, login}

-- The fourth chmod is the one of the config splice.
abbrev fourth_chmod : World tree_runtime
fourth_chmod = record (first_live []) { chmod_failures = false ∷ false ∷ false ∷ true ∷ [] }

abbrev run : Result SwitchOp × World tree_runtime
run = normal_switch tree_runtime 2 "b" 1 "a" offline two_accounts fourth_chmod

abbrev account_of_second : Tree
account_of_second = field "emailAddress" (leaf "b") (field "accountUuid" (leaf "b") nothing)

normal_switch-fourth_chmod :
    (run.0 ≡ err (rolled_back io))
    × (run.1.credentials_file ≡ some (login "a1" "ra"))
    × (run.1.global_config
        ≡ some (
            document (
              field "oauthAccount" account_of_second (
                field "oauthAccount"
                  (field "emailAddress" (leaf "a") (field "accountUuid" (leaf "a") nothing))
                  (field "theme" (leaf "dark") nothing)))))
unfolding normal_switch ◌>>=◌ read_active read_config_text normal_switch_body classify_outgoing
    read_account_credentials fingerprint_equal same_fingerprint write_account_credentials
    write_account_config read_account_config write_active oauth_section record_step
    write_config_text write_sequence rollback
normal_switch-fourth_chmod = (refl, refl, refl)

-- The third chmod is the one of the live credential.
abbrev third_chmod : World tree_runtime
third_chmod = record (first_live []) { chmod_failures = false ∷ false ∷ true ∷ [] }

abbrev run_third : Result SwitchOp × World tree_runtime
run_third = normal_switch tree_runtime 2 "b" 1 "a" offline two_accounts third_chmod

normal_switch-third_chmod :
    (run_third.0 ≡ err credential_write)
    × (run_third.1.credentials_file ≡ some (login "b0" "rb"))
    × (run_third.1.global_config ≡ third_chmod.global_config)
unfolding normal_switch ◌>>=◌ read_active read_config_text normal_switch_body classify_outgoing
    read_account_credentials fingerprint_equal same_fingerprint write_account_credentials
    write_account_config read_account_config write_active oauth_section record_step
    write_config_text write_sequence rollback
normal_switch-third_chmod = (refl, refl, refl)

-- The first one is that of the outgoing slot's backup.
abbrev first_chmod : World tree_runtime
first_chmod = record (first_live []) { chmod_failures = true ∷ [] }

abbrev run_first : Result SwitchOp × World tree_runtime
run_first = normal_switch tree_runtime 2 "b" 1 "a" offline two_accounts first_chmod

normal_switch-first_chmod :
    (run_first.0 ≡ err io)
    × (run_first.1.credential_backups 1 "a" ≡ login "a1" "ra")
    × (run_first.1.credentials_file ≡ first_chmod.credentials_file)
unfolding normal_switch ◌>>=◌ read_active read_config_text normal_switch_body classify_outgoing
    read_account_credentials fingerprint_equal same_fingerprint write_account_credentials
    write_account_config read_account_config write_active oauth_section record_step
    write_config_text write_sequence rollback
normal_switch-first_chmod = (refl, refl, refl)
