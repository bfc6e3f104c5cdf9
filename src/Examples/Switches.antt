-- ===== src/Examples/Switches.antt =====
-- Switches from slot 1 to slot 2, one that goes well and one that fails at its last step.
use cswap.Base.{ℕ, arith, ◌≡◌, ◌≢◌, refl, Bool, true, false, some, List, [], ◌∷◌}
use cswap.Files.{
  World, credentials_written, decode, ◌>>=◌, read_config_text, read_account_credentials,
  read_account_config, write_account_credentials, write_account_config, record_step,
  write_config_text, write_sequence, Error, io, rolled_back, rollback_failed, ok, err,
}
use cswap.Files.Frame.{face, vault}
use cswap.Roster.{record_for, lookup, find_account_slot}
use cswap.Files.Active.{looks_like_api_key, has_managed_key, read_active, write_active}
use cswap.Switching.Provenance.{fingerprint_equal, same_fingerprint}
use cswap.Switching.Classify.{classify_outgoing, attribute, foreign}
use cswap.Switching.Classify.Attribution.{Verdict, classify_outgoing-Verdict}
use cswap.Switching.Shared.{SwitchOp, oauth_section}
use cswap.Switching.Transaction.{rollback}
use cswap.Switching.Transaction.Restore.{SameLogin, at_credentials, rollback-SameLogin}
use cswap.Switching.Normal.{normal_switch, normal_switch_body}
use cswap.Switching.Normal.Preservation.{Preserved}
use cswap.Switching.Normal.Atomicity.{normal_switch-atomic}
use cswap.Switching.Normal.Success.{normal_switch-preserves}
use cswap.Switching.Normal.Total.{normal_switch-returns}
use cswap.Switching.Normal.Outcome.{Completed, normal_switch-Completed}
use cswap.Examples.Tree.{tree_runtime}
use cswap.Examples.Machine.{
  first_live, stored_logins, owner_of_second, offline, two_accounts, login, config_of,
  config_object, section_with,
}

-- The twelfth call that can be refused is the write of the roster.
abbrev at_roster : List Bool
at_roster =
    false ∷ false ∷ false ∷ false ∷ false ∷ false ∷ false ∷ false ∷ false ∷ false ∷ false ∷ true
    ∷ []

abbrev went_well : SwitchOp
went_well = record {
  from = some (record { number = some 1; email = "a" });
  to = record { number = some 2; email = "b" };
  warnings = [];
}

not_lost : (d : Error) → rolled_back io ≢ rollback_failed d
not_lost d e = cc

normal_switch-at_roster :
    (normal_switch tree_runtime 2 "b" 1 "a" offline two_accounts (first_live at_roster)).0
    ≡ err (rolled_back io)
unfolding normal_switch ◌>>=◌ read_active read_config_text normal_switch_body classify_outgoing
    read_account_credentials fingerprint_equal same_fingerprint write_account_credentials
    write_account_config read_account_config write_active oauth_section record_step
    write_config_text write_sequence rollback
normal_switch-at_roster = refl

normal_switch-went_well :
    (normal_switch tree_runtime 2 "b" 1 "a" offline two_accounts (first_live [])).0 ≡ ok went_well
unfolding normal_switch ◌>>=◌ read_active read_config_text normal_switch_body classify_outgoing
    read_account_credentials fingerprint_equal same_fingerprint write_account_credentials
    write_account_config read_account_config write_active oauth_section record_step
    write_config_text write_sequence
normal_switch-went_well = refl

normal_switch-atomic_example :
    SameLogin tree_runtime
      (face tree_runtime
        (normal_switch tree_runtime 2 "b" 1 "a" offline two_accounts (first_live at_roster)).1)
      (face tree_runtime (first_live at_roster))
unfolding looks_like_api_key has_managed_key decode
normal_switch-atomic_example =
    normal_switch-atomic tree_runtime 2 "b" 1 "a" offline two_accounts (first_live at_roster)
      (login "a1" "ra") (config_of "a") refl refl refl refl refl refl refl (rolled_back io)
      normal_switch-at_roster not_lost

normal_switch-preserves_example : Preserved tree_runtime (login "a1" "ra") (
    vault tree_runtime
      (normal_switch tree_runtime 2 "b" 1 "a" offline two_accounts (first_live [])).1)
normal_switch-preserves_example =
    normal_switch-preserves tree_runtime 2 "b" 1 "a" offline two_accounts (first_live [])
      (login "a1" "ra") refl refl went_well normal_switch-went_well

normal_switch-Completed_example :
    Completed tree_runtime 2 "b"
      (face tree_runtime (first_live []))
      two_accounts
      (normal_switch tree_runtime 2 "b" 1 "a" offline two_accounts (first_live [])).1
unfolding looks_like_api_key has_managed_key decode
normal_switch-Completed_example =
    normal_switch-Completed tree_runtime 2 "b" 1 "a" offline two_accounts (first_live [])
      (login "a1" "ra") refl refl refl refl refl refl went_well normal_switch-went_well

-- Stopped after the credentials of slot 2 were written.
abbrev stopped : World tree_runtime
stopped = record (first_live []) {
  credentials_file = some (login "b0" "rb");
  completed_steps = credentials_written ∷ [];
}

rollback-SameLogin_example :
    SameLogin tree_runtime
      (face tree_runtime
        (rollback tree_runtime
          (record {
            original_credentials = login "a1" "ra";
            original_config = config_of "a";
            original_account_num = 1;
          })
          stopped).1)
      (face tree_runtime (first_live []))
unfolding rollback looks_like_api_key has_managed_key decode write_config_text write_active
rollback-SameLogin_example =
    rollback-SameLogin tree_runtime
      (record {
        original_credentials = login "a1" "ra";
        original_config = config_of "a";
        original_account_num = 1;
      })
      (face tree_runtime (first_live [])) refl refl refl refl stopped refl
      (at_credentials (login "b0" "rb")) refl

-- A live login that belongs to slot 2 while slot 1 is the one being switched away from.
classify_outgoing-second :
    (classify_outgoing tree_runtime 1 "a"
      (login "c0" "rc")
      owner_of_second
      (some two_accounts)
      (first_live [])).0
    ≡ foreign 2
unfolding classify_outgoing read_account_credentials fingerprint_equal same_fingerprint record_for
    lookup attribute find_account_slot
classify_outgoing-second = refl

classify_outgoing-Verdict_example :
    Verdict tree_runtime stored_logins 1 "a"
      (login "c0" "rc")
      owner_of_second
      (some two_accounts)
      (classify_outgoing tree_runtime 1 "a"
        (login "c0" "rc")
        owner_of_second
        (some two_accounts)
        (first_live [])).0
classify_outgoing-Verdict_example =
    classify_outgoing-Verdict tree_runtime stored_logins 1 "a" (login "c0" "rc") owner_of_second
      (some two_accounts) (first_live []) refl

abbrev second : ℕ
second = 2

other : second ≢ 1
other e = omega (arith, e)

normal_switch-returns_example :
    (op : SwitchOp) × ((normal_switch tree_runtime 2 "b" 1 "a" offline two_accounts
        (first_live [])).0
      ≡ ok op)
unfolding looks_like_api_key has_managed_key decode oauth_section
normal_switch-returns_example =
    normal_switch-returns tree_runtime 2 "b" 1 "a" offline two_accounts (first_live [])
      (login "a1" "ra") (config_of "a") (some (config_object "b")) (section_with "b")
      (config_object "a") other refl refl refl refl refl refl refl refl refl refl refl refl refl
