-- ===== src/Examples/Perform.antt =====
-- The whole operation, from slot 1 to slot 2.
use cswap.Base.{◌≡◌, ◌⊎◌, refl, Bool, true, false, some, List, [], ◌∷◌}
use cswap.Roster.{record_for, lookup, find_account_slot}
use cswap.Files.{
  ◌>>=◌, read_config_text, read_account_credentials, read_account_config, write_account_credentials,
  write_account_config, record_step, write_config_text, write_sequence, read_sequence, ok,
}
use cswap.Files.Frame.{vault}
use cswap.Files.Active.{read_active, write_active, get_current_account}
use cswap.Switching.Provenance.{fingerprint_equal, same_fingerprint}
use cswap.Switching.Classify.{classify_outgoing}
use cswap.Switching.Shared.{SwitchOp, Warning, not_preserved, oauth_section}
use cswap.Switching.Normal.{normal_switch, normal_switch_body}
use cswap.Switching.Normal.Preservation.{Preserved}
use cswap.Switching.Perform.{perform_switch}
use cswap.Switching.Perform.Preserves.{perform_switch-preserves}
use cswap.Examples.Tree.{tree_runtime}
use cswap.Examples.Machine.{first_live, offline, login}

abbrev switched : SwitchOp
switched = record {
  from = some (record { number = some 1; email = "a" });
  to = record { number = some 2; email = "b" };
  warnings = [];
}

signed_in :
    (get_current_account tree_runtime (read_sequence tree_runtime (first_live [])).1).0
    ≡ some ("a", "")
unfolding get_current_account read_sequence
signed_in = refl

perform_switch-switched :
    (perform_switch tree_runtime 2 false offline (first_live [])).0 ≡ ok switched
unfolding perform_switch normal_switch ◌>>=◌ read_active read_config_text normal_switch_body
    classify_outgoing read_account_credentials fingerprint_equal same_fingerprint
    write_account_credentials write_account_config read_account_config write_active oauth_section
    record_step write_config_text write_sequence read_sequence record_for lookup get_current_account
    find_account_slot
perform_switch-switched = refl

abbrev unwarned : List Warning
unwarned = []

abbrev gently : Bool
gently = false

perform_switch-preserves_example :
    (Preserved tree_runtime
      (login "a1" "ra")
      (vault tree_runtime (perform_switch tree_runtime 2 false offline (first_live [])).1))
    ⊎ ((gently ≡ true) × (unwarned ≡ not_preserved ∷ []))
perform_switch-preserves_example =
    perform_switch-preserves tree_runtime 2 false offline (login "a1" "ra") refl refl
      (first_live []) ("a", "") refl signed_in switched perform_switch-switched
