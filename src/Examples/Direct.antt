-- ===== src/Examples/Direct.antt =====
-- A direct activation of slot 2 over the login of slot 1, which no stored copy has.
use cswap.Base.{◌≡◌, refl, true, false, some, []}
use cswap.Files.{
  ◌>>=◌, read_config_text, read_account_credentials, read_account_config, write_config_text,
  write_sequence, write_unclaimed, ok,
}
use cswap.Files.Frame.{vault}
use cswap.Files.Active.{read_active, write_active}
use cswap.Switching.Shared.{Ref, SwitchOp, oauth_section}
use cswap.Switching.Direct.{direct_activate}
use cswap.Switching.Direct.Displaced.{Accounted, direct_activate-preserves}
use cswap.Examples.Tree.{tree_runtime}
use cswap.Examples.Machine.{first_live, two_accounts, login}

abbrev first : Ref
first = record { number = some 1; email = "a" }

abbrev activated : SwitchOp
activated = record {
  from = some first;
  to = record { number = some 2; email = "b" };
  warnings = [];
}

direct_activate-activated :
    (direct_activate tree_runtime 2 "b" two_accounts
      (some first)
      true
      (some 1)
      false
      (first_live [])).0
    ≡ ok activated
unfolding direct_activate ◌>>=◌ read_account_credentials read_account_config oauth_section
    read_active read_config_text write_unclaimed write_active write_config_text write_sequence
direct_activate-activated = refl

direct_activate-preserves_example : Accounted tree_runtime 2 "b" (login "a1" "ra") false [] (
    vault tree_runtime
      (direct_activate tree_runtime 2 "b" two_accounts
        (some first)
        true
        (some 1)
        false
        (first_live [])).1)
direct_activate-preserves_example =
    direct_activate-preserves tree_runtime 2 "b" (login "a1" "ra") two_accounts (some first)
      (some 1) false (first_live []) refl refl refl activated direct_activate-activated
