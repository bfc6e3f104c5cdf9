-- ===== src/Switching/Perform.antt =====
-- performSwitch of internal/switching/perform.go, from the point where it holds the locks.
pub mod Preserves
use cswap.Base.{ℕ, String, Bool, true, false, Option, none, some, if◌then◌else◌}
use cswap.Runtime.{Runtime}
use cswap.Roster.{Account, SequenceData, record_for, find_account_slot}
use cswap.Files.{nil_dereference, account_not_found, Exec, lenient, ◌>>=◌, read_sequence}
use cswap.Files.Active.{get_current_account}
use cswap.Switching.Provenance.{Provenance}
use cswap.Switching.Shared.{SwitchOp, or_fail}
use cswap.Switching.Normal.{normal_switch}
use cswap.Switching.Direct.{direct_activate}

module _ (R : Runtime) where
  open R use {
    Text, text_eq, blank, Value, Object, get, put, as_object, of_object, is_empty, unmarshal,
  }

  email_of : Option Account → String
  email_of none = ""
  email_of (some rec) = rec.email

  -- Which path: a forced switch, no live login, or one that no slot owns is a direct activation.
  pub route :
      ℕ → String → Bool → Provenance R → SequenceData → Option (String × String) → Exec R SwitchOp
  unfolding direct_activate normal_switch
  route target target_email force prov sd none =
      direct_activate R target target_email sd none false sd.active_account_number force
  route target target_email force prov sd (some (email, org)) =
      elim (find_account_slot (some sd) email org) [
        | none ↦
            direct_activate R target target_email sd
              (some (record { number = none; email = email })) true none force
        | some current ↦
            if force
            then direct_activate R target target_email sd
                (some (record { number = some current; email = email })) true (some current) true
            else normal_switch R target target_email current email prov sd
      ]

  -- performSwitch, from the point where it holds the locks.
  unfoldable pub perform_switch : ℕ → Bool → Provenance R → Exec R SwitchOp
  unfolding route or_fail email_of
  perform_switch target force prov = do
    found ← read_sequence R
    sd ← or_fail R found nil_dereference
    rec ← or_fail R (record_for (some sd) target) account_not_found
    live ← lenient R (get_current_account R)
    route target (email_of (some rec)) force prov sd live
