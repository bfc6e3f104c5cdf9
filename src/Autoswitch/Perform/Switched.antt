-- ===== src/Autoswitch/Perform/Switched.antt =====
-- What a tick that reports a switch has done, and that a dry run does nothing.
use cswap.Base.{String, ◌≡◌, refl, true, false, some, List, ◌∷◌}
use cswap.Numbers.{Numbers}
use cswap.Autoswitch.{Settings, Trigger, switched}
use cswap.Autoswitch.Engine.{Switcher, Machine, Event, SwitchPayload, switch_event}
use cswap.Autoswitch.Perform.{Result, report_dry, perform, try_targets}

module _ (N : Numbers) (S : Switcher N) (s : Settings N) (trigger : Trigger) where
  -- Under the state lock, SwitchTo was called for the slot and its payload says that it switched;
  -- what came after the call is the write of the state file, which names the slot and the time; and
  -- the newest event carries the accounts and the warnings of that payload.
  pub record SwitchedTo (r : Result N S s) (num : String) : Type 0 where
    pub unlocked : S.World
    pub payload : SwitchPayload
    pub locked : (S.take_lock unlocked).0 ≡ true
    pub called : (S.switch_to num (S.take_lock unlocked).1).0 ≡ some payload
    pub did_switch : payload.switched ≡ true
    pub wrote : r.1.world ≡ (S.write_file (S.switch_to num (S.take_lock unlocked).1).1).1
    pub named : r.1.file.last_switch_to ≡ some num
    pub timed :
        r.1.file.last_switch_at ≡ some (S.now_seconds (S.switch_to num (S.take_lock unlocked).1).1)
    pub older : List Event
    pub reported :
        r.1.events ≡ switch_event trigger payload.from payload.to payload.warnings false ∷ older

  -- It does so where the result is a switch.
  abbrev Reports : Result N S s → String → Type 0
  Reports r num = r.0 ≡ some switched → SwitchedTo r num

  -- What record_switch leaves behind for the slot and the payload.
  abbrev Recorded : Result N S s → String → SwitchPayload → Machine N S → Type 0
  Recorded r num p m =
      (r.1.world ≡ (S.write_file m.world).1)
      × (r.1.file.last_switch_to ≡ some num)
      × (r.1.file.last_switch_at ≡ some (S.now_seconds m.world))
      × (r.1.events ≡ switch_event trigger p.from p.to p.warnings false ∷ m.events)

  -- A dry run with a target reports the switch to the first one, and neither changes the state file
  -- nor calls anything that could change an account.
  pub try_targets_dry :
      (num : String) (nums : List String) (m : Machine N S)
      → (try_targets N S s true false trigger (num ∷ nums) m).0 ≡ some switched
        × ((try_targets N S s true false trigger (num ∷ nums) m).1
            ≡ report_dry N S s num (S.account_email m.world num) trigger m)
  unfolding try_targets perform
  try_targets_dry num nums m = (refl, refl)
