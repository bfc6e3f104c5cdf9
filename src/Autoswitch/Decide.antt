-- ===== src/Autoswitch/Decide.antt =====
-- The trigger of a tick and the engine's memory between ticks (internal/autoswitch/tick.go, the part
-- of tickInner that weighs the active account). The log line of a hold that ended is left out.
pub mod Failover
use cswap.Base.{
  String, ℕ, suc, ◌≡◌, Bool, true, false, not, ◌&&◌, Option, none, some, if◌then◌else◌, ltb,
}
use cswap.Numbers.{Numbers}
use cswap.Autoswitch.{Settings, Trigger, proactive, at_limit, failover}

-- What the tick goes on with: it stops with a NoSwitchEvent of this reason, or it has a trigger.
pub data Verdict : Type 0 where
  stop : String → Verdict
  act : Trigger → Verdict

module _ (N : Numbers) where
  open N use {Num, less, sub, ratio}

  pub record Memory : Type 0 where
    pub unhealthy_ticks : ℕ
    pub idle_hold_since : Option Num
    pub idle_hold_slow : Bool

  -- A fresh engine's.
  abbrev pub fresh_memory : Memory
  fresh_memory = record { unhealthy_ticks = 0; idle_hold_since = none; idle_hold_slow = false }

  -- The active account's headroom is known.
  known_trigger : Settings N → Num → Verdict
  known_trigger s h =
      if less (sub (ratio 100 1) h) s.threshold
      then stop "below-threshold"
      else if less (ratio 0 1) h
      then act proactive
      else act at_limit

  hold_start : Num → Option Num → Num
  hold_start now none = now
  hold_start now (some t) = t

  -- One more tick without a known headroom.
  count_unhealthy : Settings N → Memory → Memory × Verdict
  count_unhealthy s m =
      let n = suc m.unhealthy_ticks in
      (
        record m { unhealthy_ticks = n },
        if ltb n s.unhealthy_ticks then stop "active-usage-unknown" else act failover,
      )

  -- It is unknown, and the token may be expired.
  unknown_trigger : Settings N → Num → Bool → Memory → Memory × Verdict
  unfolding hold_start count_unhealthy
  unknown_trigger s now expired m =
      let since = hold_start now m.idle_hold_since in
      let held = record m { idle_hold_since = some since } in
      if expired
      then if not (less (ratio 1800 1) (sub now since))
        then (record held { unhealthy_ticks = 0; idle_hold_slow = true }, stop "active-idle")
        else count_unhealthy s held
      else count_unhealthy s (record m { idle_hold_since = none })

  -- The tick's own flag is cleared at its start.
  unfoldable pub decide : Settings N → Num → Option Num → Bool → Memory → Memory × Verdict
  unfolding known_trigger unknown_trigger
  decide s now none expired m = unknown_trigger s now expired (record m { idle_hold_slow = false })
  decide s now (some h) expired m = (
    record m { unhealthy_ticks = 0; idle_hold_since = none; idle_hold_slow = false },
    known_trigger s h,
  )

  -- inCooldown, for the state file's lastSwitchAt.
  unfoldable pub in_cooldown : Settings N → Num → Option Num → Bool
  in_cooldown s now none = false
  in_cooldown s now (some last) = less (sub now last) s.cooldown_seconds

  -- With a proactive trigger, the tick stops in the cooldown.
  unfoldable pub gate : Settings N → Num → Option Num → Verdict → Verdict
  unfolding in_cooldown
  gate s now last (stop reason) = stop reason
  gate s now last (act proactive) =
      if in_cooldown s now last then stop "cooldown" else act proactive
  gate s now last (act at_limit) = act at_limit
  gate s now last (act failover) = act failover
