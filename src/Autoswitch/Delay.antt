-- ===== src/Autoswitch/Delay.antt =====
-- The delay before the next tick (internal/autoswitch/loop.go: nextDelay). `random` is the one value
-- that it draws.
pub mod Bounds
use cswap.Base.{Bool, true, false, Option, none, some, if◌then◌else◌}
use cswap.Numbers.{Numbers}
use cswap.Numbers.Order.{max, min}
use cswap.Autoswitch.{TickOutcome, no_action, switched, blocked, error}

module _ (N : Numbers) where
  open N use {Num, add, sub, mul, ratio}

  -- What a tick leaves for the delay.
  pub record Waits : Type 0 where
    pub sleep_until : Option Num
    pub blocked_wait_long : Bool
    pub idle_hold_slow : Bool

  jittered : Num → Num → Num
  jittered interval random = mul interval (add (ratio 9 10) (mul (ratio 2 10) random))

  unfoldable pub blocked_delay : Num → Num → Num → Waits → Num
  unfolding jittered max min
  blocked_delay interval now random w = elim w.sleep_until [
    | some t ↦ min N (max N (sub t now) interval) (ratio 21600 1)
    | none ↦ if w.blocked_wait_long then max N interval (ratio 300 1) else jittered interval random
  ]

  -- nextDelay
  unfoldable pub next_delay : Num → Num → Num → Waits → TickOutcome → Num
  unfolding blocked_delay
  next_delay interval now random w blocked = blocked_delay interval now random w
  next_delay interval now random w no_action =
      if w.idle_hold_slow then max N interval (ratio 300 1) else jittered interval random
  next_delay interval now random w switched = jittered interval random
  next_delay interval now random w error = jittered interval random
