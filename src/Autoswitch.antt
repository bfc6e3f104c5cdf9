-- ===== src/Autoswitch.antt =====
-- The auto-switch engine (internal/autoswitch): its policy, its memory of earlier ticks, the choice
-- of a trigger and of targets, and the delay before the next tick.
pub mod Select
pub mod Decide
pub mod Recovery
pub mod Delay
pub mod Engine
pub mod Freshen
pub mod Perform
pub mod Collect
pub mod Tick
use cswap.Base.{String, ℕ, Bool}
use cswap.Numbers.{Numbers}

module _ (N : Numbers) where
  open N use {Num}

  -- The fields of settings.AutoSwitchSettings that the engine decides with.
  pub record Settings : Type 0 where
    pub threshold : Num
    pub hysteresis_pct : Num
    pub cooldown_seconds : Num
    pub interval_seconds : Num
    pub unhealthy_ticks : ℕ
    pub include_api_key_accounts : Bool
    pub strategy : String

-- The engine's trigger strings.
pub data Trigger : Type 0 where
  proactive : Trigger
  at_limit : Trigger
  failover : Trigger

-- TickOutcome
pub data TickOutcome : Type 0 where
  no_action : TickOutcome
  switched : TickOutcome
  blocked : TickOutcome
  error : TickOutcome
