-- ===== src/Autoswitch/Recovery.antt =====
-- When the first exhausted account can be used again (internal/autoswitch/reset.go:
-- earliestRecovery). The usage map is the list of its values, `none` for one that is no usage data.
pub mod Earliest
use cswap.Base.{
  String, Bool, true, false, not, ◌||◌, Option, none, some, List, [], ◌∷◌, if◌then◌else◌,
}
use cswap.Numbers.{Numbers}
use cswap.Usage.{RawUsage, RelevantWindow, new_usage, relevant_windows, full, limiting_reset_ts}

module _ (N : Numbers) (models : List String) where
  open N use {Num, less}

  any_full : List (RelevantWindow N) → Bool
  unfolding full
  any_full [] = false
  any_full (w ∷ ws) = full N w || any_full ws

  -- The account has a relevant window of at least 100%.
  unfoldable pub is_exhausted : RawUsage N → Bool
  unfolding any_full relevant_windows new_usage
  is_exhausted u = any_full (relevant_windows N models (new_usage N u))

  unfoldable pub usable_at : RawUsage N → Option Num
  unfolding limiting_reset_ts new_usage
  usable_at u = limiting_reset_ts N models (new_usage N u)

  unfoldable pub earlier : Option Num → Num → Num
  earlier none t = t
  earlier (some e) t = if less t e then t else e

  recovery_from : Option Num → List (Option (RawUsage N)) → Option Num
  unfolding is_exhausted usable_at earlier
  recovery_from earliest [] = earliest
  recovery_from earliest (none ∷ us) = recovery_from earliest us
  recovery_from earliest (some u ∷ us) =
      let same = recovery_from earliest us in
      if is_exhausted u
      then elim (usable_at u) [
        | none ↦ none
        | some t ↦ recovery_from (some (earlier earliest t)) us
      ]
      else same

  -- earliestRecovery
  unfoldable pub earliest_recovery : List (Option (RawUsage N)) → Option Num
  unfolding recovery_from
  earliest_recovery us = recovery_from none us
