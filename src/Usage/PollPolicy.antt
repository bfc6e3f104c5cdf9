-- ===== src/Usage/PollPolicy.antt =====
-- The adaptive polling cadence (internal/usage/pollpolicy.go): the decision windows on the
-- normalized map itself, and the next poll after a fetch. `random` is the one value that
-- PlanAfterFetch draws.
pub mod Equivalence
pub mod Plan
pub mod Resets
pub mod Scans
use cswap.Base.{
  String, ℕ, Bool, true, false, not, ◌&&◌, ◌||◌, Option, none, some, List, [], ◌∷◌, ◌++◌,
  if◌then◌else◌, str_eq,
}
use cswap.Numbers.{Numbers}
use cswap.Numbers.Order.{max, min}
use cswap.Usage.{RawWindow, RawUsage, RelevantWindow, parse_reset_ts, later_of, max_pct}

module _ (N : Numbers) where
  open N use {Num, less, add, sub, mul, ratio, to_lower}

  -- One of the loop's two fixed windows.
  raw_labelled : String → Option (RawWindow N) → List (RelevantWindow N)
  raw_labelled label none = []
  raw_labelled label (some w) = elim w.pct [
    | none ↦ []
    | some p ↦ record { label = label; pct = p; resets_at = w.resets_at } ∷ []
  ]

  match_all : List String → Bool
  match_all [] = false
  match_all (m ∷ ms) = str_eq (to_lower m) "all" || match_all ms

  is_wanted : List String → String → Bool
  is_wanted [] key = false
  is_wanted (m ∷ ms) key = str_eq (to_lower m) key || is_wanted ms key

  raw_scoped_one : List String → Option (RawWindow N) → List (RelevantWindow N)
  unfolding match_all is_wanted
  raw_scoped_one models none = []
  raw_scoped_one models (some w) = elim w.pct [
    | none ↦ []
    | some p ↦ elim w.name [
      | none ↦ []
      | some n ↦
          if match_all models || is_wanted models (to_lower n)
          then record { label = n; pct = p; resets_at = w.resets_at } ∷ []
          else []
    ]
  ]

  raw_scoped : List String → List (Option (RawWindow N)) → List (RelevantWindow N)
  unfolding raw_scoped_one
  raw_scoped models [] = []
  raw_scoped models (w ∷ ws) = raw_scoped_one models w ++ raw_scoped models ws

  -- relevantWindows
  unfoldable pub raw_windows : List String → Option (RawUsage N) → List (RelevantWindow N)
  unfolding raw_labelled raw_scoped
  raw_windows models none = []
  raw_windows models (some u) =
      raw_labelled "5h" u.five_hour ++ (raw_labelled "7d" u.seven_day ++ raw_scoped models u.scoped)

  raw_headroom_from : List (RelevantWindow N) → Option Num
  unfolding max_pct
  raw_headroom_from [] = none
  raw_headroom_from (w ∷ ws) = some (sub (ratio 100 1) (max_pct N w.pct ws))

  -- accountHeadroom
  unfoldable pub raw_headroom : List String → Option (RawUsage N) → Option Num
  unfolding raw_headroom_from raw_windows
  raw_headroom models u = raw_headroom_from (raw_windows models u)

  -- bindingPct
  pub binding_pct : List String → Option (RawUsage N) → Option Num
  unfolding raw_headroom
  binding_pct models u = elim (raw_headroom models u) [
    | none ↦ none
    | some h ↦ some (sub (ratio 100 1) h)
  ]

  pub latest_full : Option Num → List (RelevantWindow N) → Option Num
  unfolding later_of parse_reset_ts
  latest_full latest [] = latest
  latest_full latest (w ∷ ws) =
      latest_full
        (if less w.pct (ratio 100 1) then latest else elim (parse_reset_ts N w.resets_at) [
          | none ↦ latest
          | some t ↦ some (later_of N latest t)
        ])
        ws

  -- limitingResetTS
  unfoldable pub raw_limiting_reset : List String → Option (RawUsage N) → Option Num
  unfolding latest_full raw_windows
  raw_limiting_reset models u = latest_full none (raw_windows models u)

  earlier_of : Num → Option Num → Num → Option Num
  earlier_of now earliest t =
      if less now t
      then elim earliest [ none ↦ some t | some e ↦ if less t e then some t else some e ]
      else earliest

  pub earliest_ahead : Num → Option Num → List (RelevantWindow N) → Option Num
  unfolding earlier_of parse_reset_ts
  earliest_ahead now earliest [] = earliest
  earliest_ahead now earliest (w ∷ ws) =
      earliest_ahead now
        (elim (parse_reset_ts N w.resets_at) [
          | none ↦ earliest
          | some t ↦ earlier_of now earliest t
        ])
        ws

  -- earliestFutureResetTS
  pub earliest_future_reset : Num → List String → Option (RawUsage N) → Option Num
  unfolding earliest_ahead raw_windows
  earliest_future_reset now models u = earliest_ahead now none (raw_windows models u)

  pub record PlanInput : Type 0 where
    pub prev_interval : Option Num
    pub prev_usage : Option (RawUsage N)
    pub new_usage : Option (RawUsage N)
    pub is_active : Bool
    pub threshold : Num
    pub models : List String
    pub recent_429 : Bool
    pub now : Num

  default_interval : Bool → Num
  default_interval active = if active then ratio 180 1 else ratio 300 1

  ceiling : Bool → Num
  ceiling active = if active then ratio 300 1 else ratio 600 1

  is_zero : Num → Bool
  is_zero a = not (less a (ratio 0 1)) && not (less (ratio 0 1) a)

  base_interval : PlanInput → Num
  unfolding default_interval is_zero
  base_interval i = elim i.prev_interval [
    | none ↦ default_interval i.is_active
    | some p ↦ if is_zero p then default_interval i.is_active else p
  ]

  abs : Num → Num
  abs a = if less a (ratio 0 1) then sub (ratio 0 1) a else a

  -- The binding percentages differ by at least MovementDeltaPct.
  pub moving : Option Num → Option Num → Bool
  unfolding abs
  moving none q = false
  moving (some p) none = false
  moving (some p) (some q) = not (less (abs (sub q p)) (ratio 1 1))

  stepped : PlanInput → Option Num → Option Num → Num
  unfolding default_interval ceiling base_interval abs max min
  stepped i none q = default_interval i.is_active
  stepped i (some p) none = default_interval i.is_active
  stepped i (some p) (some q) =
      if not (less (abs (sub q p)) (ratio 1 1))
      then max N (ratio 180 1) (mul (base_interval i) (ratio 1 2))
      else min N (ceiling i.is_active) (max N (ratio 180 1) (mul (base_interval i) (ratio 3 2)))

  near_limit : Option Num → Num → Bool
  near_limit none threshold = false
  near_limit (some p) threshold = not (less p (sub threshold (ratio 15 1)))

  urgent : PlanInput → Option Num → Option Num → Bool
  unfolding moving near_limit
  urgent i p q = i.is_active && (moving p q && (not i.recent_429 && near_limit q i.threshold))

  floored : Bool → Num → Num
  unfolding max
  floored recent interval = if recent then max N interval (ratio 360 1) else interval

  -- The interval that PlanAfterFetch settles on.
  unfoldable pub interval_of : PlanInput → Num
  unfolding stepped urgent floored binding_pct
  interval_of i =
      let p = binding_pct i.models i.prev_usage in
      let q = binding_pct i.models i.new_usage in
      floored i.recent_429 (if urgent i p q then ratio 60 1 else stepped i p q)

  jittered : PlanInput → Num → Num → Num
  jittered i random interval =
      add i.now (
        mul interval
          (add (ratio 1 1) (mul (ratio 1 10) (sub (mul (ratio 2 1) random) (ratio 1 1)))))

  unfoldable pub at_limit : Option Num → Bool
  at_limit none = false
  at_limit (some h) = not (less (ratio 0 1) h)

  not_before : Num → Option Num → Num
  not_before next none = next
  not_before next (some t) = if less next t then t else next

  not_after : Num → Option Num → Num
  unfolding min
  not_after next none = next
  not_after next (some t) = min N next (add t (ratio 60 1))

  -- PlanAfterFetch
  unfoldable pub plan_after_fetch : Num → PlanInput → Num × Num
  unfolding interval_of jittered at_limit not_before not_after raw_headroom raw_limiting_reset
      earliest_future_reset
  plan_after_fetch random i =
      let interval = interval_of i in
      let next = jittered i random interval in
      if at_limit (raw_headroom i.models i.new_usage)
      then (not_before next (raw_limiting_reset i.models i.new_usage), interval)
      else (not_after next (earliest_future_reset i.now i.models i.new_usage), interval)
