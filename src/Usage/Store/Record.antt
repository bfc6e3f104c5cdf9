-- ===== src/Usage/Store/Record.antt =====
-- Merging fetch outcomes and plans into the usage table, and the failure backoff
-- (internal/usage/store.go: Record, SetPollPlan, ClearDeadToken, failureBackoffS). The maps that
-- the operations take are a list of keys, in the order of the iteration, with a function.
pub mod Guard
pub mod Backoff
use cswap.Base.{
  String, ℕ, zero, suc, ◌*◌, ◌-◌, ◌+◌, Bool, true, false, not, ◌&&◌, Option, none, some, List, [],
  ◌∷◌, if◌then◌else◌, str_eq, keep,
}
use cswap.Numbers.{Numbers}
use cswap.Numbers.Order.{max, min}
use cswap.Usage.{RawUsage}
use cswap.Usage.Store.{Row, Rows, Identity, Luck, mutate}

-- 2 ^ n
power : ℕ → ℕ
power zero = 1
power (suc n) = 2 * power n

module _ (N : Numbers) where
  open N use {Num, less, add, ratio}

  pub record FetchRecord : Type 0 where
    pub usage : Option (RawUsage N)
    pub error : String
    pub retry_after : Option Num
    pub sentinel : String

  pub record PollPlan : Type 0 where
    pub next_poll_at : Option Num
    pub interval : Option Num

  -- BackoffBaseS times a power of two, which float64 holds exactly or as a number above the cap.
  computed_backoff : ℕ → Num
  unfolding min power
  computed_backoff failures = min N (ratio (30 * power (failures - 1)) 1) (ratio 600 1)

  is_zero : Num → Bool
  is_zero a = not (less a (ratio 0 1)) && not (less (ratio 0 1) a)

  -- failureBackoffS
  unfoldable pub failure_backoff : ℕ → Option Num → Num
  unfolding computed_backoff is_zero max min
  failure_backoff failures none = computed_backoff failures
  failure_backoff failures (some n) =
      if is_zero n
      then min N (max N (computed_backoff failures) (ratio 300 1)) (ratio 600 1)
      else max N (min N n (ratio 900 1)) (computed_backoff failures)

  -- What Record does to a row on a success.
  unfoldable pub succeeded : Num → FetchRecord → Row N → Row N
  succeeded now rec r = record r {
    last_attempt_at = some now;
    last_good = rec.usage;
    fetched_at = some now;
    consecutive_failures = 0;
    last_error = none;
    backoff_until = none;
    auth_dead_strikes = 0;
  }

  -- And on a failure.
  unfoldable pub failed : Num → FetchRecord → Row N → Row N
  unfolding failure_backoff
  failed now rec r = record r {
    last_attempt_at = some now;
    consecutive_failures = r.consecutive_failures + 1;
    last_error = some rec.error;
    last_429_at = if str_eq rec.error "http-429" then some now else r.last_429_at;
    backoff_until = some (add now (failure_backoff (r.consecutive_failures + 1) rec.retry_after));
    auth_dead_strikes =
        if str_eq rec.error "invalid_grant" then r.auth_dead_strikes + 1 else r.auth_dead_strikes;
  }

  unfoldable pub merged : Num → FetchRecord → Row N → Row N
  unfolding succeeded failed
  merged now rec r = if str_eq rec.error "" then succeeded now rec r else failed now rec r

  -- Record
  unfoldable pub record_outcomes :
      Luck
      → Num
      → List String
      → (String → FetchRecord)
      → (String → Identity)
      → Rows N
      → Bool × Rows N
  unfolding mutate merged
  record_outcomes luck now nums outcomes ids rows =
      elim (keep (λ n. str_eq (outcomes n).sentinel "") nums) [
        | [] ↦ (true, rows)
        | n ∷ ns ↦ mutate N luck ids (n ∷ ns) (λ k r. merged now (outcomes k) r) rows
      ]

  planned : PollPlan → Row N → Row N
  planned p r = record r { next_poll_at = p.next_poll_at; poll_interval = p.interval }

  -- SetPollPlan
  unfoldable pub set_poll_plan :
      Luck → List String → (String → PollPlan) → (String → Identity) → Rows N → Bool × Rows N
  unfolding mutate planned
  set_poll_plan luck [] plans ids rows = (true, rows)
  set_poll_plan luck (n ∷ ns) plans ids rows =
      mutate N luck ids (n ∷ ns) (λ k r. planned (plans k) r) rows

  unfoldable pub revived : Row N → Row N
  revived r = record r {
    auth_dead_strikes = 0;
    consecutive_failures = 0;
    last_error = none;
    backoff_until = none;
  }

  -- ClearDeadToken
  unfoldable pub clear_dead_token :
      Luck → List String → (String → Identity) → Rows N → Bool × Rows N
  unfolding mutate revived
  clear_dead_token luck [] ids rows = (true, rows)
  clear_dead_token luck (n ∷ ns) ids rows = mutate N luck ids (n ∷ ns) (λ k r. revived r) rows
