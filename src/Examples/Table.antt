-- ===== src/Examples/Table.antt =====
-- A usage table with one account, its polls, and a failed fetch.
use cswap.Base.{String, ◌≡◌, refl, true, false, none, some, [], ◌∷◌, inl, if◌then◌else◌, str_eq}
use cswap.Numbers.Order.{AtMost}
use cswap.Examples.Numerals.{naturals}
use cswap.Examples.Windows.{raw}
use cswap.Usage.Entry.{by_usage, decision_value, claim_holds}
use cswap.Usage.Store.Rows.{mutate_pointwise}
use cswap.Usage.Store.{mutate, Row, Rows, Identity, text, matches, reserve, entries}
use cswap.Usage.Store.Reserve.{Won, reserve-once}
use cswap.Usage.Store.Record.{FetchRecord, failure_backoff}
use cswap.Usage.Store.Record.Guard.{
  lucky, recorded, record_outcomes-decision_value, record_outcomes-stale,
}
use cswap.Usage.Store.Record.Backoff.{failure_backoff-InBounds}

abbrev one : Identity
one = record { email = "a@x"; org_uuid = "" }

abbrev ids : String → Identity
ids k = one

abbrev row : Row naturals
row = record {
  email = some "a@x";
  organization_uuid = text "";
  last_good = some raw;
  fetched_at = some 1000;
  last_attempt_at = none;
  consecutive_failures = 1;
  last_error = none;
  backoff_until = none;
  next_poll_at = none;
  poll_interval = none;
  last_429_at = none;
  auth_dead_strikes = 0;
}

abbrev table : Rows naturals
table k = if str_eq k "1" then some row else none

abbrev fetched : String → FetchRecord naturals
fetched k = record { usage = some raw; error = ""; retry_after = none; sentinel = "" }

abbrev refused_fetch : String → FetchRecord naturals
refused_fetch k = record { usage = none; error = "http-429"; retry_after = some 0; sentinel = "" }

reserve-Won : Won naturals (reserve naturals (lucky naturals) 2000 true ids ("1" ∷ []) table).0 "1"
unfolding reserve
reserve-Won = inl refl

reserve-once_example :
    Won naturals
      (reserve naturals
        (lucky naturals)
        2009
        false
        ids
        ("1" ∷ [])
        (reserve naturals (lucky naturals) 2000 true ids ("1" ∷ []) table).1).0
      "1"
    → ⊥
unfolding claim_holds
reserve-once_example =
    reserve-once naturals (lucky naturals) (lucky naturals) 2000 2009 true false ids ("1" ∷ [])
      ("1" ∷ []) table "1" reserve-Won refl

record_outcomes-decision_value_example :
    decision_value naturals
      (entries naturals 2200 (recorded naturals 2000 ("1" ∷ []) fetched ids table) ids "1")
    ≡ by_usage raw
record_outcomes-decision_value_example =
    record_outcomes-decision_value naturals 2000 ("1" ∷ []) fetched ids table "1" (tt, tt)
      (inl refl) refl raw 2200 refl refl refl

record_outcomes-stale_example :
    (decision_value naturals
        (entries naturals 2200 (recorded naturals 2000 ("1" ∷ []) refused_fetch ids table) ids "1")
      ≡ by_usage raw)
unfolding matches
record_outcomes-stale_example =
    (record_outcomes-stale naturals 2000 ("1" ∷ []) refused_fetch ids table "1" (tt, tt) (inl refl)
        refl row raw 1000 2200 true refl refl refl refl refl).0
      refl

failure_backoff-InBounds_example : AtMost naturals 30 (failure_backoff naturals 4 (some 0))
failure_backoff-InBounds_example = (failure_backoff-InBounds naturals 4 (some 0)).0

mutate_pointwise_example :
    ((mutate naturals (lucky naturals) ids ("1" ∷ "2" ∷ []) (λ n r. row) table).0 ≡ true)
    × ((mutate naturals (lucky naturals) ids ("1" ∷ "2" ∷ []) (λ n r. row) table).1 "2" ≡ some row)
mutate_pointwise_example =
    mutate_pointwise naturals (lucky naturals) ids ("1" ∷ "2" ∷ []) (λ n r. row) table "2"
      ((refl, tt), (tt, tt))
