-- ===== src/Usage/Store/Record/Guard.antt =====
-- What a recorded outcome leaves in the table, and what the entries then decide on.
use cswap.Base.{
  String, ◌+◌, ◌≡◌, refl, ap, ◌∙◌, Bool, true, false, ◌||◌, some, List, [], ◌∷◌, if◌then◌else◌, Any,
  Any-keep, keep, str_eq, str_eq_iff, leb, arith,
}
use cswap.Numbers.{Numbers}
use cswap.Usage.{RawUsage}
use cswap.Usage.Entry.{by_usage, trusted, decision_value, ahead}
use cswap.Usage.Store.{
  Row, Rows, Identity, Luck, matches, guarded, mutate, change_rows, entries, entry_of, refused,
  row_eligible,
}
use cswap.Usage.Store.Rows.{Distinct, Distinct-keep, change_rows_at, guarded-matches}
use cswap.Usage.Store.Record.{
  FetchRecord, failure_backoff, succeeded, failed, merged, record_outcomes,
}

module _ (N : Numbers) where
  open N use {Num, less, add, sub, ratio}

  -- A pass that takes the lock and writes.
  abbrev pub lucky : Luck
  lucky = record { locked = true; written = true }

  served :
      (t now : Num) (rec : FetchRecord N) (u : RawUsage N) (r : Row N) (id : Identity)
      → matches N (some r) id ≡ true
      → str_eq rec.error "" ≡ true
      → rec.usage ≡ some u
      → less (ratio 300 1) (sub t now) ≡ false
      → decision_value N (entry_of N t (some (merged N now rec r)) id) ≡ by_usage u
  unfolding decision_value entry_of merged succeeded matches trusted
  served t now rec u r id m e us young = simp (e, m, us, young)

  stale_served :
      (t now f : Num) (rec : FetchRecord N) (u : RawUsage N) (r : Row N) (id : Identity)
      → matches N (some r) id ≡ true
      → str_eq rec.error "" ≡ false
      → r.last_good ≡ some u
      → r.fetched_at ≡ some f
      → less (ratio 3600 1) (sub t f) ≡ false
      → decision_value N (entry_of N t (some (merged N now rec r)) id) ≡ by_usage u
  unfolding decision_value entry_of merged failed matches trusted
  stale_served t now f rec u r id m e g h young = simp (e, m, g, h, young, counted, or_true)
    where
      or_true : (b : Bool) → b || true ≡ true
      or_true true = refl
      or_true false = refl

      counted : leb 1 (r.consecutive_failures + 1) ≡ true
      counted = ground arith

  row_eligible_backoff :
      (r : Row N) (t b : Num) (plans : Bool)
      → r.backoff_until ≡ some b
      → less t b ≡ true
      → row_eligible N r t plans ≡ false
  unfolding row_eligible ahead
  row_eligible_backoff r t b plans e h = rw (e, h) (go _)
    where
      go : (c : Bool) → (if c then false else false) ≡ false
      go true = refl
      go false = refl

  backed_off :
      (t now : Num) (rec : FetchRecord N) (r : Row N) (id : Identity) (plans : Bool)
      → matches N (some r) id ≡ true
      → str_eq rec.error "" ≡ false
      → less t (add now (failure_backoff N (r.consecutive_failures + 1) rec.retry_after)) ≡ true
      → refused N (some (merged N now rec r)) id t plans ≡ true
  unfolding refused merged failed matches
  backed_off t now rec r id plans m e soon =
      let off : row_eligible N (failed N now rec r) t plans ≡ false =
        row_eligible_backoff (failed N now rec r) t _ plans refl soon in
      simp (e, m, off)

  module _ (now : Num) (nums : List String) (outcomes : String → FetchRecord N)
      (ids : String → Identity) (rows : Rows N) where
    -- The table after Record.
    abbrev pub recorded : Rows N
    recorded = (record_outcomes N lucky now nums outcomes ids rows).1

    recorded-change_rows :
        recorded
        ≡ change_rows N
            (λ k r. merged N now (outcomes k) r)
            ids
            (keep (λ n. str_eq (outcomes n).sentinel "") nums)
            rows
    unfolding record_outcomes mutate change_rows
    recorded-change_rows = go (keep (λ n. str_eq (outcomes n).sentinel "") nums)
      where
        go :
            (ns : List String)
            → (elim ns as (λ x. Bool × Rows N) [
              | [] ↦ (true, rows)
              | n ∷ ns ↦ mutate N lucky ids (n ∷ ns) (λ k r. merged N now (outcomes k) r) rows
            ]).1
              ≡ change_rows N (λ k r. merged N now (outcomes k) r) ids ns rows
        go [] = refl
        go (n ∷ ns) = refl

    -- The row of a slot with an outcome that is no sentinel.
    pub recorded_at :
        (num : String)
        → Distinct nums
        → Any (λ c. c ≡ num) nums
        → (outcomes num).sentinel ≡ ""
        → recorded num ≡ some (merged N now (outcomes num) (guarded N (rows num) (ids num)))
    recorded_at num d a s =
        ap (λ t. t num) recorded-change_rows
        ∙ change_rows_at N (λ k r. merged N now (outcomes k) r) ids
            (keep (λ n. str_eq (outcomes n).sentinel "") nums) rows num
            (Distinct-keep (λ n. str_eq (outcomes n).sentinel "") nums d)
            (Any-keep (λ n. str_eq (outcomes n).sentinel "") (λ c. c ≡ num) nums
              (λ c e. rw e ((str_eq_iff (outcomes num).sentinel "").1 s)) a)

    module _ (num : String) (d : Distinct nums) (a : Any (λ c. c ≡ num) nums)
        (s : (outcomes num).sentinel ≡ "") where
      -- After a recorded success, the account's decision value is the recorded usage for 300 seconds.
      pub record_outcomes-decision_value :
          (u : RawUsage N) (t : Num)
          → str_eq (outcomes num).error "" ≡ true
          → (outcomes num).usage ≡ some u
          → less (ratio 300 1) (sub t now) ≡ false
          → decision_value N (entries N t recorded ids num) ≡ by_usage u
      unfolding entries
      record_outcomes-decision_value u t e us young =
          ap (λ o. decision_value N (entry_of N t o (ids num))) (recorded_at num d a s)
          ∙ served t now (outcomes num) u (guarded N (rows num) (ids num)) (ids num)
              (guarded-matches N (rows num) (ids num)) e us young

      -- After a recorded failure, the account's decision value stays the usage of its last success,
      -- for an hour from that success, and its slot is refused to Reserve for the failure backoff.
      pub record_outcomes-stale :
          (r : Row N) (u : RawUsage N) (f t : Num) (plans : Bool)
          → str_eq (outcomes num).error "" ≡ false
          → rows num ≡ some r
          → matches N (some r) (ids num) ≡ true
          → r.last_good ≡ some u
          → r.fetched_at ≡ some f
          → (less (ratio 3600 1) (sub t f) ≡ false
              → decision_value N (entries N t recorded ids num) ≡ by_usage u)
            × (less t (
                    add now
                      (failure_backoff N (r.consecutive_failures + 1) (outcomes num).retry_after))
                  ≡ true
                → refused N (recorded num) (ids num) t plans ≡ true)
      unfolding entries guarded
      record_outcomes-stale r u f t plans e o m g h =
          let at : recorded num ≡ some (merged N now (outcomes num) r) =
            rw (o, m) at (recorded_at num d a s) in
          (
            λ young.
                ap (λ o. decision_value N (entry_of N t o (ids num))) at
                ∙ stale_served t now f (outcomes num) u r (ids num) m e g h young,
            λ soon.
                ap (λ o. refused N o (ids num) t plans) at
                ∙ backed_off t now (outcomes num) r (ids num) plans m e soon,
          )
