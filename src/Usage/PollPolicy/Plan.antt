-- ===== src/Usage/PollPolicy/Plan.antt =====
-- The bounds of a plan's interval.
use cswap.Base.{
  ℕ, ltb, ◌≡◌, refl, Bool, true, false, Option, none, some, if◌then◌else◌, Bool-cases, inl, inr,
}
use cswap.Numbers.{Numbers}
use cswap.Numbers.Order.{max, min, AtMost, AtMost-refl, AtMost-trans, max_upper, min_greatest}
use cswap.Usage.PollPolicy.{
  PlanInput, default_interval, ceiling, stepped, urgent, floored, binding_pct, interval_of,
  at_limit, raw_headroom, plan_after_fetch,
}

module _ (N : Numbers) where
  open N use {Num, less, add, ratio, ratio_monotone}

  -- The interval is at least `n` seconds.
  abbrev AtLeast : ℕ → Num → Type 0
  AtLeast n a = AtMost N (ratio n 1) a

  AtLeast-ltb : (m n : ℕ) (a : Num) → ltb n m ≡ false → AtLeast n a → AtLeast m a
  AtLeast-ltb m n a e h = AtMost-trans N (ratio m 1) (ratio n 1) a (ratio_monotone m n e) h

  upper_of : (a b : Num) → AtLeast 180 a → AtLeast 180 (max N a b)
  upper_of a b h = AtMost-trans N (ratio 180 1) a _ h (max_upper N a b).0

  default_interval-AtLeast : (active : Bool) → AtLeast 180 (default_interval N active)
  unfolding default_interval
  default_interval-AtLeast true = AtMost-refl N (ratio 180 1)
  default_interval-AtLeast false = ratio_monotone 180 300 refl

  ceiling-AtLeast : (active : Bool) → AtLeast 180 (ceiling N active)
  unfolding ceiling
  ceiling-AtLeast true = ratio_monotone 180 300 refl
  ceiling-AtLeast false = ratio_monotone 180 600 refl

  stepped-AtLeast : (i : PlanInput N) (p q : Option Num) → AtLeast 180 (stepped N i p q)
  unfolding stepped
  stepped-AtLeast i none q = default_interval-AtLeast i.is_active
  stepped-AtLeast i (some p) none = default_interval-AtLeast i.is_active
  stepped-AtLeast i (some p) (some q) = either _ _ _
    where
      either :
          (a b : Num) (c : Bool)
          → AtLeast 180 (
              if c
              then max N (ratio 180 1) a
              else min N (ceiling N i.is_active) (max N (ratio 180 1) b))
      either a b true = upper_of (ratio 180 1) _ (AtMost-refl N (ratio 180 1))
      either a b false =
          min_greatest N (ceiling N i.is_active) (max N (ratio 180 1) b) (ratio 180 1)
            (ceiling-AtLeast i.is_active) (upper_of (ratio 180 1) b (AtMost-refl N (ratio 180 1)))

  floored-AtLeast : (n : ℕ) (recent : Bool) (a : Num) → AtLeast n a → AtLeast n (floored N recent a)
  unfolding floored
  floored-AtLeast n true a h = AtMost-trans N (ratio n 1) a _ h (max_upper N a (ratio 360 1)).0
  floored-AtLeast n false a h = h

  floored_recent : (a : Num) → AtLeast 360 (floored N true a)
  unfolding floored
  floored_recent a = (max_upper N a (ratio 360 1)).1

  interval_of-60 : (i : PlanInput N) → AtLeast 60 (interval_of N i)
  unfolding interval_of
  interval_of-60 i = floored-AtLeast 60 i.recent_429 _ (either _ _ _)
    where
      either :
          (p q : Option Num) (u : Bool) → AtLeast 60 (if u then ratio 60 1 else stepped N i p q)
      either p q true = AtMost-refl N (ratio 60 1)
      either p q false = AtLeast-ltb 60 180 _ refl (stepped-AtLeast i p q)

  urgent_inactive :
      (i : PlanInput N) (p q : Option Num) → i.is_active ≡ false → urgent N i p q ≡ false
  unfolding urgent
  urgent_inactive i p q h = simp h

  interval_of-candidate : (i : PlanInput N) → i.is_active ≡ false → AtLeast 180 (interval_of N i)
  unfolding interval_of
  interval_of-candidate i h =
      let p = binding_pct N i.models i.prev_usage in
      let q = binding_pct N i.models i.new_usage in
      rw (urgent_inactive i p q h)
        (floored-AtLeast 180 i.recent_429 (stepped N i p q) (stepped-AtLeast i p q))

  interval_of-recent : (i : PlanInput N) → i.recent_429 ≡ true → AtLeast 360 (interval_of N i)
  unfolding interval_of
  interval_of-recent i h = rw h (floored_recent _)

  plan-interval_of :
      (random : Num) (i : PlanInput N) → (plan_after_fetch N random i).1 ≡ interval_of N i
  unfolding plan_after_fetch
  plan-interval_of random i = elim (Bool-cases (at_limit N (raw_headroom N i.models i.new_usage))) [
    | inl e ↦ rw e refl
    | inr e ↦ rw e refl
  ]

  -- The interval that a plan returns, which is before the jitter of the next poll and before its cap
  -- at a reset, is at least 60 seconds; for an account that is not active it is at least 180 seconds,
  -- and after a recent 429 at least 360.
  pub plan_after_fetch-AtLeast :
      (random : Num) (i : PlanInput N)
      → AtLeast 60 (plan_after_fetch N random i).1
        × (i.is_active ≡ false → AtLeast 180 (plan_after_fetch N random i).1)
        × (i.recent_429 ≡ true → AtLeast 360 (plan_after_fetch N random i).1)
  plan_after_fetch-AtLeast random i =
      rw (plan-interval_of random i)
        (interval_of-60 i, interval_of-candidate i, interval_of-recent i)
