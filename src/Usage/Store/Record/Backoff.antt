-- ===== src/Usage/Store/Record/Backoff.antt =====
-- The bounds of the failure backoff.
use cswap.Base.{
  ℕ, zero, suc, ◌*◌, ◌-◌, ◌≤◌, ◌≡◌, Bool, true, false, Option, none, some, if◌then◌else◌, arith,
}
use cswap.Numbers.{Numbers}
use cswap.Numbers.Order.{
  max, min, AtMost, AtMost-trans, max_upper, max_least, min_lower, min_greatest,
}
use cswap.Usage.Store.Record.{power, computed_backoff, is_zero, failure_backoff}

power-ge : (n : ℕ) → 1 ≤ power n
unfolding power
power-ge zero = omega arith
power-ge (suc n) = omega (arith, power-ge n)

module _ (N : Numbers) where
  open N use {Num, ratio, ratio_monotone}

  constants : (a b : ℕ) → a ≤ b → AtMost N (ratio a 1) (ratio b 1)
  constants a b h = ratio_monotone a b (ground arith)

  computed-bounds :
      (n : ℕ)
      → AtMost N (ratio 30 1) (computed_backoff N n) × AtMost N (computed_backoff N n) (ratio 600 1)
  unfolding computed_backoff
  computed-bounds n = (
    min_greatest N (ratio (30 * power (n - 1)) 1) (ratio 600 1) (ratio 30 1)
        (constants 30 (30 * power (n - 1)) (omega (arith, power-ge (n - 1))))
        (constants 30 600 (omega arith)),
    (min_lower N (ratio (30 * power (n - 1)) 1) (ratio 600 1)).1,
  )

  -- At least 30 seconds and at most 900.
  abbrev InBounds : Num → Type 0
  InBounds a = AtMost N (ratio 30 1) a × AtMost N a (ratio 900 1)

  -- The failure backoff is at least 30 and at most 900 seconds, and at most 600 where no
  -- Retry-After is given.
  pub failure_backoff-InBounds :
      (n : ℕ) (retry_after : Option Num)
      → AtMost N (ratio 30 1) (failure_backoff N n retry_after)
        × AtMost N (failure_backoff N n retry_after) (ratio 900 1)
        × (retry_after ≡ none → AtMost N (failure_backoff N n retry_after) (ratio 600 1))
  unfolding failure_backoff
  failure_backoff-InBounds n none =
      let (low, high) = computed-bounds n in
      (
        low,
        AtMost-trans N _ (ratio 600 1) (ratio 900 1) high (constants 600 900 (omega arith)),
        λ e. high,
      )
  failure_backoff-InBounds n (some r) =
      let (low, high) = either (is_zero N r) in (low, high, λ e. cc)
    where
      half : AtMost N (computed_backoff N n) (ratio 900 1)
      half =
          AtMost-trans N _ (ratio 600 1) (ratio 900 1) (computed-bounds n).1
            (constants 600 900 (omega arith))

      raised : AtMost N (ratio 30 1) (max N (computed_backoff N n) (ratio 300 1))
      raised =
          AtMost-trans N (ratio 30 1) (computed_backoff N n) _ (computed-bounds n).0
            (max_upper N (computed_backoff N n) (ratio 300 1)).0

      either :
          (b : Bool)
          → InBounds (
              if b
              then min N (max N (computed_backoff N n) (ratio 300 1)) (ratio 600 1)
              else max N (min N r (ratio 900 1)) (computed_backoff N n))
      either true = (
        min_greatest N _ (ratio 600 1) (ratio 30 1) raised (constants 30 600 (omega arith)),
        AtMost-trans N _ (ratio 600 1) (ratio 900 1) (min_lower N _ (ratio 600 1)).1
            (constants 600 900 (omega arith)),
      )
      either false = (
        AtMost-trans N (ratio 30 1) (computed_backoff N n) _ (computed-bounds n).0
            (max_upper N (min N r (ratio 900 1)) (computed_backoff N n)).1,
        max_least N (min N r (ratio 900 1)) (computed_backoff N n) (ratio 900 1)
            (min_lower N r (ratio 900 1)).1 half,
      )
