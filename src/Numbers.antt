-- ===== src/Numbers.antt =====
-- Go's float64, time.Parse and strings.ToLower as the usage and auto-switch code uses them: a
-- parameter of the models. `Num` is float64 without NaN, which no JSON number decodes to.
pub mod Order
use cswap.Base.{String, ℕ, ◌≡◌, Bool, true, false, Option, ltb}

pub record Numbers : Type 1 where
  pub Num : Type 0
  -- a < b
  pub less : Num → Num → Bool
  pub add : Num → Num → Num
  pub sub : Num → Num → Num
  pub mul : Num → Num → Num
  -- the constant a / b
  pub ratio : ℕ → ℕ → Num
  pub to_lower : String → String
  -- epoch seconds of an RFC 3339 time
  pub parse_time : String → Option Num
  pub asymmetric : (a b : Num) → less a b ≡ true → less b a ≡ false
  pub transitive : (a b c : Num) → less a b ≡ false → less b c ≡ false → less a c ≡ false
  pub ratio_monotone : (a b : ℕ) → ltb b a ≡ false → less (ratio b 1) (ratio a 1) ≡ false
  pub add_monotone :
      (a b : Num) (n : ℕ) → less b a ≡ false → less (add b (ratio n 1)) (add a (ratio n 1)) ≡ false
