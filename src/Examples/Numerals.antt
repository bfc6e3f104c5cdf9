-- ===== src/Examples/Numerals.antt =====
-- The numbers of the examples: those of ℕ, with a time that is written as its name.
use cswap.Base.{
  String, ℕ, ◌+◌, ◌-◌, ◌*◌, ◌/◌, ◌≡◌, true, false, Option, none, some, ltb, if◌then◌else◌, str_eq,
  arith,
}
use cswap.Numbers.{Numbers}

abbrev times : String → Option ℕ
times s = if str_eq s "soon" then some 500 else if str_eq s "late" then some 900 else none

pub naturals_asymmetric : (a b : ℕ) → ltb a b ≡ true → ltb b a ≡ false
naturals_asymmetric a b h = ground arith

pub naturals_transitive : (a b c : ℕ) → ltb a b ≡ false → ltb b c ≡ false → ltb a c ≡ false
naturals_transitive a b c h k = ground arith

pub naturals_monotone : (a b : ℕ) → ltb b a ≡ false → ltb (b / 1) (a / 1) ≡ false
naturals_monotone a b h = ground arith

pub naturals_add_monotone : (a b n : ℕ) → ltb b a ≡ false → ltb (b + n / 1) (a + n / 1) ≡ false
naturals_add_monotone a b n h = ground arith

abbrev pub naturals : Numbers
naturals = record {
  Num = ℕ;
  less = ltb;
  add = λ a b. a + b;
  sub = λ a b. a - b;
  mul = λ a b. a * b;
  ratio = λ a b. a / b;
  to_lower = λ s. s;
  parse_time = times;
  asymmetric = naturals_asymmetric;
  transitive = naturals_transitive;
  ratio_monotone = naturals_monotone;
  add_monotone = naturals_add_monotone;
}
