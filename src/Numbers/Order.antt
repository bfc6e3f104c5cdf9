-- ===== src/Numbers/Order.antt =====
-- The order of the numbers, and the largest and smallest of two.
use cswap.Base.{◌≡◌, true, false, if◌then◌else◌, Bool-cases, inl, inr}
use cswap.Numbers.{Numbers}

module _ (N : Numbers) where
  open N use {Num, less, asymmetric, transitive}

  -- math.Max and math.Min
  unfoldable pub max : Num → Num → Num
  max a b = if less a b then b else a

  unfoldable pub min : Num → Num → Num
  min a b = if less b a then b else a

  -- a ≤ b
  abbrev pub AtMost : Num → Num → Type 0
  AtMost a b = less b a ≡ false

  pub AtMost-refl : (a : Num) → AtMost a a
  AtMost-refl a = elim (Bool-cases (less a a)) [ inl t ↦ asymmetric a a t | inr f ↦ f ]

  pub AtMost-trans : (a b c : Num) → AtMost a b → AtMost b c → AtMost a c
  AtMost-trans a b c p q = transitive c b a q p

  pub AtMost-less : (a b : Num) → less a b ≡ true → AtMost a b
  AtMost-less a b h = asymmetric a b h

  pub max_upper : (a b : Num) → AtMost a (max a b) × AtMost b (max a b)
  unfolding max
  max_upper a b = elim (Bool-cases (less a b)) [
    | inl t ↦ rw t (asymmetric a b t, AtMost-refl b)
    | inr f ↦ rw f (AtMost-refl a, f)
  ]

  pub max_least : (a b c : Num) → AtMost a c → AtMost b c → AtMost (max a b) c
  unfolding max
  max_least a b c p q = elim (Bool-cases (less a b)) [ inl t ↦ rw t q | inr f ↦ rw f p ]

  pub min_lower : (a b : Num) → AtMost (min a b) a × AtMost (min a b) b
  unfolding min
  min_lower a b = elim (Bool-cases (less b a)) [
    | inl t ↦ rw t (asymmetric b a t, AtMost-refl b)
    | inr f ↦ rw f (AtMost-refl a, f)
  ]

  pub min_greatest : (a b c : Num) → AtMost c a → AtMost c b → AtMost c (min a b)
  unfolding min
  min_greatest a b c p q = elim (Bool-cases (less b a)) [ inl t ↦ rw t q | inr f ↦ rw f p ]
