-- ===== src/SlotKey/Total.antt =====
-- The order of slot keys is strict and total, and Sorted follows it.
use cswap.Base.{
  String, ◌≡◌, refl, Bool, true, false, Option, none, some, List, if◌then◌else◌, sort, sort-Ordered,
  sort-perm, Ordered-Pairwise, Pairwise, arith, sym, ◌∙◌, Bool-cases, inl, inr, some-injective,
}
use mathlib.Core.List.{Perm}
use mathlib.Core.Path.{subst}
use cswap.SlotKey.{Keys, less, sorted}

-- Go's < on a type: strict, total up to equality, and its complement is transitive.
pub record IsOrder {A : Type 0} (lt : A → A → Bool) : Type 0 where
  pub asymmetric : (a b : A) → lt a b ≡ true → lt b a ≡ false
  pub transitive : (a b c : A) → lt a b ≡ false → lt b c ≡ false → lt a c ≡ false
  pub total : (a b : A) → lt a b ≡ false → lt b a ≡ false → a ≡ b

module _ (K : Keys) where
  open K use {Int, int_less, string_less, atoi}

  -- A key `a` that may stand before `b`.
  pub record Before (a b : String) : Type 0 where
    -- before a number stands a number that is not larger
    pub number :
        (n : Int) → atoi b ≡ some n → (m : Int) × (atoi a ≡ some m) × (int_less n m ≡ false)
    -- spellings of one number, and keys that are no numbers, stand in the order of strings
    pub spelling : (n : Int) → atoi a ≡ some n → atoi b ≡ some n → string_less b a ≡ false
    pub text : atoi a ≡ none → atoi b ≡ none → string_less b a ≡ false

module _ (K : Keys) (ints : IsOrder (K.int_less)) (strings : IsOrder (K.string_less)) where
  open K use {Int, int_less, string_less, atoi}

  -- The comparison of two keys with their values.
  compared : Option Int → Option Int → Bool → Bool
  compared none none s = s
  compared none (some n) s = false
  compared (some m) none s = true
  compared (some m) (some n) s = if int_less m n then true else if int_less n m then false else s

  less-compared : (a b : String) → less K a b ≡ compared (atoi a) (atoi b) (string_less a b)
  unfolding less compared
  less-compared a b = go (atoi a) (atoi b)
    where
      go :
          (x y : Option Int)
          → (elim x as (λ z. Bool) [
            | none ↦ elim y [ none ↦ string_less a b | some n ↦ false ]
            | some m ↦ elim y [
              | none ↦ true
              | some n ↦
                  if int_less m n then true else if int_less n m then false else string_less a b
            ]
          ])
            ≡ compared x y (string_less a b)
      go none none = refl
      go none (some n) = refl
      go (some m) none = refl
      go (some m) (some n) = refl

  compared-asymmetric :
      (x y : Option Int) (s t : Bool)
      → (s ≡ true → t ≡ false)
      → compared x y s ≡ true
      → compared y x t ≡ false
  unfolding compared
  compared-asymmetric none none s t f h = f h
  compared-asymmetric none (some n) s t f h = cc
  compared-asymmetric (some m) none s t f h = refl
  compared-asymmetric (some m) (some n) s t f h = ground (arith, ints.asymmetric m n, f)

  compared-transitive :
      (x y z : Option Int) (s t u : Bool)
      → (s ≡ false → t ≡ false → u ≡ false)
      → compared x y s ≡ false
      → compared y z t ≡ false
      → compared x z u ≡ false
  unfolding compared
  compared-transitive none none none s t u f h k = f h k
  compared-transitive none none (some c) s t u f h k = refl
  compared-transitive none (some b) none s t u f h k = cc
  compared-transitive none (some b) (some c) s t u f h k = refl
  compared-transitive (some a) none z s t u f h k = cc
  compared-transitive (some a) (some b) none s t u f h k = cc
  compared-transitive (some a) (some b) (some c) s t u f h k =
      ground (arith, ints.transitive a b c, ints.transitive b c a, ints.transitive c a b, f)

  compared-total :
      (x y : Option Int) (s t : Bool)
      → compared x y s ≡ false
      → compared y x t ≡ false
      → (s ≡ false) × (t ≡ false)
  unfolding compared
  compared-total none none s t h k = (h, k)
  compared-total none (some n) s t h k = cc
  compared-total (some m) none s t h k = cc
  compared-total (some m) (some n) s t h k = (ground (arith, h, k), ground (arith, h, k))

  -- The order of slot keys is strict, its complement is transitive, and two different keys are in
  -- order one way or the other.
  pub less-IsOrder : IsOrder (less K)
  less-IsOrder = record {
    asymmetric = λ a b h. rw (less-compared b a) (
        compared-asymmetric (atoi a) (atoi b) (string_less a b) (string_less b a)
          (strings.asymmetric a b) (rw (less-compared a b) at h));
    transitive = λ a b c h k. rw (less-compared a c) (
        compared-transitive (atoi a) (atoi b) (atoi c) (string_less a b) (string_less b c)
          (string_less a c) (strings.transitive a b c) (rw (less-compared a b) at h)
          (rw (less-compared b c) at k));
    total = λ a b h k.
        let (s, t) =
          compared-total (atoi a) (atoi b) (string_less a b) (string_less b a)
            (rw (less-compared a b) at h) (rw (less-compared b a) at k) in
        strings.total a b s t;
  }

  compared-back :
      (x y : Option Int) (s : Bool)
      → compared y x s ≡ false
      → ((n : Int) → y ≡ some n → (m : Int) × (x ≡ some m) × (int_less n m ≡ false))
        × ((n : Int) → x ≡ some n → y ≡ some n → s ≡ false)
        × (x ≡ none → y ≡ none → s ≡ false)
  unfolding compared
  compared-back none none s h = (λ n e. cc, λ n e d. cc, λ e d. h)
  compared-back none (some n) s h = cc
  compared-back (some m) none s h = (λ n e. cc, λ n e d. cc, λ e d. cc)
  compared-back (some m) (some k) s h = elim (Bool-cases (int_less k m)) [
    | inl t ↦ cc (rw t at h)
    | inr f ↦ (
      λ n e. (m, refl, subst (λ z. int_less z m ≡ false) (some-injective _ _ e) f),
      λ n e d.
          let same : k ≡ m = some-injective _ _ (d ∙ sym e) in
          let g : int_less m k ≡ false =
            subst (λ z. int_less m z ≡ false) (sym same)
              (subst (λ z. int_less z m ≡ false) same f) in
          rw (f, g) at h,
      λ e d. cc,
    )
  ]

  less-Before : (a b : String) → less K b a ≡ false → Before K a b
  less-Before a b h =
      let (number, spelling, text) =
        compared-back (atoi a) (atoi b) (string_less b a) (rw (less-compared b a) at h) in
      record { number = number; spelling = spelling; text = text }

  -- Sorted returns the keys rearranged: the numbers first, none before a smaller one, and behind them
  -- the keys that are no numbers; spellings of one number, and these keys, in the order of strings.
  pub sorted-Ordered :
      (keys : List String) → Pairwise (Before K) (sorted K keys) × Perm (sorted K keys) keys
  unfolding sorted
  sorted-Ordered keys = (
    Ordered-Pairwise (less K) (Before K) less-Before (sort (less K) keys)
        (sort-Ordered (less K) less-IsOrder.asymmetric less-IsOrder.transitive keys),
    sort-perm (less K) keys,
  )
