-- ===== src/Examples/Choices.antt =====
-- Three slots, the first of them current.
use cswap.Base.{
  ℕ, ◌≡◌, refl, Bool, true, false, Option, none, some, [], ◌∷◌, ltb, ◌==◌, if◌then◌else◌, arith,
}
use cswap.Switching.Strategies.{switch_to, choose}
use cswap.Switching.Strategies.Best.{Chosen, choose-Chosen}
use cswap.Switching.Strategies.Progress.{choose-switches}

abbrev greater : ℕ → ℕ → Bool
greater a b = ltb b a

abbrev spent : ℕ → Bool
spent a = a == 0

abbrev headrooms : ℕ → Option ℕ
headrooms n = if n == 1 then some 10 else if n == 4 then none else some 40

greater_asymmetric : (a b : ℕ) → greater a b ≡ true → greater b a ≡ false
greater_asymmetric a b h = ground arith

greater_transitive : (a b c : ℕ) → greater a b ≡ false → greater b c ≡ false → greater a c ≡ false
greater_transitive a b c h k = ground arith

choose-second : choose greater spent headrooms 1 (4 ∷ 2 ∷ 3 ∷ []) ≡ switch_to 2
unfolding choose
choose-second = refl

choose-Chosen_example :
    Chosen greater spent headrooms greater_asymmetric greater_transitive 1 (4 ∷ 2 ∷ 3 ∷ []) 2
choose-Chosen_example =
    choose-Chosen greater spent headrooms greater_asymmetric greater_transitive 1 (4 ∷ 2 ∷ 3 ∷ []) 2
      choose-second

abbrev four : ℕ
four = 4

choose-switches_example :
    (n : ℕ) × (choose greater spent headrooms 1 (four ∷ 2 ∷ 3 ∷ []) ≡ switch_to n)
choose-switches_example =
    choose-switches greater spent headrooms greater_asymmetric greater_transitive 1
      (four ∷ 2 ∷ 3 ∷ []) 10 40 3 refl refl refl refl
