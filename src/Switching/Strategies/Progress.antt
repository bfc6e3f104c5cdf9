-- ===== src/Switching/Strategies/Progress.antt =====
-- The best strategy does switch where a measured candidate is better.
use cswap.Base.{
  ℕ, ◌≡◌, refl, sym, ap, ◌∙◌, Bool, true, false, Option, none, some, List, [], ◌∷◌, ◌==◌, ==_iff,
  contains, inl, inr, Bool-cases, Option-cases,
}
use cswap.Switching.Strategies.{switch_to, best_of, compare_best, measured, choose}
use cswap.Switching.Strategies.Best.{best_of-Top}

module _ {Level : Type 0} (greater : Level → Level → Bool) (spent : Level → Bool)
    (headroom : ℕ → Option Level)
    (asymmetric : (a b : Level) → greater a b ≡ true → greater b a ≡ false)
    (transitive : (a b c : Level)
      → greater a b ≡ false
      → greater b c ≡ false
      → greater a c ≡ false) where
  -- A scan that has a best slot ends with one.
  scan_keeps :
      (nums : List ℕ) (n : ℕ) (h : Level)
      → (p : ℕ × Level) × (best_of greater spent headroom nums (some (n, h)) ≡ some p)
  unfolding best_of
  scan_keeps [] n h = ((n, h), refl)
  scan_keeps (num ∷ nums) n h = elim (Option-cases (headroom num)) [
    | inl unknown ↦ rw unknown (scan_keeps nums n h)
    | inr (k, e) ↦ elim (Bool-cases (greater k h)) [
      | inl t ↦ rw (e, t) (scan_keeps nums num k)
      | inr f ↦ rw (e, f) (scan_keeps nums n h)
    ]
  ]

  -- So does a scan that meets a measured slot.
  scan_finds :
      (nums : List ℕ) (m : ℕ) (k : Level)
      → contains nums m ≡ true
      → headroom m ≡ some k
      → (p : ℕ × Level) × (best_of greater spent headroom nums none ≡ some p)
  unfolding best_of
  scan_finds [] m k c e = cc
  scan_finds (num ∷ nums) m k c e = elim (Option-cases (headroom num)) [
    | inr (h, found) ↦ rw found (scan_keeps nums num h)
    | inl unknown ↦ elim (Bool-cases (num == m)) [
      | inl same ↦ absurd (clash (sym unknown ∙ ap headroom ((==_iff num m).0 same) ∙ e))
      | inr other ↦ rw unknown (scan_finds nums m k (rw other at c) e)
    ]
  ]
    where
      clash : ◌≡◌ {A = Option Level} none (some k) → ⊥
      clash e = cc

  above_current : (k h c : Level) → greater k c ≡ true → greater k h ≡ false → greater h c ≡ true
  above_current k h c b f = elim (Bool-cases (greater h c)) [
    | inl t ↦ t
    | inr n ↦ let low = transitive k h c f n in absurd (clash (sym b ∙ low))
  ]
    where
      clash : true ≡ false → ⊥
      clash e = cc

  -- Where the current slot and some candidate are measured, and the candidate's headroom is
  -- greater, the best strategy switches. `greater` is asymmetric, and its negation is transitive.
  pub choose-switches :
      (current : ℕ) (others : List ℕ) (c k : Level) (m : ℕ)
      → headroom current ≡ some c
      → contains others m ≡ true
      → headroom m ≡ some k
      → greater k c ≡ true
      → (n : ℕ) × (choose greater spent headroom current others ≡ switch_to n)
  unfolding choose measured compare_best
  choose-switches current [] c k m e i f b = cc
  choose-switches current (num ∷ nums) c k m e i f b =
      let ((n, h), found) = scan_finds (num ∷ nums) m k i f in
      let top =
        best_of-Top greater spent headroom asymmetric transitive (num ∷ nums) none n h (λ m g e. cc)
          found in
      (n, rw (e, found, above_current k h c b (top.above m k i f)) refl)
