-- ===== src/Switching/Strategies/Best.antt =====
-- The slot that the best strategy switches to.
use cswap.Base.{
  ℕ, ◌≡◌, refl, sym, ap, ◌∙◌, Bool, true, false, Option, none, some, List, [], ◌∷◌, ◌==◌, ==_iff,
  contains, arith, inl, inr, ◌⊎◌, Bool-cases, Option-cases,
}
use cswap.Switching.Strategies.{
  switch_to, current_unavailable, best_of, compare_best, measured, choose,
}

module _ {Level : Type 0} (greater : Level → Level → Bool) (spent : Level → Bool)
    (headroom : ℕ → Option Level)
    (asymmetric : (a b : Level) → greater a b ≡ true → greater b a ≡ false)
    (transitive : (a b c : Level)
      → greater a b ≡ false
      → greater b c ≡ false
      → greater a c ≡ false) where
  irreflexive : (a : Level) → greater a a ≡ false
  irreflexive a = elim (Bool-cases (greater a a)) [ inl t ↦ asymmetric a a t | inr f ↦ f ]

  -- `n` with headroom `h` is what the scan of `nums` from `best` ends with.
  pub record Top (nums : List ℕ) (best : Option (ℕ × Level)) (n : ℕ) (h : Level) : Type 0 where
    pub known : headroom n ≡ some h
    pub origin : (best ≡ some (n, h)) ⊎ (contains nums n ≡ true)
    pub above :
        (m : ℕ) (k : Level) → contains nums m ≡ true → headroom m ≡ some k → greater k h ≡ false
    pub above_best : (m : ℕ) (g : Level) → best ≡ some (m, g) → greater g h ≡ false

  contains-first : (num n : ℕ) (nums : List ℕ) → num ≡ n → contains (num ∷ nums) n ≡ true
  contains-first num n nums e = ground arith

  contains-later :
      (num n : ℕ) (nums : List ℕ) → contains nums n ≡ true → contains (num ∷ nums) n ≡ true
  contains-later num n nums c = ground arith

  Top-cons :
      (num : ℕ) (nums : List ℕ) (best next : Option (ℕ × Level)) (n : ℕ) (h : Level)
      → Top nums next n h
      → ((k : Level) → headroom num ≡ some k → greater k h ≡ false)
      → ((m : ℕ) (g : Level) → best ≡ some (m, g) → greater g h ≡ false)
      → (next ≡ some (n, h) → (best ≡ some (n, h)) ⊎ (num ≡ n))
      → Top (num ∷ nums) best n h
  Top-cons num nums best next n h t own old from = record {
    known = t.known;
    origin = place t.origin;
    above = λ m k c e. elim (Bool-cases (num == m)) [
      | inl same ↦ own k (ap headroom ((==_iff num m).0 same) ∙ e)
      | inr other ↦ t.above m k (rw other at c) e
    ];
    above_best = old;
  }
    where
      place :
          (next ≡ some (n, h)) ⊎ (contains nums n ≡ true)
          → (best ≡ some (n, h)) ⊎ (contains (num ∷ nums) n ≡ true)
      place (inr c) = inr (contains-later num n nums c)
      place (inl e) = settle (from e)
        where
          settle :
              (best ≡ some (n, h)) ⊎ (num ≡ n)
              → (best ≡ some (n, h)) ⊎ (contains (num ∷ nums) n ≡ true)
          settle (inl b) = inl b
          settle (inr s) = inr (contains-first num n nums s)

  first_of :
      (m n : ℕ) (g h : Level) → ◌≡◌ {A = Option (ℕ × Level)} (some (m, g)) (some (n, h)) → m ≡ n
  first_of m n g h e = cc

  level_of :
      (m n : ℕ) (g h : Level) → ◌≡◌ {A = Option (ℕ × Level)} (some (m, g)) (some (n, h)) → g ≡ h
  level_of m n g h e = cc

  -- The best so far is a measured slot.
  abbrev Known : Option (ℕ × Level) → Type 0
  Known best = (m : ℕ) (g : Level) → best ≡ some (m, g) → headroom m ≡ some g

  pub best_of-Top :
      (nums : List ℕ) (best : Option (ℕ × Level)) (n : ℕ) (h : Level)
      → Known best
      → best_of greater spent headroom nums best ≡ some (n, h)
      → Top nums best n h
  unfolding best_of
  best_of-Top [] best n h known r = record {
    known = known n h r;
    origin = inl r;
    above = λ m k c e. cc;
    above_best =
        λ m g e. let same : g ≡ h = level_of m n g h (sym e ∙ r) in rw same (irreflexive h);
  }
  best_of-Top (num ∷ nums) none n h known r = elim (Option-cases (headroom num)) [
    | inl unknown ↦
        Top-cons num nums none none n h (best_of-Top nums none n h known (rw unknown at r))
          (λ k e. cc) (λ m g e. cc) (λ e. cc)
    | inr (k, measured_as) ↦
        let t =
          best_of-Top nums (some (num, k)) n h
            (λ m g e. rw (sym (first_of num m k g e), sym (level_of num m k g e)) measured_as)
            (rw measured_as at r) in
        Top-cons num nums none (some (num, k)) n h t
          (λ j e. let same : k ≡ j = cc in rw (sym same) (t.above_best num k refl)) (λ m g e. cc)
          (λ e. inr (first_of num n k h e))
  ]
  best_of-Top (num ∷ nums) (some (b, g)) n h known r = elim (Option-cases (headroom num)) [
    | inl unknown ↦
        let t = best_of-Top nums (some (b, g)) n h known (rw unknown at r) in
        Top-cons num nums (some (b, g)) (some (b, g)) n h t (λ k e. cc) t.above_best (λ e. inl e)
    | inr (k, measured_as) ↦ elim (Bool-cases (greater k g)) [
      | inl better ↦
          let t =
            best_of-Top nums (some (num, k)) n h
              (λ m f e. rw (sym (first_of num m k f e), sym (level_of num m k f e)) measured_as)
              (rw (measured_as, better) at r) in
          Top-cons num nums (some (b, g)) (some (num, k)) n h t
            (λ j e. let same : k ≡ j = cc in rw (sym same) (t.above_best num k refl))
            (λ m f e.
              rw (sym (level_of b m g f e))
                (transitive g k h (asymmetric k g better) (t.above_best num k refl)))
            (λ e. inr (first_of num n k h e))
      | inr not_better ↦
          let t = best_of-Top nums (some (b, g)) n h known (rw (measured_as, not_better) at r) in
          Top-cons num nums (some (b, g)) (some (b, g)) n h t
            (λ j e.
              let same : k ≡ j = cc in
              rw (sym same) (transitive k g h not_better (t.above_best b g refl)))
            t.above_best (λ e. inl e)
    ]
  ]

  -- A choice of `n` among `others`: measured above the current slot, and no other is above it.
  pub record Chosen (current : ℕ) (others : List ℕ) (n : ℕ) : Type 0 where
    pub level : Level
    pub current_level : Level
    pub known : headroom n ≡ some level
    pub current_known : headroom current ≡ some current_level
    pub better : greater level current_level ≡ true
    pub candidate : contains others n ≡ true
    pub maximal :
        (m : ℕ) (k : Level)
        → contains others m ≡ true
        → headroom m ≡ some k
        → greater k level ≡ false

  chosen :
      (current n m : ℕ) (others : List ℕ) (c g : Level)
      → headroom current ≡ some c
      → greater g c ≡ true
      → Top others none m g
      → switch_to m ≡ switch_to n
      → Chosen current others n
  chosen current n m others c g k b t e =
      let same : m ≡ n = cc in
      record {
        level = g;
        current_level = c;
        known = ap headroom (sym same) ∙ t.known;
        current_known = k;
        better = b;
        candidate = rw (sym same) (placed t.origin);
        maximal = t.above;
      }
    where
      placed :
          (◌≡◌ {A = Option (ℕ × Level)} none (some (m, g))) ⊎ (contains others m ≡ true)
          → contains others m ≡ true
      placed (inl e) = cc
      placed (inr c) = c

  compared :
      (current n m : ℕ) (others : List ℕ) (c g : Level)
      → headroom current ≡ some c
      → Top others none m g
      → compare_best greater spent headroom others c (some (m, g)) ≡ switch_to n
      → Chosen current others n
  unfolding compare_best
  compared current n m others c g k t e = elim (Bool-cases (greater g c)) [
    | inl b ↦ chosen current n m others c g k b t (rw b at e)
    | inr b ↦ absurd (ground (arith, e, b))
  ]

  -- The best strategy switches only to a candidate whose measured headroom is greater than the
  -- measured headroom of the current slot and than which no measured candidate's is greater.
  -- `greater` is asymmetric, and its negation is transitive.
  pub choose-Chosen :
      (current : ℕ) (others : List ℕ) (n : ℕ)
      → choose greater spent headroom current others ≡ switch_to n
      → Chosen current others n
  unfolding choose measured compare_best
  choose-Chosen current [] n e = cc
  choose-Chosen current (num ∷ nums) n e = elim (Option-cases (headroom current)) [
    | inl unknown ↦ absurd (no_choice (rw unknown at e))
    | inr (c, k) ↦ elim (Option-cases (best_of greater spent headroom (num ∷ nums) none)) [
      | inl nothing ↦ absurd (ground (arith, e, k, nothing))
      | inr ((m, g), top) ↦
          compared current n m (num ∷ nums) c g k
            (best_of-Top (num ∷ nums) none m g (λ m g e. cc) top) (rw (k, top) at e)
    ]
  ]
    where
      no_choice : current_unavailable ≡ switch_to n → ⊥
      no_choice e = cc
