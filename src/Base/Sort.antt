-- ===== src/Base/Sort.antt =====
-- The stable sort by a "less" test: Go's sort.SliceStable, and one result of sort.Slice.
use mathlib.Core.Path.{◌≡◌}
use mathlib.Core.Logic.{inl, inr}
use mathlib.Core.List.{List, [], ◌∷◌, Perm}
use mathlib.Core.List.Perm
use mathlib.Core.Bool.{Bool, true, false}
use cswap.Base.Tests.{if◌then◌else◌, Bool-cases}
use cswap.Base.Lists.{All, All-map, Pairwise}

module _ {ℓ} {A : Type ℓ} (less : A → A → Bool) where
  insert : A → List A → List A
  insert x [] = x ∷ []
  insert x (y ∷ ys) = let rest = insert x ys in if less y x then y ∷ rest else x ∷ y ∷ ys

  unfoldable pub sort : List A → List A
  unfolding insert
  sort [] = []
  sort (x ∷ xs) = insert x (sort xs)

  -- No element is less than one before it.
  abbrev pub Ordered : List A → Type 0
  Ordered [] = Unit
  Ordered (x ∷ xs) = All (λ y. less y x ≡ false) xs × Ordered xs

  pub Ordered-Pairwise :
      (R : A → A → Type 0)
      → ((x y : A) → less y x ≡ false → R x y)
      → (xs : List A) → Ordered xs
      → Pairwise R xs
  Ordered-Pairwise R f [] h = tt
  Ordered-Pairwise R f (x ∷ xs) h =
      (All-map (λ y. less y x ≡ false) (R x) (f x) xs h.0, Ordered-Pairwise R f xs h.1)

  insert-perm : (x : A) (ys : List A) → Perm (insert x ys) (x ∷ ys)
  unfolding insert
  insert-perm x [] = Perm.rfl
  insert-perm x (y ∷ ys) = elim (Bool-cases (less y x)) [
    | inl t ↦ rw t (Perm.trans (Perm.cons y (insert-perm x ys)) (Perm.swap x y ys))
    | inr f ↦ rw f Perm.rfl
  ]

  pub sort-perm : (xs : List A) → Perm (sort xs) xs
  unfolding sort
  sort-perm [] = Perm.rfl
  sort-perm (x ∷ xs) = Perm.trans (insert-perm x (sort xs)) (Perm.cons x (sort-perm xs))

  module _ {κ} (P : A → Type κ) where
    insert-All : (x : A) (ys : List A) → P x → All P ys → All P (insert x ys)
    unfolding insert
    insert-All x [] p h = (p, tt)
    insert-All x (y ∷ ys) p h = elim (Bool-cases (less y x)) [
      | inl t ↦ rw t (h.0, insert-All x ys p h.1)
      | inr f ↦ rw f (p, h)
    ]

    insert-All_back : (x : A) (ys : List A) → All P (insert x ys) → P x × All P ys
    unfolding insert
    insert-All_back x [] h = h
    insert-All_back x (y ∷ ys) h = elim (Bool-cases (less y x)) [
      | inl t ↦
          let h' : P y × All P (insert x ys) = rw t at h in
          let (p, q) = insert-All_back x ys h'.1 in (p, (h'.0, q))
      | inr f ↦ rw f at h
    ]

    pub sort-All : (xs : List A) → All P xs → All P (sort xs)
    unfolding sort
    sort-All [] h = tt
    sort-All (x ∷ xs) h = insert-All x (sort xs) h.0 (sort-All xs h.1)

    pub sort-All_back : (xs : List A) → All P (sort xs) → All P xs
    unfolding sort
    sort-All_back [] h = tt
    sort-All_back (x ∷ xs) h = let (p, q) = insert-All_back x (sort xs) h in (p, sort-All_back xs q)

  module _ (asymmetric : (a b : A) → less a b ≡ true → less b a ≡ false)
      (transitive : (a b c : A) → less a b ≡ false → less b c ≡ false → less a c ≡ false) where
    insert-Ordered : (x : A) (ys : List A) → Ordered ys → Ordered (insert x ys)
    unfolding insert
    insert-Ordered x [] h = (tt, tt)
    insert-Ordered x (y ∷ ys) h = elim (Bool-cases (less y x)) [
      | inl t ↦
          rw t (
            insert-All (λ z. less z y ≡ false) x ys (asymmetric y x t) h.0,
            insert-Ordered x ys h.1,
          )
      | inr f ↦ rw f (
        (
          f,
          All-map (λ z. less z y ≡ false) (λ z. less z x ≡ false) (λ z g. transitive z y x g f) ys
              h.0,
        ),
        h,
      )
    ]

    pub sort-Ordered : (xs : List A) → Ordered (sort xs)
    unfolding sort
    sort-Ordered [] = tt
    sort-Ordered (x ∷ xs) = insert-Ordered x (sort xs) (sort-Ordered xs)
