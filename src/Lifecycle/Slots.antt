-- ===== src/Lifecycle/Slots.antt =====
-- Which account each slot has after a move and after a swap.
use mathlib.Core.Path.{subst}
use cswap.Base.{
  ℕ, String, ◌≡◌, refl, sym, ap, ◌∙◌, false, Option, none, some, List, [], ◌∷◌, ◌==◌, Bool-cases,
  inl, inr, arith,
}
use cswap.Roster.{Account, SequenceData, assign, lookup}
use cswap.Lifecycle.{remove, swap_number, swapped_active, relocated, swapped_slots}

lookup-assign_same :
    (num : ℕ) (rec : Account) (accounts : List (ℕ × Account))
    → lookup num (assign num rec accounts) ≡ some rec
unfolding lookup assign
lookup-assign_same num rec [] = ground arith
lookup-assign_same num rec ((k, old) ∷ rest) = elim (Bool-cases (k == num)) [
  | inl t ↦ simp t (ground arith)
  | inr f ↦ simp f (lookup-assign_same num rec rest)
]

lookup-assign_other :
    (num k : ℕ) (rec : Account) (accounts : List (ℕ × Account))
    → (num == k) ≡ false
    → lookup k (assign num rec accounts) ≡ lookup k accounts
unfolding lookup assign
lookup-assign_other num k rec [] h = rw h refl
lookup-assign_other num k rec ((j, old) ∷ rest) h =
    ground (arith, h, lookup-assign_other num k rec rest h)

lookup-remove :
    (num k : ℕ) (accounts : List (ℕ × Account))
    → (lookup num (remove num accounts) ≡ none)
      × ((num == k) ≡ false → lookup k (remove num accounts) ≡ lookup k accounts)
unfolding lookup remove
lookup-remove num k [] = (refl, λ h. refl)
lookup-remove num k ((j, rec) ∷ rest) =
    let (gone, same) = lookup-remove num k rest in
    (ground (arith, gone), λ h. ground (arith, h, same h))

-- After a move to another slot, the target has the source's account, the source has none, and every
-- other slot has what it had.
pub relocated-lookup :
    (src target : ℕ) (rec : Account) (time : String) (sd : SequenceData)
    → (src == target) ≡ false
    → lookup src sd.accounts ≡ some rec
    → (lookup target (relocated src target rec time sd).accounts ≡ lookup src sd.accounts)
      × (lookup src (relocated src target rec time sd).accounts ≡ none)
      × ((k : ℕ)
          → (src == k) ≡ false
          → (target == k) ≡ false
          → lookup k (relocated src target rec time sd).accounts ≡ lookup k sd.accounts)
unfolding relocated
relocated-lookup src target rec time sd d e =
    let accounts = assign target rec sd.accounts in
    (
      (lookup-remove src target accounts).1 d ∙ lookup-assign_same target rec sd.accounts ∙ sym e,
      (lookup-remove src target accounts).0,
      λ k p q. (lookup-remove src k accounts).1 p ∙ lookup-assign_other target k rec sd.accounts q,
    )

-- The accounts of the slots after a swap, with the other slots' as they were.
swapped_slots-lookup :
    (a b : ℕ) (rec_a rec_b : Account) (time : String) (sd : SequenceData)
    → (a == b) ≡ false
    → (lookup a (swapped_slots a b rec_a rec_b time sd).accounts ≡ some rec_b)
      × (lookup b (swapped_slots a b rec_a rec_b time sd).accounts ≡ some rec_a)
      × ((k : ℕ)
          → (a == k) ≡ false
          → (b == k) ≡ false
          → lookup k (swapped_slots a b rec_a rec_b time sd).accounts ≡ lookup k sd.accounts)
unfolding swapped_slots
swapped_slots-lookup a b rec_a rec_b time sd d =
    let first = assign a rec_b sd.accounts in
    (
      lookup-assign_other b a rec_a first (ground (arith, d))
          ∙ lookup-assign_same a rec_b sd.accounts,
      lookup-assign_same b rec_a first,
      λ k p q. lookup-assign_other b k rec_a first q ∙ lookup-assign_other a k rec_b sd.accounts p,
    )

swapped_active-twice :
    (a b : ℕ) (o : Option ℕ) → (a == b) ≡ false → swapped_active a b (swapped_active a b o) ≡ o
unfolding swapped_active swap_number
swapped_active-twice a b none d = refl
swapped_active-twice a b (some n) d = ap some (ground (arith, d))

-- Swapping two different slots gives each the other's account, and swapping them again gives every
-- slot the account that it had at first and restores the active slot.
pub swapped_slots-twice :
    (a b : ℕ) (rec_a rec_b : Account) (time later : String) (sd : SequenceData)
    → (a == b) ≡ false
    → lookup a sd.accounts ≡ some rec_a
    → lookup b sd.accounts ≡ some rec_b
    → ((lookup a (swapped_slots a b rec_a rec_b time sd).accounts ≡ some rec_b)
        × (lookup b (swapped_slots a b rec_a rec_b time sd).accounts ≡ some rec_a))
      × ((k : ℕ)
          → lookup k
              (swapped_slots a b rec_b rec_a later (swapped_slots a b rec_a rec_b time sd)).accounts
            ≡ lookup k sd.accounts)
      × ((swapped_slots a b rec_b rec_a later
            (swapped_slots a b rec_a rec_b time sd)).active_account_number
          ≡ sd.active_account_number)
unfolding swapped_slots
swapped_slots-twice a b rec_a rec_b time later sd d at_a at_b =
    let once = swapped_slots a b rec_a rec_b time sd in
    let (now_a, now_b, rest) = swapped_slots-lookup a b rec_a rec_b time sd d in
    let (then_a, then_b, others) = swapped_slots-lookup a b rec_b rec_a later once d in
    (
      (now_a, now_b),
      λ k. elim (Bool-cases (a == k)) [
        | inl t ↦
            let same : a ≡ k = ground (arith, t) in
            subst
              (λ c.
                lookup c (swapped_slots a b rec_b rec_a later once).accounts ≡ lookup c sd.accounts)
              same (then_a ∙ sym at_a)
        | inr p ↦ elim (Bool-cases (b == k)) [
          | inl t ↦
              let same : b ≡ k = ground (arith, t) in
              subst
                (λ c.
                  lookup c (swapped_slots a b rec_b rec_a later once).accounts
                  ≡ lookup c sd.accounts)
                same (then_b ∙ sym at_b)
          | inr q ↦ others k p q ∙ rest k p q
        ]
      ],
      swapped_active-twice a b sd.active_account_number d,
    )
