-- ===== src/Roster/Numbers.antt =====
-- The number that a new account takes (internal/store/sequence.go, NextAccountNumberFrom).
use cswap.Base.{
  ℕ, ◌≤◌, ◌<◌, ◌≡◌, refl, Option, none, some, List, [], ◌∷◌, arith, if◌then◌else◌, ltb,
}
use cswap.Roster.{
  Account, SequenceData, lookup, record_for, keys, max_key, next_account_number_from,
}

max_key-ge : (m : ℕ) (ks : List ℕ) → m ≤ max_key m ks
unfolding max_key
max_key-ge m [] = omega arith
max_key-ge m (k ∷ ks) = ground (arith, max_key-ge (if ltb m k then k else m) ks)

lookup-above : (m n : ℕ) (rs : List (ℕ × Account)) → max_key m (keys rs) < n → lookup n rs ≡ none
unfolding lookup keys max_key
lookup-above m n [] h = refl
lookup-above m n ((k, rec) ∷ rs) h = ground (
  arith,
  lookup-above (if ltb m k then k else m) n rs,
  max_key-ge (if ltb m k then k else m) (keys rs),
)

-- The number of a new account is at least 1, and no record of the roster has it or a larger one.
pub next_account_number-free :
    (sd : Option SequenceData) (n : ℕ)
    → next_account_number_from sd ≤ n
    → (1 ≤ next_account_number_from sd) × (record_for sd n ≡ none)
unfolding next_account_number_from record_for
next_account_number-free none n h = (omega arith, refl)
next_account_number-free (some sd) n h = (omega arith, lookup-above 0 n sd.accounts (omega arith))
