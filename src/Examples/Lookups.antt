-- ===== src/Examples/Lookups.antt =====
-- Lookups in a roster of two accounts.
use cswap.Base.{ℕ, ◌≡◌, ◌≤◌, refl, none, some, arith}
use cswap.Roster.{find_account_slot, next_account_number_from, record_for}
use cswap.Roster.Numbers.{next_account_number-free}
use cswap.Roster.Identity.{Owns, find_account_slot-exact}
use cswap.Examples.Machine.{two_accounts}

find_account_slot-second : find_account_slot (some two_accounts) "b" "" ≡ some 2
unfolding find_account_slot
find_account_slot-second = refl

next_account_number_from-third : next_account_number_from (some two_accounts) ≡ 3
unfolding next_account_number_from
next_account_number_from-third = refl

next_account_number-free_example :
    (1 ≤ next_account_number_from (some two_accounts)) × (record_for (some two_accounts) 4 ≡ none)
unfolding next_account_number_from
next_account_number-free_example = next_account_number-free (some two_accounts) 4 (omega arith)

find_account_slot-exact_example :
    ((n : ℕ) → find_account_slot (some two_accounts) "b" "" ≡ some n → Owns two_accounts "b" "" n)
    × ((m : ℕ)
        → Owns two_accounts "b" "" m
        → (n : ℕ) × (find_account_slot (some two_accounts) "b" "" ≡ some n) × (n ≤ m))
find_account_slot-exact_example = find_account_slot-exact two_accounts "b" ""
