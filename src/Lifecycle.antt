-- ===== src/Lifecycle.antt =====
-- The roster that moving a slot and swapping two slots commit (internal/lifecycle/moveswap.go). The
-- stored copies, which these operations rewrite before the commit, are not part of this model.
pub mod Slots
use cswap.Base.{
  ℕ, String, Bool, true, false, not, Option, none, some, List, [], ◌∷◌, ltb, ◌==◌, if◌then◌else◌,
  keep, sort,
}
use cswap.Roster.{Account, SequenceData, assign}

-- renumberSequence
renumber_sequence : List ℕ → ℕ → ℕ → List ℕ
renumber_sequence [] src target = []
renumber_sequence (n ∷ ns) src target =
    (if n == src then target else n) ∷ renumber_sequence ns src target

swap_number : ℕ → ℕ → ℕ → ℕ
swap_number n a b = if n == a then b else if n == b then a else n

-- swapSequence
swap_sequence : List ℕ → ℕ → ℕ → List ℕ
unfolding swap_number
swap_sequence [] a b = []
swap_sequence (n ∷ ns) a b = swap_number n a b ∷ swap_sequence ns a b

-- delete(data.Accounts, num)
unfoldable pub remove : ℕ → List (ℕ × Account) → List (ℕ × Account)
remove num [] = []
remove num ((k, rec) ∷ rest) =
    let others = remove num rest in if k == num then others else (k, rec) ∷ others

moved_active : ℕ → ℕ → Option ℕ → Option ℕ
moved_active src target none = none
moved_active src target (some n) = some (if n == src then target else n)

swapped_active : ℕ → ℕ → Option ℕ → Option ℕ
unfolding swap_number
swapped_active a b none = none
swapped_active a b (some n) = some (swap_number n a b)

-- What relocateLocked commits for the record of the source slot.
unfoldable pub relocated : ℕ → ℕ → Account → String → SequenceData → SequenceData
unfolding remove renumber_sequence moved_active assign sort
relocated src target rec time sd = record {
  active_account_number = moved_active src target sd.active_account_number;
  last_updated = time;
  sequence = sort ltb (renumber_sequence sd.sequence src target);
  accounts = remove src (assign target rec sd.accounts);
}

-- What swapAccountsLocked commits for the records of the two slots.
unfoldable pub swapped_slots : ℕ → ℕ → Account → Account → String → SequenceData → SequenceData
unfolding swap_sequence swapped_active assign sort
swapped_slots a b rec_a rec_b time sd = record {
  active_account_number = swapped_active a b sd.active_account_number;
  last_updated = time;
  sequence = sort ltb (swap_sequence sd.sequence a b);
  accounts = assign b rec_a (assign a rec_b sd.accounts);
}
