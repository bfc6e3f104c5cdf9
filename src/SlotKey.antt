-- ===== src/SlotKey.antt =====
-- The canonical order of slot keys (internal/slotkey). strconv.Atoi and Go's order of its values and
-- of strings are parameters.
pub mod Total
use cswap.Base.{String, Bool, true, false, Option, none, some, List, if◌then◌else◌, sort}

-- Go's strings and the integers that they spell.
pub record Keys : Type 1 where
  pub Int : Type 0
  pub int_less : Int → Int → Bool
  pub string_less : String → String → Bool
  -- `none` for an error
  pub atoi : String → Option Int

module _ (K : Keys) where
  open K use {int_less, string_less, atoi}

  -- Less
  unfoldable pub less : String → String → Bool
  less a b = elim (atoi a) [
    | none ↦ elim (atoi b) [ none ↦ string_less a b | some n ↦ false ]
    | some m ↦ elim (atoi b) [
      | none ↦ true
      | some n ↦ if int_less m n then true else if int_less n m then false else string_less a b
    ]
  ]

  -- Sorted
  unfoldable pub sorted : List String → List String
  unfolding less sort
  sorted keys = sort less keys
