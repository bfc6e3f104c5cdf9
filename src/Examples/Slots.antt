-- ===== src/Examples/Slots.antt =====
-- A roster with two accounts, whose slots are swapped and moved.
use cswap.Base.{◌≡◌, refl, false, some, [], ◌∷◌}
use cswap.Roster.{Account, SequenceData, lookup}
use cswap.Lifecycle.{relocated, swapped_slots}
use cswap.Lifecycle.Slots.{relocated-lookup, swapped_slots-twice}

abbrev ann : Account
ann = record {
  email = "ann@x";
  alias_name = "";
  uuid = "u1";
  organization_uuid = "";
  kind = "";
  disabled = false;
}

abbrev ben : Account
ben = record {
  email = "ben@x";
  alias_name = "";
  uuid = "u2";
  organization_uuid = "";
  kind = "";
  disabled = false;
}

abbrev both : SequenceData
both = record {
  active_account_number = some 1;
  last_updated = "";
  sequence = 1 ∷ 2 ∷ [];
  accounts = (1, ann) ∷ (2, ben) ∷ [];
}

swapped_slots-both : (swapped_slots 1 2 ann ben "later" both).active_account_number ≡ some 2
unfolding swapped_slots
swapped_slots-both = refl

relocated-lookup_example :
    lookup 5 (relocated 2 5 ben "later" both).accounts ≡ lookup 2 both.accounts
unfolding lookup
relocated-lookup_example = (relocated-lookup 2 5 ben "later" both refl refl).0

swapped_slots-twice_example :
    lookup 1 (swapped_slots 1 2 ben ann "b" (swapped_slots 1 2 ann ben "a" both)).accounts
    ≡ lookup 1 both.accounts
unfolding lookup
swapped_slots-twice_example = (swapped_slots-twice 1 2 ann ben "a" "b" both refl refl refl).1 1
