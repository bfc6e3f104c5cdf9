-- ===== src/Roster.antt =====
-- The account roster, sequence.json: internal/store/sequence.go and the readers of
-- internal/store/identity.go. A slot key is the decimal form of its number, and the model keeps
-- the number; a record's string field that is absent is "".
pub mod Numbers
pub mod Identity
use cswap.Base.{
  ℕ, ◌+◌, ◌<◌, String, Bool, true, false, not, ◌&&◌, Option, none, some, List, [], ◌∷◌, leb, ltb,
  ◌==◌, str_eq, if◌then◌else◌, keep, contains,
}

pub record Account : Type 0 where
  pub email : String
  pub alias_name : String
  pub uuid : String
  pub organization_uuid : String
  pub kind : String
  pub disabled : Bool

pub record SequenceData : Type 0 where
  pub active_account_number : Option ℕ
  pub last_updated : String
  pub sequence : List ℕ
  pub accounts : List (ℕ × Account)

-- data.Accounts[num]
unfoldable pub lookup : ℕ → List (ℕ × Account) → Option Account
lookup num [] = none
lookup num ((k, rec) ∷ rest) = if k == num then some rec else lookup num rest

-- data.Accounts[num] = rec
unfoldable pub assign : ℕ → Account → List (ℕ × Account) → List (ℕ × Account)
assign num rec [] = (num, rec) ∷ []
assign num rec ((k, old) ∷ rest) =
    if k == num then (num, rec) ∷ rest else (k, old) ∷ assign num rec rest

unfoldable pub record_for : Option SequenceData → ℕ → Option Account
record_for none num = none
record_for (some sd) num = lookup num sd.accounts

unfoldable pub keys : List (ℕ × Account) → List ℕ
keys [] = []
keys ((k, rec) ∷ rest) = k ∷ keys rest

insert_key : ℕ → List ℕ → List ℕ
insert_key k [] = k ∷ []
insert_key k (j ∷ js) = if leb k j then k ∷ j ∷ js else j ∷ insert_key k js

sort_keys : List ℕ → List ℕ
unfolding insert_key
sort_keys [] = []
sort_keys (k ∷ ks) = insert_key k (sort_keys ks)

-- The slot keys in ascending order.
unfoldable pub sorted_slot_keys : SequenceData → List ℕ
unfolding sort_keys keys
sorted_slot_keys sd = sort_keys (keys sd.accounts)

has_identity : String → String → Option Account → Bool
has_identity email org none = false
has_identity email org (some rec) = str_eq rec.email email && str_eq rec.organization_uuid org

unfoldable pub scan_identity : String → String → List (ℕ × Account) → List ℕ → Option ℕ
unfolding has_identity lookup
scan_identity email org accounts [] = none
scan_identity email org accounts (num ∷ rest) =
    if has_identity email org (lookup num accounts)
    then some num
    else scan_identity email org accounts rest

-- The slot of the composite identity (email, organizationUuid).
unfoldable pub find_account_slot : Option SequenceData → String → String → Option ℕ
unfolding scan_identity sorted_slot_keys
find_account_slot none email org = none
find_account_slot (some sd) email org = scan_identity email org sd.accounts (sorted_slot_keys sd)

max_key : ℕ → List ℕ → ℕ
max_key m [] = m
max_key m (k ∷ ks) = max_key (if ltb m k then k else m) ks

-- max(slot keys, default 0) + 1
unfoldable pub next_account_number_from : Option SequenceData → ℕ
unfolding max_key keys
next_account_number_from none = 1
next_account_number_from (some sd) = max_key 0 (keys sd.accounts) + 1

disabled_record : Option Account → Bool
disabled_record none = false
disabled_record (some rec) = rec.disabled

unfoldable pub disabled_from_data : Option SequenceData → ℕ → Bool
unfolding disabled_record record_for
disabled_from_data sd num = disabled_record (record_for sd num)

-- What a read of sequence.json finds.
pub data SequenceFile : Type 0 where
  absent : SequenceFile
  unreadable : SequenceFile
  parsed : SequenceData → SequenceFile

pub data RosterRead : Type 0 where
  roster : Option SequenceData → RosterRead
  corrupt : RosterRead

-- `none` is "no file": a fresh install.
unfoldable pub classified_roster : SequenceFile → RosterRead
classified_roster absent = roster none
classified_roster unreadable = corrupt
classified_roster (parsed sd) = roster (some sd)

unfoldable pub empty_sequence : String → SequenceData
empty_sequence now = record {
  active_account_number = none;
  last_updated = now;
  sequence = [];
  accounts = [];
}

or_empty : String → RosterRead → Option SequenceData
unfolding empty_sequence
or_empty now corrupt = none
or_empty now (roster none) = some (empty_sequence now)
or_empty now (roster (some sd)) = some sd

-- The read that a write starts from; `none` is the refusal of a corrupt file.
unfoldable pub sequence_for_update : String → SequenceFile → Option SequenceData
unfolding or_empty classified_roster
sequence_for_update now file = or_empty now (classified_roster file)
