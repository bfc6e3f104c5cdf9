-- ===== src/Roster/Identity.antt =====
-- The identity lookup of internal/store/identity.go (FindAccountSlot).
use cswap.Base.{
  ℕ, ◌≤◌, String, ◌≡◌, refl, ◌∙◌, true, inl, inr, some, List, [], ◌∷◌, arith, ◌==◌, str_eq_iff,
  if◌then◌else◌, contains, Option-cases, Bool-cases,
}
use cswap.Roster.{
  Account, SequenceData, lookup, record_for, keys, insert_key, sort_keys, sorted_slot_keys,
  has_identity, scan_identity, find_account_slot,
}

-- What a found slot is: its record carries the identity.
pub record Owns (sd : SequenceData) (email org : String) (num : ℕ) : Type 0 where
  pub rec : Account
  pub stored : record_for (some sd) num ≡ some rec
  pub same_email : rec.email ≡ email
  pub same_org : rec.organization_uuid ≡ org

-- Ascending order, and a bound from below.
abbrev pub Above : ℕ → List ℕ → Type 0
Above m [] = Unit {0}
Above m (k ∷ ks) = (m ≤ k) × Above m ks

abbrev pub IsSorted : List ℕ → Type 0
IsSorted [] = Unit {0}
IsSorted (k ∷ ks) = Above k ks × IsSorted ks

Above-mono : (m n : ℕ) (ks : List ℕ) → m ≤ n → Above n ks → Above m ks
Above-mono m n [] h a = tt
Above-mono m n (k ∷ ks) h a = (omega arith, Above-mono m n ks h a.1)

insert_key-Above : (m k : ℕ) (ks : List ℕ) → m ≤ k → Above m ks → Above m (insert_key k ks)
unfolding insert_key
insert_key-Above m k [] h a = (h, tt)
insert_key-Above m k (j ∷ js) h a = ground (arith, insert_key-Above m k js h a.1)

insert_key-IsSorted : (k : ℕ) (ks : List ℕ) → IsSorted ks → IsSorted (insert_key k ks)
unfolding insert_key
insert_key-IsSorted k [] s = (tt, tt)
insert_key-IsSorted k (j ∷ js) s =
    ground (arith, insert_key-IsSorted k js s.1, insert_key-Above j k js, Above-mono k j js)

sort_keys-IsSorted : (ks : List ℕ) → IsSorted (sort_keys ks)
unfolding sort_keys
sort_keys-IsSorted [] = tt
sort_keys-IsSorted (k ∷ ks) = insert_key-IsSorted k (sort_keys ks) (sort_keys-IsSorted ks)

contains-insert_key :
    (a k : ℕ) (ks : List ℕ)
    → contains (insert_key k ks) a ≡ (if k == a then true else contains ks a)
unfolding insert_key
contains-insert_key a k [] = refl
contains-insert_key a k (j ∷ js) = ground (arith, contains-insert_key a k js)

contains-sort_keys : (a : ℕ) (ks : List ℕ) → contains (sort_keys ks) a ≡ contains ks a
unfolding sort_keys
contains-sort_keys a [] = refl
contains-sort_keys a (k ∷ ks) =
    ground (arith, contains-insert_key a k (sort_keys ks), contains-sort_keys a ks)

contains-keys :
    (a : ℕ) (rs : List (ℕ × Account)) (rec : Account)
    → lookup a rs ≡ some rec
    → contains (keys rs) a ≡ true
unfolding lookup keys
contains-keys a [] rec h = cc
contains-keys a ((k, old) ∷ rs) rec h = ground (arith, contains-keys a rs rec)

has_identity-Owns :
    (sd : SequenceData) (email org : String) (num : ℕ)
    → has_identity email org (lookup num sd.accounts) ≡ true
    → Owns sd email org num
unfolding has_identity
has_identity-Owns sd email org num h = elim (Option-cases (lookup num sd.accounts)) [
  | inl e ↦ absurd (ground arith)
  | inr (rec, e) ↦ record {
    rec = rec;
    stored = unfold record_for in e;
    same_email = ground (arith, str_eq_iff rec.email email);
    same_org = ground (arith, str_eq_iff rec.organization_uuid org);
  }
]

Owns-has_identity :
    (sd : SequenceData) (email org : String) (num : ℕ)
    → Owns sd email org num
    → has_identity email org (lookup num sd.accounts) ≡ true
unfolding has_identity record_for
Owns-has_identity sd email org num o =
    ground (arith, str_eq_iff o.rec.email email, str_eq_iff o.rec.organization_uuid org)

module _ (sd : SequenceData) (email org : String) where
  scan_identity_sound :
      (ks : List ℕ) (n : ℕ) → scan_identity email org sd.accounts ks ≡ some n → Owns sd email org n
  unfolding scan_identity
  scan_identity_sound [] n h = cc
  scan_identity_sound (k ∷ ks) n h =
      elim (Bool-cases (has_identity email org (lookup k sd.accounts))) [
        | inl hit ↦ let e : k ≡ n = ground arith in rw e at (has_identity-Owns sd email org k hit)
        | inr miss ↦ scan_identity_sound ks n (ground arith)
      ]

  -- A scanned slot that owns the identity is found, unless an earlier one is.
  scan_identity_least :
      (ks : List ℕ) (m : ℕ)
      → IsSorted ks
      → contains ks m ≡ true
      → Owns sd email org m
      → (n : ℕ) × (scan_identity email org sd.accounts ks ≡ some n) × (n ≤ m)
  unfolding scan_identity
  scan_identity_least [] m s c o = absurd (ground arith)
  scan_identity_least (k ∷ ks) m s c o =
      elim (Bool-cases (has_identity email org (lookup k sd.accounts))) [
        | inl hit ↦ (k, rw hit, Above-contains k m ks s.0 c)
        | inr miss ↦
            let found =
              scan_identity_least ks m s.1 (ground (arith, Owns-has_identity sd email org m o)) o in
            (found.0, rw miss found.1, found.2)
      ]
    where
      Above-contains :
          (k m : ℕ) (ks : List ℕ)
          → Above k ks
          → (if k == m then true else contains ks m) ≡ true
          → k ≤ m
      Above-contains k m [] a c = ground arith
      Above-contains k m (j ∷ js) a c = ground (arith, Above-contains k m js a.1)

-- The lookup of an identity answers exactly the smallest slot whose record carries it: what it
-- finds carries the email and the organization, and whenever some slot does, it finds one that is
-- not larger.
pub find_account_slot-exact :
    (sd : SequenceData) (email org : String)
    → ((n : ℕ) → find_account_slot (some sd) email org ≡ some n → Owns sd email org n)
      × ((m : ℕ)
          → Owns sd email org m
          → (n : ℕ) × (find_account_slot (some sd) email org ≡ some n) × (n ≤ m))
unfolding find_account_slot sorted_slot_keys
find_account_slot-exact sd email org = (
  λ n h. scan_identity_sound sd email org (sort_keys (keys sd.accounts)) n h,
  λ m o.
      scan_identity_least sd email org (sort_keys (keys sd.accounts)) m
        (sort_keys-IsSorted (keys sd.accounts))
        (contains-sort_keys m (keys sd.accounts)
          ∙ contains-keys m sd.accounts o.rec (unfold record_for in o.stored))
        o,
)
