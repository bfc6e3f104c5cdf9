-- ===== src/Usage/Store/Rows.antt =====
-- What the locked passes do to the rows, and that a claimed slot is not won twice.
use mathlib.Core.Path.{subst}
use cswap.Base.{
  String, ◌≡◌, refl, sym, ap, ◌∙◌, Bool, true, false, Option, none, some, List, [], ◌∷◌, All, ◌&&◌,
  if◌then◌else◌, All-keep, Any, keep, Bool-cases, inl, inr, str_eq, str_eq_iff,
}
use cswap.Numbers.{Numbers}
use cswap.Usage.Store.{
  mutate, Luck, Row, Rows, Identity, matches, fresh_row, guarded, put, stamp, change_rows,
  email_matches, org_matches,
}

pub str_eq_refl : (s : String) → str_eq s s ≡ true
str_eq_refl s = (str_eq_iff s s).1 refl

module _ (N : Numbers) where
  open N use {Num, less, sub}

  pub put_same : (num : String) (r : Row N) (rows : Rows N) → put N num r rows num ≡ some r
  unfolding put
  put_same num r rows = rw (str_eq_refl num) refl

  pub put_other :
      (num k : String) (r : Row N) (rows : Rows N)
      → str_eq k num ≡ false
      → put N num r rows k ≡ rows k
  unfolding put
  put_other num k r rows h = rw h refl

  pub guarded-matches :
      (o : Option (Row N)) (id : Identity) → matches N (some (guarded N o id)) id ≡ true
  unfolding guarded matches fresh_row email_matches org_matches
  guarded-matches none id = rw (str_eq_refl id.email, str_eq_refl id.org_uuid) refl
  guarded-matches (some r) id = elim (Bool-cases (matches N (some r) id)) [
    | inl t ↦ rw t t
    | inr f ↦ rw (f, str_eq_refl id.email, str_eq_refl id.org_uuid) refl
  ]

  -- The slot holds its account's row, claimed at `now`.
  abbrev pub ClaimedAt : Num → (String → Identity) → String → Rows N → Type 0
  ClaimedAt now ids num rows =
      (r : Row N) × (rows num ≡ some r)
      × (matches N (some r) (ids num) ≡ true)
      × (r.last_attempt_at ≡ some now)

  pub stamped-ClaimedAt :
      (now : Num) (ids : String → Identity) (num : String) (rows : Rows N)
      → ClaimedAt now ids num (put N num (stamp N now (guarded N (rows num) (ids num))) rows)
  unfolding stamp matches
  stamped-ClaimedAt now ids num rows =
      (_, put_same num _ rows, guarded-matches (rows num) (ids num), refl)

  -- A further claim at the same time keeps the slot claimed.
  pub claimed_put :
      (now : Num) (ids : String → Identity) (num k : String) (rows : Rows N)
      → ClaimedAt now ids num rows
      → ClaimedAt now ids num (put N k (stamp N now (guarded N (rows k) (ids k))) rows)
  claimed_put now ids num k rows h = elim (Bool-cases (str_eq num k)) [
    | inl t ↦
        let same : num ≡ k = (str_eq_iff num k).0 t in
        subst (λ c. ClaimedAt now ids num (put N c (stamp N now (guarded N (rows c) (ids c))) rows))
          same (stamped-ClaimedAt now ids num rows)
    | inr f ↦ let (r, e, m, l) = h in (r, put_other k num _ rows f ∙ e, m, l)
  ]

-- No key is listed twice.
abbrev pub Distinct : List String → Type 0
Distinct [] = Unit
Distinct (x ∷ xs) = All (λ c. str_eq x c ≡ false) xs × Distinct xs

pub Distinct-keep : (p : String → Bool) (xs : List String) → Distinct xs → Distinct (keep p xs)
Distinct-keep p [] h = tt
Distinct-keep p (x ∷ xs) h = elim (Bool-cases (p x)) [
  | inl t ↦ simp t (All-keep p (λ c. str_eq x c ≡ false) xs h.0, Distinct-keep p xs h.1)
  | inr f ↦ simp f (Distinct-keep p xs h.1)
]

-- A key that differs from all those listed is not listed.
apart :
    (k num : String) (xs : List String)
    → All (λ c. str_eq k c ≡ false) xs
    → Any (λ c. c ≡ num) xs
    → str_eq num k ≡ false
apart k num [] h a = elim a [ ]
apart k num (x ∷ xs) h (inl e) = elim (Bool-cases (str_eq num k)) [
  | inr f ↦ f
  | inl t ↦ let same : k ≡ x = sym (e ∙ (str_eq_iff num k).0 t) in cc (h.0, (str_eq_iff k x).1 same)
]
apart k num (x ∷ xs) h (inr a) = apart k num xs h.1 a

module _ (N : Numbers) (change : String → Row N → Row N) (ids : String → Identity) where
  pub change_rows_other :
      (nums : List String) (rows : Rows N) (num : String)
      → All (λ c. str_eq num c ≡ false) nums
      → change_rows N change ids nums rows num ≡ rows num
  unfolding change_rows
  change_rows_other [] rows num h = refl
  change_rows_other (k ∷ nums) rows num h =
      change_rows_other nums _ num h.1 ∙ put_other N k num _ rows h.0

  pub change_rows_at :
      (nums : List String) (rows : Rows N) (num : String)
      → Distinct nums
      → Any (λ c. c ≡ num) nums
      → change_rows N change ids nums rows num ≡ some (change num (guarded N (rows num) (ids num)))
  unfolding change_rows
  change_rows_at [] rows num d a = elim a [ ]
  change_rows_at (k ∷ nums) rows num d (inl e) =
      subst
        (λ c.
          change_rows N change ids (k ∷ nums) rows c ≡ some (change c (guarded N (rows c) (ids c))))
        e (change_rows_other nums _ k d.0 ∙ put_same N k _ rows)
  change_rows_at (k ∷ nums) rows num d (inr a) =
      let same =
        put_other N k num (change k (guarded N (rows k) (ids k))) rows (apart k num nums d.0 a) in
      change_rows_at nums _ num d.1 a ∙ ap (λ o. some (change num (guarded N o (ids num)))) same

bool_clash : false ≡ true → ⊥
bool_clash h = cc

-- The slot is among those that a pass changes.
abbrev pub is_listed : List String → String → Bool
is_listed [] num = false
is_listed (c ∷ cs) num = if str_eq num c then true else is_listed cs num

is_listed-Any : (cs : List String) (num : String) → is_listed cs num ≡ true → Any (λ c. c ≡ num) cs
is_listed-Any [] num h = absurd (bool_clash h)
is_listed-Any (c ∷ cs) num h = elim (Bool-cases (str_eq num c)) [
  | inl t ↦ inl (sym ((str_eq_iff num c).0 t))
  | inr f ↦ inr (is_listed-Any cs num (simp f at h))
]

unlisted-All :
    (cs : List String) (num : String)
    → is_listed cs num ≡ false
    → All (λ c. str_eq num c ≡ false) cs
unlisted-All [] num h = tt
unlisted-All (c ∷ cs) num h = elim (Bool-cases (str_eq num c)) [
  | inl t ↦ cc (simp t at h)
  | inr f ↦ (f, unlisted-All cs num (simp f at h))
]

-- The abstract table is one cell for each slot. A locked pass over distinct slots that takes the
-- lock and writes changes each listed cell once, from its account's own row or a fresh one, and no
-- other cell; one that does not returns an error and changes nothing.
pub mutate_pointwise :
    (N : Numbers) (luck : Luck) (ids : String → Identity) (nums : List String)
    (change : String → Row N → Row N) (rows : Rows N) (num : String)
    → Distinct nums
    → ((mutate N luck ids nums change rows).0 ≡ (luck.locked && luck.written))
      × ((mutate N luck ids nums change rows).1 num ≡ (
          if luck.locked && luck.written
          then if is_listed nums num
            then some (change num (guarded N (rows num) (ids num)))
            else rows num
          else rows num))
unfolding mutate
mutate_pointwise N luck ids nums change rows num d =
    elim (Bool-cases (luck.locked && luck.written)) [
      | inr f ↦ simp f (refl, refl)
      | inl t ↦ elim (Bool-cases (is_listed nums num)) [
        | inl y ↦
            simp (t, y)
              (refl, change_rows_at N change ids nums rows num d (is_listed-Any nums num y))
        | inr n ↦
            simp (t, n)
              (refl, change_rows_other N change ids nums rows num (unlisted-All nums num n))
      ]
    ]
