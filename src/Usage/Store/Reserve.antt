-- ===== src/Usage/Store/Reserve.antt =====
-- A slot that Reserve won is not won again while the claim holds.
use mathlib.Core.Path.{subst}
use cswap.Base.{
  ◌⊎◌, String, ◌≡◌, refl, sym, Bool, true, false, ◌&&◌, Option, none, some, List, [], ◌∷◌,
  if◌then◌else◌, Any, Bool-cases, inl, inr, str_eq, str_eq_iff,
}
use cswap.Numbers.{Numbers}
use cswap.Usage.Entry.{claim_holds}
use cswap.Usage.Store.{
  Row, Rows, Identity, Luck, matches, guarded, put, stamp, row_eligible, refused, reserve_rows,
  settle, reserve,
}
use cswap.Usage.Store.Rows.{ClaimedAt, stamped-ClaimedAt, claimed_put, put_other}

module _ (N : Numbers) where
  open N use {Num}

  module _ (now : Num) (plans : Bool) (ids : String → Identity) where
    -- The table after the first slot is won.
    abbrev won_first : String → Rows N → Rows N
    won_first k rows = put N k (stamp N now (guarded N (rows k) (ids k))) rows

    reserve_rows_skip :
        (k : String) (nums : List String) (rows : Rows N)
        → refused N (rows k) (ids k) now plans ≡ true
        → reserve_rows N now plans ids (k ∷ nums) rows ≡ reserve_rows N now plans ids nums rows
    unfolding reserve_rows
    reserve_rows_skip k nums rows h = rw h refl

    reserve_rows_win :
        (k : String) (nums : List String) (rows : Rows N)
        → refused N (rows k) (ids k) now plans ≡ false
        → reserve_rows N now plans ids (k ∷ nums) rows ≡ (
          k ∷ (reserve_rows N now plans ids nums (won_first k rows)).0,
          (reserve_rows N now plans ids nums (won_first k rows)).1,
        )
    unfolding reserve_rows
    reserve_rows_win k nums rows h = rw h refl

    reserve_rows-keeps :
        (num : String) (nums : List String) (rows : Rows N)
        → ClaimedAt N now ids num rows
        → ClaimedAt N now ids num (reserve_rows N now plans ids nums rows).1
    unfolding reserve_rows
    reserve_rows-keeps num [] rows h = h
    reserve_rows-keeps num (k ∷ nums) rows h =
        elim (Bool-cases (refused N (rows k) (ids k) now plans)) [
          | inl t ↦
              subst (λ p. ClaimedAt N now ids num p.1) (sym (reserve_rows_skip k nums rows t))
                (reserve_rows-keeps num nums rows h)
          | inr f ↦
              subst (λ p. ClaimedAt N now ids num p.1) (sym (reserve_rows_win k nums rows f))
                (reserve_rows-keeps num nums (won_first k rows)
                  (claimed_put N now ids num k rows h))
        ]

    -- A slot that is won is claimed in the end.
    reserve_rows-ClaimedAt :
        (num : String) (nums : List String) (rows : Rows N)
        → Any (λ c. c ≡ num) (reserve_rows N now plans ids nums rows).0
        → ClaimedAt N now ids num (reserve_rows N now plans ids nums rows).1
    unfolding reserve_rows
    reserve_rows-ClaimedAt num [] rows h = elim h [ ]
    reserve_rows-ClaimedAt num (k ∷ nums) rows h =
        elim (Bool-cases (refused N (rows k) (ids k) now plans)) [
          | inl t ↦
              let same = reserve_rows_skip k nums rows t in
              subst (λ p. ClaimedAt N now ids num p.1) (sym same)
                (reserve_rows-ClaimedAt num nums rows (subst (λ p. Any (λ c. c ≡ num) p.0) same h))
          | inr f ↦
              let same = reserve_rows_win k nums rows f in
              let h' : (k ≡ num)
                  ⊎ Any (λ c. c ≡ num) (reserve_rows N now plans ids nums (won_first k rows)).0 =
                subst (λ p. Any (λ c. c ≡ num) p.0) same h in
              subst (λ p. ClaimedAt N now ids num p.1) (sym same)
                (elim h' [
                  | inl e ↦ reserve_rows-keeps num nums (won_first k rows) (
                      subst (λ c. ClaimedAt N now ids c (won_first k rows)) e
                        (stamped-ClaimedAt N now ids k rows))
                  | inr a ↦ reserve_rows-ClaimedAt num nums (won_first k rows) a
                ])
        ]

    -- A slot that is refused at the start is not won.
    reserve_rows-refused :
        (num : String) (nums : List String) (rows : Rows N)
        → refused N (rows num) (ids num) now plans ≡ true
        → Any (λ c. c ≡ num) (reserve_rows N now plans ids nums rows).0
        → ⊥
    unfolding reserve_rows
    reserve_rows-refused num [] rows h a = elim a [ ]
    reserve_rows-refused num (k ∷ nums) rows h a =
        elim (Bool-cases (refused N (rows k) (ids k) now plans)) [
          | inl t ↦
              reserve_rows-refused num nums rows h
                (subst (λ p. Any (λ c. c ≡ num) p.0) (reserve_rows_skip k nums rows t) a)
          | inr f ↦
              let a' : (k ≡ num)
                  ⊎ Any (λ c. c ≡ num) (reserve_rows N now plans ids nums (won_first k rows)).0 =
                subst (λ p. Any (λ c. c ≡ num) p.0) (reserve_rows_win k nums rows f) a in
              elim a' [
                | inl e ↦
                    differ f (subst (λ c. refused N (rows c) (ids c) now plans ≡ true) (sym e) h)
                | inr b ↦
                    reserve_rows-refused num nums (won_first k rows)
                      (subst (λ o. refused N o (ids num) now plans ≡ true)
                        (sym (put_other N k num _ rows (apart k f))) h)
                      b
              ]
        ]
      where
        differ : {x : Bool} → x ≡ false → x ≡ true → ⊥
        differ p q = cc

        apart : (k : String) → refused N (rows k) (ids k) now plans ≡ false → str_eq num k ≡ false
        apart k f = elim (Bool-cases (str_eq num k)) [
          | inr g ↦ g
          | inl t ↦ absurd (
              differ f (
                subst (λ c. refused N (rows c) (ids c) now plans ≡ true) ((str_eq_iff num k).0 t)
                  h))
        ]

  row_eligible_claimed :
      (r : Row N) (now t : Num) (plans : Bool)
      → r.last_attempt_at ≡ some now
      → claim_holds N t (some now) ≡ true
      → row_eligible N r t plans ≡ false
  unfolding row_eligible
  row_eligible_claimed r now t plans l c = rw (l, c) (go _ _)
    where
      go : (a b : Bool) → (if a then false else if b then false else false) ≡ false
      go true b = refl
      go false true = refl
      go false false = refl

  refused_claimed :
      (o : Option (Row N)) (id : Identity) (now t : Num) (plans : Bool) (r : Row N)
      → o ≡ some r
      → matches N (some r) id ≡ true
      → r.last_attempt_at ≡ some now
      → claim_holds N t (some now) ≡ true
      → refused N o id t plans ≡ true
  unfolding refused
  refused_claimed o id now t plans r e m l c =
      rw (e, m, row_eligible_claimed r now t plans l c) refl

  -- The slots that a call of Reserve returns.
  abbrev pub Won : Option (List String) → String → Type 0
  Won o num = elim o [ none ↦ ⊥ | some won ↦ Any (λ c. c ≡ num) won ]

  settle-Won :
      (luck : Luck) (rows : Rows N) (won : List String) (after : Rows N) (num : String)
      → Won (settle N luck rows won after).0 num
      → Any (λ c. c ≡ num) won × ((settle N luck rows won after).1 ≡ after)
  unfolding settle
  settle-Won luck rows [] after num h = elim (Bool-cases luck.locked) [
    | inl t ↦ elim (rw t at h) [ ]
    | inr f ↦ elim (rw f at h) [ ]
  ]
  settle-Won luck rows (w ∷ ws) after num h = elim (Bool-cases (luck.locked && luck.written)) [
    | inl t ↦ rw t (rw t at h, refl)
    | inr f ↦ elim (rw f at h) [ ]
  ]

  module _ (luck : Luck) (now : Num) (plans : Bool) (ids : String → Identity) where
    reserve-ClaimedAt :
        (nums : List String) (rows : Rows N) (num : String)
        → Won (reserve N luck now plans ids nums rows).0 num
        → ClaimedAt N now ids num (reserve N luck now plans ids nums rows).1
    unfolding reserve
    reserve-ClaimedAt [] rows num w = elim w [ ]
    reserve-ClaimedAt (n ∷ ns) rows num w =
        let p = reserve_rows N now plans ids (n ∷ ns) rows in
        let (a, same) = settle-Won luck rows p.0 p.1 num w in
        subst (ClaimedAt N now ids num) (sym same)
          (reserve_rows-ClaimedAt now plans ids num (n ∷ ns) rows a)

    reserve-refused :
        (nums : List String) (rows : Rows N) (num : String)
        → refused N (rows num) (ids num) now plans ≡ true
        → Won (reserve N luck now plans ids nums rows).0 num
        → ⊥
    unfolding reserve
    reserve-refused [] rows num h w = elim w [ ]
    reserve-refused (n ∷ ns) rows num h w =
        let p = reserve_rows N now plans ids (n ∷ ns) rows in
        reserve_rows-refused now plans ids num (n ∷ ns) rows h
          (settle-Won luck rows p.0 p.1 num w).0

  -- A slot that Reserve returned is not returned by a second call, on the table that the first one
  -- left and for the same identity, less than 10 seconds after it.
  pub reserve-once :
      (luck luck' : Luck) (now later : Num) (plans plans' : Bool) (ids : String → Identity)
      (nums nums' : List String) (rows : Rows N) (num : String)
      → Won (reserve N luck now plans ids nums rows).0 num
      → claim_holds N later (some now) ≡ true
      → Won
          (reserve N luck' later plans' ids nums' (reserve N luck now plans ids nums rows).1).0
          num
      → ⊥
  reserve-once luck luck' now later plans plans' ids nums nums' rows num w c again =
      let (r, e, m, l) = reserve-ClaimedAt luck now plans ids nums rows num w in
      reserve-refused luck' later plans' ids nums' _ num
        (refused_claimed _ (ids num) now later plans' r e m l c) again
