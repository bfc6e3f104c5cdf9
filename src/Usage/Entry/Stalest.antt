-- ===== src/Usage/Entry/Stalest.antt =====
-- When an account may be polled, and which of two comes first, in the terms of its row; the code is
-- DueCandidate of internal/usage/entry.go.
use cswap.Base.{
  String, ◌≡◌, refl, sym, Bool, true, false, not, ◌&&◌, Option, none, some, str_eq, str_eq_iff,
  if◌then◌else◌, leb, some-injective, arith,
}
use mathlib.Core.Path.{subst}
use cswap.Numbers.{Numbers}
use cswap.Numbers.Order.{AtMost}
use cswap.Usage.Entry.{UsageEntry, DueRow, pollable, never_fetched, row_less, ahead}

module _ (N : Numbers) (now : N.Num) where
  open N use {Num, less}

  -- The time is not ahead.
  abbrev pub Reached : Option Num → Type 0
  Reached o = (t : Num) → o ≡ some t → AtMost N t now

  -- The entry is no sentinel, its token is not dead, and its backoff and its planned time are over.
  pub record MayPoll (e : UsageEntry N) : Type 0 where
    pub no_sentinel : e.sentinel ≡ ""
    pub alive : e.auth_dead_strikes ≡ 0
    pub rested : Reached e.backoff_until
    pub waited : Reached e.next_poll_at

  ahead-Reached : (o : Option Num) → ahead N now o ≡ false → Reached o
  unfolding ahead
  ahead-Reached none h t e = cc
  ahead-Reached (some a) h t e = subst (λ z. less now z ≡ false) (some-injective a t e) h

  Reached-ahead : (o : Option Num) → Reached o → ahead N now o ≡ false
  unfolding ahead
  Reached-ahead none h = refl
  Reached-ahead (some a) h = h a refl

  not_all :
      (a b c d : Bool)
      → (a && (not b && (not c && not d))) ≡ true
      → (a ≡ true) × (b ≡ false) × (c ≡ false) × (d ≡ false)
  not_all true false false false h = (refl, refl, refl, refl)
  not_all true false false true h = cc
  not_all true false true d h = cc
  not_all true true c d h = cc
  not_all false b c d h = cc

  pub pollable-MayPoll : (e : UsageEntry N) → pollable N e now ≡ true → MayPoll e
  unfolding pollable
  pollable-MayPoll e h =
      let (sentinel, alive, rested, waited) =
        not_all (str_eq e.sentinel "") (leb 1 e.auth_dead_strikes) (ahead N now e.backoff_until)
          (ahead N now e.next_poll_at) h in
      record {
        no_sentinel = (str_eq_iff e.sentinel "").0 sentinel;
        alive = ground arith;
        rested = ahead-Reached e.backoff_until rested;
        waited = ahead-Reached e.next_poll_at waited;
      }

  pub MayPoll-pollable : (e : UsageEntry N) → MayPoll e → pollable N e now ≡ true
  unfolding pollable
  MayPoll-pollable e h =
      let sentinel = (str_eq_iff e.sentinel "").1 h.no_sentinel in
      let alive = h.alive in
      rw
        (
          sentinel,
          alive,
          Reached-ahead e.backoff_until h.rested,
          Reached-ahead e.next_poll_at h.waited,
        )
        refl

  module _ (string_less : String → String → Bool) where
    -- Of two candidates with the times of their last fetches, the first may be chosen: it was never
    -- fetched and the other was, or it was fetched no later than the other; in a tie its number is
    -- not behind.
    pub record FirstOf (num : String) (at : Option Num) (other : String) (other_at : Option Num)
        : Type 0 where
      pub fetched :
          (t : Num)
          → at ≡ some t
          → (u : Num) × (other_at ≡ some u)
            × AtMost N t u
            × (AtMost N u t → string_less other num ≡ false)
      pub never : at ≡ none → other_at ≡ none → string_less other num ≡ false

    -- The row of a candidate with the time of its last fetch.
    unfoldable pub row_of : String → Option Num → DueRow N
    row_of num none = never_fetched N num
    row_of num (some t) = record { rank = 1; at = t; num = num }

    pub row_of-FirstOf :
        (num other : String) (x y : Option Num)
        → row_less N string_less (row_of other y) (row_of num x) ≡ false
        → FirstOf num x other y
    unfolding row_of row_less never_fetched
    row_of-FirstOf num other none none h = record {
      fetched = λ t e. cc;
      never = λ e d. names _ refl h;
    }
      where
        names :
            (b : Bool)
            → less (N.ratio 0 1) (N.ratio 0 1) ≡ b
            → (if b then true else if b then false else string_less other num) ≡ false
            → string_less other num ≡ false
        names true e h = cc
        names false e h = h
    row_of-FirstOf num other none (some u) h = record { fetched = λ t e. cc; never = λ e d. cc }
    row_of-FirstOf num other (some t) none h = cc
    row_of-FirstOf num other (some t) (some u) h = record {
      fetched = λ v e. (
        u,
        refl,
        subst (λ z. AtMost N z u) (some-injective t v e) (ground (arith, h)),
        λ back.
            let back' : AtMost N u t =
              subst (λ z. AtMost N u z) (sym (some-injective t v e)) back in
            ground (arith, h),
      );
      never = λ e d. cc;
    }
