-- ===== src/Usage/PollPolicy/Scans.antt =====
-- What the scans of the windows' resets end with (internal/usage/pollpolicy.go: limitingResetTS,
-- earliestFutureResetTS).
use cswap.Base.{
  ◌≡◌, refl, Bool, true, false, Option, none, some, List, [], ◌∷◌, if◌then◌else◌, All, Bool-cases,
  inl, inr, some-injective,
}
use cswap.Numbers.{Numbers}
use cswap.Numbers.Order.{AtMost, AtMost-refl, AtMost-trans, AtMost-less}
use cswap.Usage.{RelevantWindow, parse_reset_ts, later_of}
use cswap.Usage.PollPolicy.{latest_full, earlier_of, earliest_ahead}

module _ (N : Numbers) where
  open N use {Num, less, ratio}

  -- The known time is no later than `t`, and no earlier.
  abbrev pub Under : Option Num → Num → Type 0
  Under o t = (r : Num) × (o ≡ some r) × AtMost N r t

  abbrev pub Over : Option Num → Num → Type 0
  Over o t = (r : Num) × (o ≡ some r) × AtMost N t r

  module _ (now : Num) where
    -- The window resets at a known time that is still ahead.
    abbrev pub ResetsAhead : RelevantWindow N → Num → Type 0
    ResetsAhead w t = (parse_reset_ts N w.resets_at ≡ some t) × (less now t ≡ true)

    abbrev sooner : Option Num → Option Num → Option Num
    sooner p old = elim p [ none ↦ old | some t ↦ earlier_of N now old t ]

    sooner-Under :
        (p old : Option Num)
        → ((s : Num) → old ≡ some s → Under (sooner p old) s)
          × ((t : Num) → p ≡ some t → less now t ≡ true → Under (sooner p old) t)
    unfolding earlier_of
    sooner-Under none old = (λ s e. (s, e, AtMost-refl N s), λ t e h. cc)
    sooner-Under (some u) none = (
      λ s e. cc,
      λ t e h.
          let h' : less now u ≡ true = rw (some-injective u t e) h in
          rw h' (u, refl, rw (some-injective u t e) (AtMost-refl N t)),
    )
    sooner-Under (some u) (some v) = elim (Bool-cases (less now u)) [
      | inr f ↦ (
        λ s e. rw f (s, e, AtMost-refl N s),
        λ t e h. let h' : less now u ≡ true = rw (some-injective u t e) h in cc,
      )
      | inl a ↦ elim (Bool-cases (less u v)) [
        | inl b ↦ (
          λ s e. rw (a, b) (u, refl, rw (← some-injective v s e) (AtMost-less N u v b)),
          λ t e h. rw (a, b) (u, refl, rw (some-injective u t e) (AtMost-refl N t)),
        )
        | inr b ↦ (
          λ s e. rw (a, b) (v, refl, rw (some-injective v s e) (AtMost-refl N s)),
          λ t e h. rw (a, b) (v, refl, rw (← some-injective u t e) b),
        )
      ]
    ]

    Under-trans :
        (o p : Option Num) (s : Num) → ((r : Num) → p ≡ some r → Under o r) → Under p s → Under o s
    Under-trans o p s f (r, e, below) =
        let (q, d, below') = f r e in (q, d, AtMost-trans N q r s below' below)

    pub earliest_ahead-Under :
        (old : Option Num) (ws : List (RelevantWindow N))
        → ((s : Num) → old ≡ some s → Under (earliest_ahead N now old ws) s)
          × All (λ w. (t : Num) → ResetsAhead w t → Under (earliest_ahead N now old ws) t) ws
    unfolding earliest_ahead
    earliest_ahead-Under old [] = (λ s e. (s, e, AtMost-refl N s), tt)
    earliest_ahead-Under old (w ∷ ws) =
        let p = parse_reset_ts N w.resets_at in
        let (keeps, all) = earliest_ahead-Under (sooner p old) ws in
        let (first, second) = sooner-Under p old in
        (
          λ s e.
              Under-trans (earliest_ahead N now (sooner p old) ws) (sooner p old) s keeps
                (first s e),
          (
            λ t h.
                Under-trans (earliest_ahead N now (sooner p old) ws) (sooner p old) t keeps
                  (second t h.0 h.1),
            all,
          ),
        )

  -- The window is full and resets at a known time.
  abbrev pub FullUntil : RelevantWindow N → Num → Type 0
  FullUntil w t = (less w.pct (ratio 100 1) ≡ false) × (parse_reset_ts N w.resets_at ≡ some t)

  abbrev later : Bool → Option Num → Option Num → Option Num
  later below p old =
      if below then old else elim p [ none ↦ old | some t ↦ some (later_of N old t) ]

  later-Over :
      (below : Bool) (p old : Option Num)
      → ((s : Num) → old ≡ some s → Over (later below p old) s)
        × ((t : Num) → below ≡ false → p ≡ some t → Over (later below p old) t)
  unfolding later_of
  later-Over true p old = (λ s e. (s, e, AtMost-refl N s), λ t e d. cc)
  later-Over false none old = (λ s e. (s, e, AtMost-refl N s), λ t e d. cc)
  later-Over false (some u) none =
      (λ s e. cc, λ t e d. (u, refl, rw (some-injective u t d) (AtMost-refl N t)))
  later-Over false (some u) (some v) = elim (Bool-cases (less v u)) [
    | inl b ↦ rw b (
      λ s e. (u, refl, rw (← some-injective v s e) (AtMost-less N v u b)),
      λ t e d. (u, refl, rw (some-injective u t d) (AtMost-refl N t)),
    )
    | inr b ↦ rw b (
      λ s e. (v, refl, rw (some-injective v s e) (AtMost-refl N s)),
      λ t e d. (v, refl, rw (← some-injective u t d) b),
    )
  ]

  Over-trans :
      (o p : Option Num) (s : Num) → ((r : Num) → p ≡ some r → Over o r) → Over p s → Over o s
  Over-trans o p s f (r, e, above) =
      let (q, d, above') = f r e in (q, d, AtMost-trans N s r q above above')

  pub latest_full-Over :
      (old : Option Num) (ws : List (RelevantWindow N))
      → ((s : Num) → old ≡ some s → Over (latest_full N old ws) s)
        × All (λ w. (t : Num) → FullUntil w t → Over (latest_full N old ws) t) ws
  unfolding latest_full
  latest_full-Over old [] = (λ s e. (s, e, AtMost-refl N s), tt)
  latest_full-Over old (w ∷ ws) =
      let step = later (less w.pct (ratio 100 1)) (parse_reset_ts N w.resets_at) old in
      let (keeps, all) = latest_full-Over step ws in
      let (first, second) =
        later-Over (less w.pct (ratio 100 1)) (parse_reset_ts N w.resets_at) old in
      (
        λ s e. Over-trans (latest_full N step ws) step s keeps (first s e),
        (λ t h. Over-trans (latest_full N step ws) step t keeps (second t h.0 h.1), all),
      )
