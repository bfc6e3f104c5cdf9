-- ===== src/Usage/PollPolicy/Resets.antt =====
-- How the next poll stands to the resets of the account's windows (internal/usage/pollpolicy.go:
-- PlanAfterFetch, limitingResetTS, earliestFutureResetTS).
use cswap.Base.{
  ◌≡◌, refl, sym, true, false, Option, none, some, List, All, All-map, Bool-cases, inl, inr,
  some-injective,
}
use mathlib.Core.Path.{subst}
use cswap.Numbers.{Numbers}
use cswap.Numbers.Order.{AtMost, AtMost-trans, min_lower}
use cswap.Usage.{RelevantWindow, parse_reset_ts}
use cswap.Usage.PollPolicy.Scans.{
  Under, Over, ResetsAhead, FullUntil, earliest_ahead-Under, latest_full-Over,
}
use cswap.Usage.PollPolicy.{
  PlanInput, raw_windows, raw_headroom, latest_full, raw_limiting_reset, earliest_ahead,
  earliest_future_reset, interval_of, jittered, at_limit, not_before, not_after, plan_after_fetch,
}

module _ (N : Numbers) where
  open N use {Num, less, add, ratio}

  not_after-AtMost :
      (next : Num) (o : Option Num) (t : Num)
      → Under N o t
      → AtMost N (not_after N next o) (add t (ratio 60 1))
  unfolding not_after
  not_after-AtMost next none t (r, e, h) = cc
  not_after-AtMost next (some s) t (r, e, h) =
      AtMost-trans N _ (add s (ratio 60 1)) _ (min_lower N next (add s (ratio 60 1))).1
        (N.add_monotone s t 60 (subst (λ z. AtMost N z t) (sym (some-injective s r e)) h))

  not_before-AtMost :
      (next : Num) (o : Option Num) (t : Num) → Over N o t → AtMost N t (not_before N next o)
  unfolding not_before
  not_before-AtMost next none t (r, e, h) = cc
  not_before-AtMost next (some s) t (r, e, h) =
      let h' : AtMost N t s = subst (AtMost N t) (sym (some-injective s r e)) h in
      elim (Bool-cases (less next s)) [
        | inl b ↦ rw b h'
        | inr b ↦ rw b (AtMost-trans N t s next h' b)
      ]

  -- The next poll is at most 60 seconds after the window's reset, where that is ahead.
  abbrev pub SoonAfterReset : Num → Num → RelevantWindow N → Type 0
  SoonAfterReset now next w =
      (t : Num)
      → parse_reset_ts N w.resets_at ≡ some t
      → less now t ≡ true
      → AtMost N next (add t (ratio 60 1))

  -- The next poll is not before the reset of the window, where that is full.
  abbrev pub NotBeforeReset : Num → RelevantWindow N → Type 0
  NotBeforeReset next w =
      (t : Num)
      → less w.pct (ratio 100 1) ≡ false
      → parse_reset_ts N w.resets_at ≡ some t
      → AtMost N t next

  module _ (random : Num) (i : PlanInput N) where
    abbrev windows : List (RelevantWindow N)
    windows = raw_windows N i.models i.new_usage

    abbrev next_poll : Num
    next_poll = (plan_after_fetch N random i).0

    at_limit-headroom :
        (o : Option Num)
        → ((h : Num) → o ≡ some h → less (ratio 0 1) h ≡ true)
        → at_limit N o ≡ false
    unfolding at_limit
    at_limit-headroom none f = refl
    at_limit-headroom (some h) f = rw (f h refl) refl

    next_left :
        at_limit N (raw_headroom N i.models i.new_usage) ≡ false
        → next_poll
          ≡ not_after N
              (jittered N i random (interval_of N i))
              (earliest_ahead N i.now none windows)
    unfolding plan_after_fetch earliest_future_reset
    next_left e = rw (next_poll, e) refl

    next_exhausted :
        (h : Num)
        → raw_headroom N i.models i.new_usage ≡ some h
        → less (ratio 0 1) h ≡ false
        → next_poll
          ≡ not_before N (jittered N i random (interval_of N i)) (latest_full N none windows)
    unfolding plan_after_fetch raw_limiting_reset at_limit
    next_exhausted h e none_left = rw (next_poll, e, none_left) refl

    -- While some headroom is left, or it is unknown, the next poll is at most 60 seconds after the
    -- reset of every relevant window whose reset is known and ahead. With none left, it is not
    -- before the known reset of any relevant window that is full.
    pub plan_after_fetch-WithinReset :
        (((h : Num) → raw_headroom N i.models i.new_usage ≡ some h → less (ratio 0 1) h ≡ true)
          → All (SoonAfterReset i.now next_poll) windows)
        × ((h : Num)
            → raw_headroom N i.models i.new_usage ≡ some h
            → less (ratio 0 1) h ≡ false
            → All (NotBeforeReset next_poll) windows)
    plan_after_fetch-WithinReset =
        let next = jittered N i random (interval_of N i) in
        (
          λ some_left.
              subst (λ z. All (SoonAfterReset i.now z) windows)
                (sym (next_left (at_limit-headroom _ some_left)))
                (All-map
                  (λ w.
                    (t : Num)
                    → ResetsAhead N i.now w t
                    → Under N (earliest_ahead N i.now none windows) t)
                  (SoonAfterReset i.now (not_after N next (earliest_ahead N i.now none windows)))
                  (λ w f t e h.
                    not_after-AtMost next (earliest_ahead N i.now none windows) t (f t (e, h)))
                  windows (earliest_ahead-Under N i.now none windows).1),
          λ h e none_left.
              subst (λ z. All (NotBeforeReset z) windows) (sym (next_exhausted h e none_left))
                (All-map (λ w. (t : Num) → FullUntil N w t → Over N (latest_full N none windows) t)
                  (NotBeforeReset (not_before N next (latest_full N none windows)))
                  (λ w f t full e'.
                    not_before-AtMost next (latest_full N none windows) t (f t (full, e')))
                  windows (latest_full-Over N none windows).1),
        )
