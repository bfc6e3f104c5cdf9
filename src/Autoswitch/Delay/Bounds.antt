-- ===== src/Autoswitch/Delay/Bounds.antt =====
-- How long the loop sleeps when every account is exhausted, blocked or idle.
use cswap.Base.{◌≡◌, true, none, some}
use cswap.Numbers.{Numbers}
use cswap.Numbers.Order.{max, AtMost, max_upper, min_lower, min_greatest}
use cswap.Autoswitch.{blocked, no_action}
use cswap.Autoswitch.Delay.{Waits, blocked_delay, next_delay}

module _ (N : Numbers) (interval now random : N.Num) (w : Waits N) where
  open N use {Num, sub, ratio}

  -- A blocked tick that knows when to wake up sleeps at most six hours, and not less than the
  -- interval or the time that is left where these are within six hours. One that is blocked for long
  -- without knowing it, and an idle hold, sleep at least five minutes and at least the interval.
  pub next_delay-AtLeast :
      ((t : Num)
        → w.sleep_until ≡ some t
        → AtMost N (next_delay N interval now random w blocked) (ratio 21600 1)
          × (AtMost N interval (ratio 21600 1)
              → AtMost N interval (next_delay N interval now random w blocked))
          × (AtMost N (sub t now) (ratio 21600 1)
              → AtMost N (sub t now) (next_delay N interval now random w blocked)))
      × (w.sleep_until ≡ none
          → w.blocked_wait_long ≡ true
          → AtMost N interval (next_delay N interval now random w blocked)
            × AtMost N (ratio 300 1) (next_delay N interval now random w blocked))
      × (w.idle_hold_slow ≡ true
          → AtMost N interval (next_delay N interval now random w no_action)
            × AtMost N (ratio 300 1) (next_delay N interval now random w no_action))
  unfolding next_delay blocked_delay
  next_delay-AtLeast = (
    λ t e.
        let (left, right) = max_upper N (sub t now) interval in
        rw e (
          (min_lower N (max N (sub t now) interval) (ratio 21600 1)).1,
          λ h. min_greatest N (max N (sub t now) interval) (ratio 21600 1) interval right h,
          λ h. min_greatest N (max N (sub t now) interval) (ratio 21600 1) (sub t now) left h,
        ),
    λ e b. rw (e, b) (max_upper N interval (ratio 300 1)),
    λ i. rw i (max_upper N interval (ratio 300 1)),
  )
