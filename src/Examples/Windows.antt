-- ===== src/Examples/Windows.antt =====
-- An account with a full 5h window, a 7d window and one window for a model.
use cswap.Base.{String, ◌≡◌, refl, true, false, none, some, List, [], ◌∷◌, All, Any}
use cswap.Examples.Numerals.{naturals}
use cswap.Numbers.Order.{AtMost}
use cswap.Usage.{RawUsage, Usage, new_usage, relevant_windows, account_headroom}
use cswap.Usage.Windows.{Binds, account_headroom-Binds}
use cswap.Usage.PollPolicy.{PlanInput, raw_windows, plan_after_fetch, raw_headroom}
use cswap.Usage.PollPolicy.Equivalence.{raw_windows-relevant_windows}
use cswap.Usage.PollPolicy.Plan.{plan_after_fetch-AtLeast}
use cswap.Usage.PollPolicy.Resets.{NotBeforeReset, plan_after_fetch-WithinReset}

abbrev pub raw : RawUsage naturals
raw = record {
  five_hour = some (record { name = none; pct = some 100; resets_at = "soon" });
  seven_day = some (record { name = none; pct = some 40; resets_at = "late" });
  scoped = some (record { name = some "opus"; pct = some 70; resets_at = "" }) ∷ none ∷ [];
}

abbrev models : List String
models = "opus" ∷ []

abbrev typed : Usage naturals
typed = record {
  five_hour = some (record { pct = 100; resets_at = "soon" });
  seven_day = some (record { pct = 40; resets_at = "late" });
  scoped = record { name = "opus"; pct = 70; resets_at = "" } ∷ [];
}

new_usage-raw : new_usage naturals raw ≡ typed
unfolding new_usage
new_usage-raw = refl

account_headroom-Binds_example :
    Any
      (Binds naturals (relevant_windows naturals models typed) 0)
      (relevant_windows naturals models typed)
unfolding account_headroom
account_headroom-Binds_example = (account_headroom-Binds naturals models typed).0 0 refl

raw_windows-relevant_windows_example :
    raw_windows naturals models (some raw)
    ≡ relevant_windows naturals models (new_usage naturals raw)
raw_windows-relevant_windows_example =
    raw_windows-relevant_windows naturals models raw (refl, (tt, tt))

abbrev input : PlanInput naturals
input = record {
  prev_interval = some 200;
  prev_usage = none;
  new_usage = some raw;
  is_active = false;
  threshold = 90;
  models = models;
  recent_429 = true;
  now = 100;
}

plan_after_fetch-AtLeast_example : AtMost naturals 360 (plan_after_fetch naturals 0 input).1
plan_after_fetch-AtLeast_example = (plan_after_fetch-AtLeast naturals 0 input).2 refl

plan_after_fetch-WithinReset_example :
    All
      (NotBeforeReset naturals (plan_after_fetch naturals 0 input).0)
      (raw_windows naturals models input.new_usage)
unfolding raw_headroom
plan_after_fetch-WithinReset_example = (plan_after_fetch-WithinReset naturals 0 input).1 0 refl refl
