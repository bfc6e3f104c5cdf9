-- ===== src/Examples/Ticks.antt =====
-- Ticks of the auto-switch engine over three accounts, the first of them active.
use cswap.Base.{
  String, ℕ, ◌≡◌, ◌≤◌, refl, true, false, Option, none, some, List, [], ◌∷◌, All, if◌then◌else◌,
  str_eq, ltb, Pairwise, arith,
}
use mathlib.Core.List.{Perm}
use cswap.Examples.Numerals.{naturals, naturals_asymmetric, naturals_transitive}
use cswap.Examples.Texts.{string_lt, string_lt_asymmetric, string_lt_transitive, string_lt_total}
use cswap.Numbers.Order.{AtMost}
use cswap.Usage.Entry.{UsageEntry, empty_entry}
use cswap.Usage.Entry.Due.{Due}
use cswap.Autoswitch.{Settings, proactive, switched, blocked}
use cswap.Autoswitch.Select.{Accounts, Qual, select_candidates, sort_qualifying, nums_of}
use cswap.Autoswitch.Select.Order.{SoonestReset, sort_qualifying-Ordered}
use cswap.Autoswitch.Select.Targets.{IsTarget, select_candidates-IsTarget}
use cswap.Autoswitch.Decide.{fresh_memory, decide, gate, in_cooldown}
use cswap.Autoswitch.Decide.Failover.{start, unknown, decide-failover, gate-proactive}
use cswap.Autoswitch.Delay.{next_delay}
use cswap.Autoswitch.Delay.Bounds.{next_delay-AtLeast}
use cswap.Autoswitch.Engine.{Switcher, Machine, quarantine, to_release, in_quarantine}
use cswap.Autoswitch.Engine.Quarantine.{Without, quarantine-to_release}
use cswap.Autoswitch.Perform.{report_dry, try_targets}
use cswap.Autoswitch.Tick.{tick_inner}
use cswap.Autoswitch.Tick.Outcome.{tick_inner_dry}
use cswap.Autoswitch.Perform.Switched.{try_targets_dry}
use cswap.SlotKey.{Keys, less, sorted}
use cswap.SlotKey.Total.{IsOrder, Before, less-IsOrder, sorted-Ordered}

abbrev policy : Settings naturals
policy = record {
  threshold = 90;
  hysteresis_pct = 5;
  cooldown_seconds = 300;
  interval_seconds = 60;
  unhealthy_ticks = 2;
  include_api_key_accounts = false;
  strategy = "best";
}

-- Slot 1 is nearly full, 2 has some headroom and 3 has more.
abbrev accounts : Accounts naturals
accounts = record {
  switchable = "1" ∷ "2" ∷ "3" ∷ [];
  is_api_key = λ n. false;
  quarantined = λ n. false;
  headroom = λ n. if str_eq n "1" then some 6 else if str_eq n "2" then some 40 else some 70;
  renewal = λ n. none;
}

select_candidates-best :
    (select_candidates naturals policy accounts "1" proactive).ordered ≡ "3" ∷ "2" ∷ []
unfolding select_candidates
select_candidates-best = refl

select_candidates-IsTarget_example :
    All
      (IsTarget naturals policy accounts "1" proactive)
      (select_candidates naturals policy accounts "1" proactive).ordered
select_candidates-IsTarget_example =
    select_candidates-IsTarget naturals policy accounts "1" proactive

abbrev quals : List (Qual naturals)
quals =
    record { h = 4; renewal = some 10; num = "2" }
    ∷ record { h = 40; renewal = none; num = "3" }
    ∷ record { h = 20; renewal = some 900; num = "4" }
    ∷ record { h = 70; renewal = some 500; num = "5" }
    ∷ []

sort_qualifying-soonest :
    nums_of naturals (sort_qualifying naturals (record policy { strategy = "soonest-reset" }) quals)
    ≡ "5" ∷ "4" ∷ "3" ∷ "2" ∷ []
unfolding nums_of sort_qualifying
sort_qualifying-soonest = refl

abbrev soonest : Settings naturals
soonest = record policy { strategy = "soonest-reset" }

sort_qualifying-Ordered_example :
    Pairwise (SoonestReset naturals soonest) (sort_qualifying naturals soonest quals)
sort_qualifying-Ordered_example = (sort_qualifying-Ordered naturals soonest quals).0 refl

decide-failover_example : (◌≡◌ {A = Option ℕ} none none) × (policy.unhealthy_ticks ≤ 2)
unfolding decide
decide-failover_example =
    decide-failover naturals policy 70 none false (unknown policy 10 false start) refl

gate-proactive_example :
    (h : ℕ) × (some 6 ≡ some h)
    × (ltb 0 h ≡ true)
    × (ltb (naturals.sub 100 h) 90 ≡ false)
    × (in_cooldown naturals policy 1000 (some 10) ≡ false)
unfolding gate decide
gate-proactive_example =
    gate-proactive naturals policy 1000 (some 6) (some 10) false (fresh_memory naturals) refl

next_delay-AtLeast_example :
    AtMost naturals
      (next_delay naturals 60 1000 0
        (record { sleep_until = some 90000; blocked_wait_long = true; idle_hold_slow = false })
        blocked)
      21600
next_delay-AtLeast_example =
    ((next_delay-AtLeast naturals 60 1000 0
        (record { sleep_until = some 90000; blocked_wait_long = true; idle_hold_slow = false })).0
      90000 refl).0

abbrev entry_of_account : String → ℕ → String × UsageEntry naturals
entry_of_account num pct = (
  num,
  record (empty_entry naturals) {
    fetched_at = some 990;
    age = some 10;
    last_good = some (record {
      five_hour = some (record { name = none; pct = some pct; resets_at = "soon" });
      seven_day = none;
      scoped = [];
    });
  },
)

-- A machine in which every call works; its world is the number of writes.
abbrev facade : Switcher naturals
facade = record {
  World = ℕ;
  now_seconds = λ w. 1000;
  current_account = λ w. some "1";
  has_live_login = λ w. true;
  switchable = λ w. "1" ∷ "2" ∷ "3" ∷ [];
  usage_entries = λ fetch w. (entry_of_account "1" 96 ∷ entry_of_account "2" 60 ∷ [], w);
  account_email = λ w n. "a@x";
  is_api_key = λ w n. false;
  has_live_session = λ w n e. false;
  read_credentials = λ w n e. "token";
  account_identity = λ w n. ("", "");
  persist = λ n e c w. (true, w);
  backfill = λ n u w. w;
  switch_to = λ n w. (
    some (record {
      switched = true;
      reason = "";
      from = some (record { number = "1"; email = "a@x" });
      to = some (record { number = n; email = "c@x" });
      warnings = "no session" ∷ [];
    }),
    w,
  );
  refresh = λ c w. (record { error = ""; credentials = ""; token_account = none }, w);
  take_lock = λ w. (true, w);
  write_file = λ w. (true, w);
  oauth_data = λ c. some none;
  fingerprint = λ c. some c;
  trim_space = λ s. s;
  string_less = string_lt;
}

abbrev machine : Machine naturals facade
machine = record {
  world = 0;
  file = record { last_switch_at = none; last_switch_to = none; quarantine = [] };
  events = [];
  memory = fresh_memory naturals;
  sleep_until = none;
  blocked_wait_long = false;
}

quarantine-to_release_example :
    (in_quarantine naturals facade
        (quarantine naturals facade "2" "a@x" "invalid_grant" machine).1.file.quarantine
        "2"
      ≡ true)
    × Without naturals facade "2" (
        to_release naturals facade 7
          (quarantine naturals facade "2" "a@x" "invalid_grant" machine).1.file.quarantine)
unfolding quarantine
quarantine-to_release_example =
    quarantine-to_release naturals facade "2" "a@x" "invalid_grant" machine 7 refl refl refl refl

try_targets_dry_example :
    (try_targets naturals facade policy true false proactive ("3" ∷ "2" ∷ []) machine).0
      ≡ some switched
    × ((try_targets naturals facade policy true false proactive ("3" ∷ "2" ∷ []) machine).1
        ≡ report_dry naturals facade policy "3" "a@x" proactive machine)
try_targets_dry_example = try_targets_dry naturals facade policy proactive "3" ("2" ∷ []) machine

abbrev poll_entries : String → Option (UsageEntry naturals)
poll_entries n =
    if str_eq n "2" then some (record (empty_entry naturals) { fetched_at = some 50 }) else none

-- The keys that spell one digit.
abbrev keys : Keys
keys = record {
  Int = ℕ;
  int_less = ltb;
  string_less = string_lt;
  atoi = λ s. if str_eq s "3" then some 3 else if str_eq s "15" then some 15 else none;
}

ltb_total : (a b : ℕ) → ltb a b ≡ false → ltb b a ≡ false → a ≡ b
ltb_total a b h k = ground arith

ints : IsOrder ltb
ints = record {
  asymmetric = naturals_asymmetric;
  transitive = naturals_transitive;
  total = ltb_total;
}

strings : IsOrder string_lt
strings = record {
  asymmetric = string_lt_asymmetric;
  transitive = string_lt_transitive;
  total = string_lt_total;
}

less-IsOrder_example : IsOrder (less keys)
less-IsOrder_example = less-IsOrder keys ints strings

sorted-Ordered_example :
    Pairwise (Before keys) (sorted keys ("2abc" ∷ "15" ∷ "3" ∷ []))
    × Perm (sorted keys ("2abc" ∷ "15" ∷ "3" ∷ [])) ("2abc" ∷ "15" ∷ "3" ∷ [])
sorted-Ordered_example = sorted-Ordered keys ints strings ("2abc" ∷ "15" ∷ "3" ∷ [])

tick_inner_dry_example : (tick_inner naturals facade policy [] true machine).1.file ≡ machine.file
tick_inner_dry_example = tick_inner_dry naturals facade policy [] machine
