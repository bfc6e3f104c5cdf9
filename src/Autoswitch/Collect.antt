-- ===== src/Autoswitch/Collect.antt =====
-- What a tick learns of the accounts' usage (internal/autoswitch/collect.go). A fetch set is the
-- list of its slots, and the entries that come back are a list of pairs.
use cswap.Base.{
  String, Bool, true, false, not, ◌&&◌, ◌||◌, Option, none, some, List, [], ◌∷◌, ◌++◌,
  if◌then◌else◌, keep, str_eq, is_some, is_none,
}
use cswap.Numbers.{Numbers}
use cswap.Usage.{RawUsage, new_usage, account_headroom, renewal_ts}
use cswap.Usage.Entry.{
  UsageEntry, Decision, by_usage, by_sentinel, unknown, decision_value, due_candidate, ahead,
}
use cswap.Autoswitch.{Settings}
use cswap.Autoswitch.Select.{Accounts}
use cswap.Autoswitch.Engine.{Switcher, Machine, in_quarantine}

module _ (N : Numbers) (S : Switcher N) (s : Settings N) (models : List String) where
  open N use {Num, less, sub, ratio}
  open S use {World, now_seconds, switchable, is_api_key, usage_entries, string_less}

  abbrev pub Entries : Type 0
  Entries = List (String × UsageEntry N)

  -- The lookup in a map.
  unfoldable pub entry_for : Entries → String → Option (UsageEntry N)
  entry_for [] num = none
  entry_for ((n, e) ∷ rest) num = if str_eq n num then some e else entry_for rest num

  -- decisionValues, at one slot.
  unfoldable pub decision_of : Entries → String → Decision N
  unfolding decision_value entry_for
  decision_of entries num = elim (entry_for entries num) [
    | none ↦ unknown
    | some e ↦ decision_value N e
  ]

  -- usageDict
  unfoldable pub usage_dict : Decision N → Option (RawUsage N)
  usage_dict (by_usage u) = some u
  usage_dict (by_sentinel t) = none
  usage_dict unknown = none

  -- isTokenExpired
  unfoldable pub is_token_expired : Decision N → Bool
  is_token_expired (by_usage u) = false
  is_token_expired (by_sentinel t) = str_eq t "token expired"
  is_token_expired unknown = false

  -- accountHeadroom
  unfoldable pub headroom_of : Option (RawUsage N) → Option Num
  unfolding account_headroom new_usage
  headroom_of none = none
  headroom_of (some u) = account_headroom N models (new_usage N u)

  -- renewalTS
  unfoldable pub renewal_of : Option (RawUsage N) → Option Num
  unfolding renewal_ts new_usage
  renewal_of none = none
  renewal_of (some u) = renewal_ts N models (new_usage N u)

  at_least : Option Num → Num → Bool
  at_least none b = false
  at_least (some a) b = not (less a b)

  or_zero : Option Num → Num
  or_zero none = ratio 0 1
  or_zero (some a) = a

  -- bindingPct, 0 where it is unknown.
  binding_or_zero : Option (RawUsage N) → Num
  unfolding headroom_of
  binding_or_zero u = elim (headroom_of u) [ none ↦ ratio 0 1 | some h ↦ sub (ratio 100 1) h ]

  stale_candidate_plan : UsageEntry N → Bool
  unfolding at_least or_zero binding_or_zero
  stale_candidate_plan e =
      at_least e.age (ratio 300 1)
      && (less (ratio 300 1) (or_zero e.poll_interval)
          && less (binding_or_zero e.last_good) (ratio 100 1))

  -- The active account is polled.
  nominated : Num → Option (UsageEntry N) → Bool
  unfolding stale_candidate_plan at_least ahead
  nominated now none = true
  nominated now (some e) =
      is_none e.age
      || stale_candidate_plan e
      || (is_some e.next_poll_at && not (ahead N now e.next_poll_at))
      || (is_none e.next_poll_at && at_least e.age (ratio 180 1))

  poll_pick : String → List String
  poll_pick num = if str_eq num "" then [] else num ∷ []

  poll_plan : String → List String → Num → Bool → Entries → List String
  unfolding nominated poll_pick due_candidate entry_for
  poll_plan cur candidates now holding pre =
      (if nominated now (entry_for pre cur) then cur ∷ [] else [])
      ++ (if holding
          then []
          else poll_pick (due_candidate N string_less candidates (entry_for pre) now))

  -- Every candidate is fetched as well.
  escalates : Option Num → Decision N → Bool
  unfolding is_token_expired
  escalates none d = not (is_token_expired d)
  escalates (some h) d = not (less (sub (ratio 100 1) h) (sub s.threshold (ratio 15 1)))

  has_any : List String → Bool
  has_any [] = false
  has_any (n ∷ ns) = true

  -- collectScheduledUsage
  unfoldable pub collect_scheduled_usage : String → Machine N S → Entries × Machine N S
  unfolding poll_plan escalates has_any headroom_of usage_dict decision_of in_quarantine
  collect_scheduled_usage cur m =
      let candidates =
        keep (λ n. not (str_eq n cur) && not (in_quarantine N S m.file.quarantine n))
          (switchable m.world) in
      let (pre, w) = usage_entries [] m.world in
      let plan =
        poll_plan cur candidates (now_seconds m.world) (is_some m.memory.idle_hold_since) pre in
      let (entries, w') = usage_entries plan w in
      let active = decision_of entries cur in
      let (all, w'') = usage_entries (cur ∷ candidates) w' in
      if has_any candidates && escalates (headroom_of (usage_dict active)) active
      then (all, record m { world = w'' })
      else (entries, record m { world = w' })

  -- What the decision reads of the accounts.
  unfoldable pub accounts_of : Entries → Machine N S → Accounts N
  unfolding decision_of usage_dict headroom_of renewal_of
  accounts_of entries m = record {
    switchable = switchable m.world;
    is_api_key = is_api_key m.world;
    quarantined = in_quarantine N S m.file.quarantine;
    headroom = λ n. headroom_of (usage_dict (decision_of entries n));
    renewal = λ n. renewal_of (usage_dict (decision_of entries n));
  }
