-- ===== src/Autoswitch/Tick.antt =====
-- One whole tick (internal/autoswitch/tick.go: tickInner), composed of its parts. The check of the
-- model names, which only emits a warning, is left out, as is the content of the PollEvent.
pub mod Outcome
use cswap.Base.{
  String, Bool, true, false, not, ◌&&◌, Option, none, some, List, [], ◌∷◌, if◌then◌else◌, is_some,
}
use cswap.Numbers.{Numbers}
use cswap.Autoswitch.{Settings, Trigger, TickOutcome, no_action, blocked}
use cswap.Autoswitch.Select.{Accounts, Selection, select_candidates, oauth_candidates}
use cswap.Autoswitch.Decide.{Memory, Verdict, stop, act, decide, gate}
use cswap.Autoswitch.Recovery.{earliest_recovery}
use cswap.Autoswitch.Engine.{
  Switcher, Machine, Exec, emit, release_recovered, poll_event, no_switch_event,
  all_exhausted_event,
}
use cswap.Autoswitch.Collect.{
  Entries, decision_of, usage_dict, is_token_expired, headroom_of, collect_scheduled_usage,
  accounts_of,
}
use cswap.Usage.{RawUsage}
use cswap.Autoswitch.Perform.{Result, try_targets}

module _ (N : Numbers) (S : Switcher N) (s : Settings N) (models : List String)
    (dry_run : Bool) where
  open N use {Num, less, add, ratio}
  open S use {now_seconds, current_account, has_live_login, is_api_key}

  truly_exhausted : Accounts N → List String → Bool
  truly_exhausted a [] = true
  truly_exhausted a (n ∷ ns) = elim (a.headroom n) [
    | none ↦ false
    | some h ↦ not (less (ratio 0 1) h) && truly_exhausted a ns
  ]

  usage_values : Entries N S s models → List (Option (RawUsage N))
  unfolding decision_of usage_dict
  usage_values [] = []
  usage_values ((n, e) ∷ rest) =
      usage_dict N S s models (decision_of N S s models ((n, e) ∷ []) n) ∷ usage_values rest

  after_slack : Option Num → Option Num
  after_slack none = none
  after_slack (some t) = some (add t (ratio 60 1))

  -- No target: the reasons, and the wait for the first recovery.
  no_ordered : Entries N S s models → Accounts N → String → Bool → Machine N S → Machine N S
  unfolding emit truly_exhausted usage_values after_slack earliest_recovery oauth_candidates
  no_ordered entries a cur any_known m =
      if not any_known
      then emit N S (no_switch_event "no-comparison") m
      else if not (truly_exhausted a (oauth_candidates N a cur))
      then emit N S (no_switch_event "no-qualifying-candidate") m
      else (let earliest = earliest_recovery N models (usage_values entries) in
          emit N S (all_exhausted_event (is_some earliest))
            (record m { blocked_wait_long = true; sleep_until = after_slack earliest }))

  go_through :
      Entries N S s models
      → Accounts N
      → String
      → Bool
      → Trigger
      → List String
      → Machine N S
      → Result N S s
  unfolding no_ordered try_targets
  go_through entries a cur any_known trigger [] m =
      (some blocked, no_ordered entries a cur any_known m)
  go_through entries a cur any_known trigger (n ∷ ns) m =
      try_targets N S s dry_run false trigger (n ∷ ns) m

  -- The part of the tick after its trigger.
  act_on : Entries N S s models → Accounts N → String → Trigger → Machine N S → Result N S s
  unfolding go_through select_candidates emit
  act_on entries a cur trigger m =
      let selection = select_candidates N s a cur trigger in
      if selection.blocked
      then (
        some blocked,
        emit N S (no_switch_event "no-candidates") (record m { blocked_wait_long = true }),
      )
      else go_through entries a cur selection.any_known trigger selection.ordered m

  on_verdict : Entries N S s models → Accounts N → String → Verdict → Machine N S → Result N S s
  unfolding act_on emit
  on_verdict entries a cur (stop reason) m = (some no_action, emit N S (no_switch_event reason) m)
  on_verdict entries a cur (act trigger) m = act_on entries a cur trigger m

  -- The verdict of a tick on what it collected.
  unfoldable pub weighed : Entries N S s models → String → Machine N S → Memory N × Verdict
  unfolding decide gate headroom_of usage_dict decision_of is_token_expired
  weighed entries cur m =
      let active = decision_of N S s models entries cur in
      let (memory, verdict) =
        decide N s (now_seconds m.world) (headroom_of N S s models (usage_dict N S s models active))
          (is_token_expired N S s models active) m.memory in
      (memory, gate N s (now_seconds m.world) m.file.last_switch_at verdict)

  weigh : String → Entries N S s models → Machine N S → Result N S s
  unfolding weighed on_verdict emit accounts_of
  weigh cur entries m =
      if is_api_key m.world cur && not s.include_api_key_accounts
      then (some no_action, emit N S (no_switch_event "active-api-key") m)
      else on_verdict entries (accounts_of N S s models entries m) cur (weighed entries cur m).1
          (record m { memory = (weighed entries cur m).0 })

  with_current : Option String → Machine N S → Result N S s
  unfolding weigh emit collect_scheduled_usage
  with_current none m = (
    some no_action,
    emit N S
        (no_switch_event
          (if has_live_login m.world then "unmanaged-active-account" else "no-active-account"))
        (emit N S (poll_event none) m),
  )
  with_current (some cur) m =
      let (entries, m') = collect_scheduled_usage N S s models cur m in
      weigh cur entries (emit N S (poll_event (some cur)) m')

  after_release : Option (Unit {0}) × Machine N S → Result N S s
  unfolding with_current
  after_release (none, m) = (none, m)
  after_release (some u, m) = with_current (current_account m.world) m

  -- What a tick forgets at its start.
  unfoldable pub tick_reset : Machine N S → Machine N S
  tick_reset m = record m {
    sleep_until = none;
    blocked_wait_long = false;
    memory = record m.memory { idle_hold_slow = false };
  }

  -- tickInner
  unfoldable pub tick_inner : Exec N S TickOutcome
  unfolding after_release tick_reset release_recovered
  tick_inner m =
      after_release
        (if dry_run then (some tt, tick_reset m) else release_recovered N S (tick_reset m))
