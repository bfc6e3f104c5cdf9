-- ===== src/Autoswitch/Perform.antt =====
-- The switch itself and the loop over the targets (internal/autoswitch/tick.go: perform, and the
-- last part of tickInner).
pub mod Switched
use cswap.Base.{
  String, Bool, true, false, not, ◌&&◌, Option, none, some, List, [], ◌∷◌, if◌then◌else◌, is_some,
}
use cswap.Numbers.{Numbers}
use cswap.Autoswitch.{
  Settings, Trigger, proactive, TickOutcome, no_action, switched, blocked, error,
}
use cswap.Autoswitch.Select.{is_proactive}
use cswap.Autoswitch.Decide.{in_cooldown}
use cswap.Autoswitch.Engine.{
  Switcher, Machine, Exec, emit, quarantine, SwitchPayload, Ref, switch_event, no_switch_event,
  error_event,
}
use cswap.Autoswitch.Freshen.{
  Status, ok, skip_live_session, transient, invalid_grant, identity_conflict, freshen_target,
}

module _ (N : Numbers) (S : Switcher N) (s : Settings N) where
  open N use {Num}
  open S use {World, now_seconds, current_account, account_email, switch_to, take_lock, write_file}

  -- Recording the switch in the state file, and the event of SwitchTo's payload.
  unfoldable pub record_switch : String → Trigger → SwitchPayload → Exec N S TickOutcome
  unfolding emit
  record_switch num trigger p m =
      let (written, w) = write_file m.world in
      if not written then (none, record m { world = w }) else (
        some switched,
        emit N S (switch_event trigger p.from p.to p.warnings false) (record m {
          world = w;
          file = record m.file {
            last_switch_at = some (now_seconds m.world);
            last_switch_to = some num;
          };
        }),
      )

  -- What perform makes of SwitchTo's result.
  unfoldable pub settle : String → Trigger → Option SwitchPayload → Exec N S TickOutcome
  unfolding record_switch emit
  settle num trigger none m = (none, m)
  settle num trigger (some p) m =
      if p.switched
      then record_switch num trigger p m
      else (some no_action, emit N S (no_switch_event "already-active") m)

  -- The real switch, under the state lock.
  unfoldable pub switch_locked : String → Trigger → Exec N S TickOutcome
  unfolding settle emit is_proactive in_cooldown
  switch_locked num trigger m =
      let (locked, w) = take_lock m.world in
      let (payload, w') = switch_to num w in
      if not locked
      then (none, record m { world = w })
      else if is_proactive trigger && in_cooldown N s (now_seconds w) m.file.last_switch_at
      then (some no_action, emit N S (no_switch_event "cooldown") (record m { world = w }))
      else settle num trigger payload (record m { world = w' })

  -- The account that a dry run reports as the one switched from.
  unfoldable pub current_ref : World → Option Ref
  current_ref w = elim (current_account w) [
    | none ↦ none
    | some cur ↦ some (record { number = cur; email = account_email w cur })
  ]

  unfoldable pub report_dry : String → String → Trigger → Machine N S → Machine N S
  unfolding emit current_ref
  report_dry num email trigger m =
      let target : Ref = record { number = num; email = email } in
      emit N S (switch_event trigger (current_ref m.world) (some target) [] true) m

  -- perform
  unfoldable pub perform : Bool → String → String → Trigger → Exec N S TickOutcome
  unfolding switch_locked report_dry
  perform true num email trigger m = (some switched, report_dry num email trigger m)
  perform false num email trigger m = switch_locked num trigger m

  no_target : Bool → Exec N S TickOutcome
  unfolding emit
  no_target true m =
      (some error, emit N S (error_event "could not freshen any candidate (network?)") m)
  no_target false m = (some blocked, emit N S (no_switch_event "no-viable-target") m)

  abbrev pub Result : Type 0
  Result = Option TickOutcome × Machine N S

  -- What a target's status leads to: an error, the switch, or the rest of the loop.
  unfoldable pub by_status :
      Option Status → Result → Result → Result → Result → Result → Result → Result
  by_status none stopped done skipped failed conflicted revoked = stopped
  by_status (some ok) stopped done skipped failed conflicted revoked = done
  by_status (some skip_live_session) stopped done skipped failed conflicted revoked = skipped
  by_status (some transient) stopped done skipped failed conflicted revoked = failed
  by_status (some identity_conflict) stopped done skipped failed conflicted revoked = conflicted
  by_status (some invalid_grant) stopped done skipped failed conflicted revoked = revoked

  -- The loop over the ordered targets; `failed` is transientFailure.
  unfoldable pub try_targets : Bool → Bool → Trigger → List String → Exec N S TickOutcome
  unfolding no_target perform freshen_target quarantine by_status
  try_targets dry_run failed trigger [] m = no_target failed m
  try_targets dry_run failed trigger (num ∷ nums) m =
      let email = account_email m.world num in
      let fresh = freshen_target N S num email m in
      let m' = fresh.1 in
      let conflicted = quarantine N S num email "identity-conflict" m' in
      let revoked = quarantine N S num email "invalid_grant" m' in
      if dry_run
      then perform true num email trigger m
      else by_status fresh.0 (none, m') (perform false num email trigger m')
          (try_targets dry_run failed trigger nums m') (try_targets dry_run true trigger nums m')
          (if is_some conflicted.0
            then try_targets dry_run failed trigger nums conflicted.1
            else (none, conflicted.1))
          (if is_some revoked.0
            then try_targets dry_run failed trigger nums revoked.1
            else (none, revoked.1))
