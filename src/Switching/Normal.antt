-- ===== src/Switching/Normal.antt =====
-- The normal path of internal/switching/perform.go: a managed live login is backed up by its kind
-- and replaced, step by recorded step.
pub mod Effects
pub mod Activation
pub mod Undo
pub mod Snapshot
pub mod Keeps
pub mod Preservation
pub mod Loaded
pub mod Success
pub mod Outcome
pub mod Atomicity
pub mod Ready
pub mod Returns
pub mod Total
use cswap.Base.{
  ℕ, String, Bool, true, false, ◌&&◌, ◌||◌, not, Option, none, some, List, [], ◌∷◌, ◌++◌, str_eq,
  if◌then◌else◌, is_some, is_none,
}
use cswap.Runtime.{Runtime}
use cswap.Roster.{Account, SequenceData, assign, record_for, find_account_slot}
use cswap.Files.{
  Step, credentials_written, config_written, sequence_updated, Error, io, nil_dereference,
  account_not_found, credential_unreadable, credential_empty, config_missing, config_unreadable,
  no_stored_credentials, no_stored_config, invalid_backup_config, invalid_oauth_account,
  snapshot_failed, stash_refused, rolled_back, rollback_failed, Result, ok, err, World, Exec, pure,
  fail, lenient, modify, ◌>>=◌, ◌>>◌, write_config_text, write_config_json, read_config_text,
  read_config_json, write_sequence, read_sequence, read_account_credentials, read_account_config,
  write_account_credentials, write_account_config, write_unclaimed, record_step,
}
use cswap.Files.Active.{write_active, read_active, get_current_account}
use cswap.Switching.Provenance.{Identity, Provenance, fingerprint_equal}
use cswap.Switching.Classify.{
  Kind, own_bytes, own_family, own_rotated, alien, unresolved, foreign, foreign_synced,
  classify_outgoing,
}
use cswap.Switching.Transaction.{SwitchTransaction, rollback}
use cswap.Switching.Shared.{
  Ref, SwitchOp, Warning, ownership_mismatch, already_synced, unmanaged_login, not_preserved,
  oauth_section, or_fail, guard, replace_error, retrieve_target,
}

fill_uuid : ℕ → String → Option Account → SequenceData → SequenceData
fill_uuid num uuid none sd = sd
fill_uuid num uuid (some rec) sd =
    if str_eq rec.uuid ""
    then record sd { accounts = assign num (record rec { uuid = uuid }) sd.accounts }
    else sd

-- backfillUUIDInData: only a missing uuid is filled.
unfoldable pub backfill_uuid_in_data : SequenceData → ℕ → String → SequenceData
unfolding fill_uuid
backfill_uuid_in_data sd num uuid =
    if str_eq uuid "" then sd else fill_uuid num uuid (record_for (some sd) num) sd

backfill_resolved : ℕ → Option Identity → SequenceData → SequenceData
backfill_resolved num none sd = sd
backfill_resolved num (some resolved) sd = backfill_uuid_in_data sd num resolved.uuid

module _ (R : Runtime) where
  open R use {
    Text, text_eq, blank, Value, Object, get, put, as_object, of_object, is_empty, unmarshal,
  }

  -- Step 1 of the normal path: back up the outgoing slot by its kind. The roster comes back with
  -- the uuid that a rotation confirmed.
  pub backup_kind :
      Kind
      → ℕ
      → String
      → Text
      → Text
      → Provenance R
      → SequenceData
      → Exec R (SequenceData × List Warning)
  unfolding backfill_resolved
  backup_kind (foreign slot) current email creds config prov sd = do
    write_unclaimed R creds (some current)
    pure R (sd, ownership_mismatch slot ∷ [])
  backup_kind alien current email creds config prov sd = do
    write_unclaimed R creds (some current)
    pure R (sd, unmanaged_login ∷ [])
  backup_kind (foreign_synced slot) current email creds config prov sd =
      pure R (sd, already_synced slot ∷ [])
  backup_kind own_bytes current email creds config prov sd = do
    write_account_config R current email config
    pure R (sd, [])
  backup_kind own_rotated current email creds config prov sd = do
    write_account_credentials R current email creds
    write_account_config R current email config
    pure R (backfill_resolved current prov.resolved sd, [])
  backup_kind _ current email creds config prov sd = do
    write_account_credentials R current email creds
    write_account_config R current email config
    pure R (sd, [])

  pub backup_outgoing :
      ℕ → String → Text → Text → Provenance R → SequenceData → Exec R (SequenceData × List Warning)
  unfolding backup_kind
  backup_outgoing current email creds config prov sd = do
    kind ← lenient R (classify_outgoing R current email creds prov (some sd))
    backup_kind kind current email creds config prov sd

  -- Steps 3 to 5: credentials, then the config splice, then the roster, each recorded.
  pub activate : ℕ → Text → Text → SequenceData → Exec R (Unit {0})
  unfolding or_fail
  activate target creds config sd = do
    write_active R creds
    modify R (record_step R credentials_written)
    backup ← or_fail R (unmarshal config) invalid_backup_config
    account ← or_fail R (oauth_section R backup) invalid_oauth_account
    found ← lenient R (read_config_json R)
    cfg ← or_fail R found config_missing
    write_config_json R (put "oauthAccount" (of_object account) cfg)
    modify R (record_step R config_written)
    time ← lenient R (λ w. (w.now, w))
    write_sequence R (record sd { active_account_number = some target; last_updated = time })
    modify R (record_step R sequence_updated)

  -- normalSwitchBody
  unfoldable pub normal_switch_body :
      ℕ → String → ℕ → String → Text → Text → Provenance R → SequenceData → Exec R (List Warning)
  unfolding backup_outgoing retrieve_target activate
  normal_switch_body target target_email current current_email creds config prov sd = do
    (sd', warnings) ← backup_outgoing current current_email creds config prov sd
    (target_creds, target_config) ← retrieve_target R target target_email
    activate target target_creds target_config sd'
    pure R warnings

  undo_with : {A : Type 0} → List Step → Error → Bool × World R → World R → Result A × World R
  undo_with [] e tried w = (err e, w)
  undo_with (_ ∷ _) e (restored, w') w =
      (err (if restored then rolled_back e else rollback_failed e), w')

  -- A failure after a completed step is rolled back.
  pub undo_failure : {A : Type 0} → SwitchTransaction R → Result A × World R → Result A × World R
  unfolding undo_with
  undo_failure tx (ok a, w) = (ok a, w)
  undo_failure tx (err e, w) = undo_with w.completed_steps e (rollback R tx w) w

  -- The normal path: a managed live login is replaced.
  unfoldable pub normal_switch :
      ℕ → String → ℕ → String → Provenance R → SequenceData → Exec R SwitchOp
  unfolding undo_failure replace_error or_fail guard
  normal_switch target target_email current current_email prov sd = do
    creds ← replace_error R credential_unreadable (read_active R)
    guard R (not (text_eq creds blank)) credential_empty
    text ← replace_error R config_unreadable (read_config_text R)
    config ← or_fail R text config_missing
    modify R (λ w. record w { completed_steps = [] })
    warnings ← λ w.
        undo_failure
          (record {
            original_credentials = creds;
            original_config = config;
            original_account_num = current;
          })
          (normal_switch_body target target_email current current_email creds config prov sd w)
    pure R (record {
      from = some (record { number = some current; email = current_email });
      to = record { number = some target; email = target_email };
      warnings = warnings;
    })
