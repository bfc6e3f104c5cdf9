-- ===== src/Switching/Direct.antt =====
-- directActivate of internal/switching/perform.go: a stored login is written over the live one.
pub mod Stash
pub mod Displaced
use cswap.Base.{
  ℕ, String, Bool, true, false, ◌&&◌, ◌||◌, not, Option, none, some, List, [], ◌∷◌, ◌++◌, str_eq,
  if◌then◌else◌, is_some, is_none,
}
use cswap.Runtime.{Runtime}
use cswap.Roster.{Account, SequenceData, assign, record_for, find_account_slot}
use cswap.Files.{
  Step, credentials_written, config_written, sequence_updated, Error, io, nil_dereference,
  account_not_found, credential_unreadable, credential_empty, config_missing, config_unreadable,
  no_stored_credentials, no_stored_config, invalid_backup_config, invalid_oauth_account,
  snapshot_failed, stash_refused, rolled_back, rollback_failed, Result, ok, err, World, Exec, pure,
  fail, lenient, modify, ◌>>=◌, ◌>>◌, write_config_text, write_config_json, read_config_text,
  read_config_json, write_sequence, read_sequence, read_account_credentials, read_account_config,
  write_account_credentials, write_account_config, write_unclaimed, record_step,
}
use cswap.Files.Active.{write_active, read_active, get_current_account}
use cswap.Switching.Provenance.{Identity, Provenance, fingerprint_equal}
use cswap.Switching.Classify.{
  Kind, own_bytes, own_family, own_rotated, alien, unresolved, foreign, foreign_synced,
  classify_outgoing,
}
use cswap.Switching.Transaction.{SwitchTransaction, rollback}
use cswap.Switching.Shared.{
  Ref, SwitchOp, Warning, ownership_mismatch, already_synced, unmanaged_login, not_preserved,
  oauth_section, or_fail, guard, replace_error, retrieve_target,
}

module _ (R : Runtime) where
  open R use {
    Text, text_eq, blank, Value, Object, get, put, as_object, of_object, is_empty, unmarshal,
  }

  -- The snapshot of the live login that a direct activation can restore.
  pub record Snapshot : Type 0 where
    pub credentials : Option Text
    pub config : Option Text

  pub snapshot_live : Bool → Exec R Snapshot
  unfolding replace_error
  snapshot_live false = pure R (record { credentials = none; config = none })
  snapshot_live true = do
    creds ← replace_error R credential_unreadable (read_active R)
    text ← replace_error R snapshot_failed (read_config_text R)
    pure R (record { credentials = some creds; config = text })

  displaces : Option Text → Text → Bool
  displaces none target_creds = false
  displaces (some creds) target_creds =
      not (text_eq creds blank) && not (text_eq creds target_creds)

  stash_outcome : Bool → Result (Unit {0}) × World R → Result (List Warning) × World R
  stash_outcome force (ok _, w) = (ok [], w)
  stash_outcome true (err e, w) = (ok (not_preserved ∷ []), w)
  stash_outcome false (err e, w) = (err stash_refused, w)

  -- Invariant II: a live credential that is about to be replaced is stashed first; only --force
  -- goes on when that fails.
  pub stash_displaced : Bool → Option ℕ → Option Text → Text → Exec R (List Warning)
  unfolding displaces stash_outcome
  stash_displaced force slot none target_creds w = (ok [], w)
  stash_displaced force slot (some creds) target_creds w =
      if displaces (some creds) target_creds
      then stash_outcome force (write_unclaimed R creds slot w)
      else (ok [], w)

  restore_config : Option Text → World R → World R
  restore_config none w = w
  restore_config (some text) w = (write_config_text R text w).1

  restore_credentials : Option Text → World R → World R
  restore_credentials none w = w
  restore_credentials (some creds) w = (write_active R creds w).1

  -- The deferred restoration of a failed commit, by what had been written.
  undo_activation : Snapshot → Result (Unit {0}) × World R → Bool → Result (Unit {0}) × World R
  unfolding restore_config restore_credentials
  undo_activation snap (ok _, w) config_done = (ok tt, w)
  undo_activation snap (err e, w) config_done = (
    err e,
    restore_credentials snap.credentials (if config_done then restore_config snap.config w else w),
  )

  -- existing["oauthAccount"] = targetOAuth, or the whole stored config where there is none.
  spliced : Option Object → Object → Object → Object
  spliced none backup account = backup
  spliced (some cfg) backup account =
      if is_empty cfg then backup else put "oauthAccount" (of_object account) cfg

  write_target_config : Object → Object → Exec R (Unit {0})
  unfolding spliced
  write_target_config backup account = do
    found ← lenient R (read_config_json R)
    write_config_json R (spliced found backup account)

  record_target : ℕ → SequenceData → Exec R (Unit {0})
  record_target target sd w =
      write_sequence R (record sd { active_account_number = some target; last_updated = w.now }) w

  -- `config_done` is what the failed call had completed before it.
  after_config :
      Snapshot → ℕ → SequenceData → Result (Unit {0}) × World R → Result (Unit {0}) × World R
  unfolding undo_activation record_target
  after_config snap target sd (err e, w) = undo_activation snap (err e, w) false
  after_config snap target sd (ok _, w) = undo_activation snap (record_target target sd w) true

  after_credentials :
      Snapshot
      → ℕ
      → SequenceData
      → Object
      → Object
      → Result (Unit {0}) × World R
      → Result (Unit {0}) × World R
  unfolding after_config write_target_config
  after_credentials snap target sd backup account (err e, w) = (err e, w)
  after_credentials snap target sd backup account (ok _, w) =
      after_config snap target sd (write_target_config backup account w)

  pub commit : Snapshot → ℕ → SequenceData → Text → Object → Object → Exec R (Unit {0})
  unfolding after_credentials
  commit snap target sd creds backup account w =
      after_credentials snap target sd backup account (write_active R creds w)

  -- directActivate: the stored login is written over the live one, which is not backed up into
  -- its slot. `live` says whether ~/.claude.json names a live identity.
  unfoldable pub direct_activate :
      ℕ → String → SequenceData → Option Ref → Bool → Option ℕ → Bool → Exec R SwitchOp
  unfolding retrieve_target or_fail snapshot_live stash_displaced commit
  direct_activate target target_email sd from live current force = do
    (creds, config) ← retrieve_target R target target_email
    decoded ← or_fail R (unmarshal config) invalid_backup_config
    account ← or_fail R (oauth_section R decoded) invalid_oauth_account
    backup ← or_fail R decoded invalid_oauth_account
    snap ← snapshot_live live
    warnings ← stash_displaced force current snap.credentials creds
    commit snap target sd creds backup account
    pure R (record {
      from = from;
      to = record { number = some target; email = target_email };
      warnings = warnings;
    })
