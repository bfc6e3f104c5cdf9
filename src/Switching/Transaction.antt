-- ===== src/Switching/Transaction.antt =====
-- internal/switching/transaction.go: the ledger of completed steps and the rollback.
pub mod Restore
use cswap.Base.{
  ℕ, String, Bool, true, false, ◌&&◌, Option, none, some, List, [], ◌∷◌, if◌then◌else◌,
}
use mathlib.Core.List.{reverse}
use cswap.Runtime.{Runtime}
use cswap.Roster.{SequenceData}
use cswap.Files.{
  Step, credentials_written, config_written, sequence_updated, Result, ok, err, World, Exec, pure,
  ◌>>=◌, write_config_text, read_sequence, write_sequence,
}
use cswap.Files.Active.{write_active}

module _ (R : Runtime) where
  open R use {Text}

  -- switchTransaction; the completed steps are in the world.
  pub record SwitchTransaction : Type 0 where
    pub original_credentials : Text
    pub original_config : Text
    pub original_account_num : ℕ

  restore_number : ℕ → Option SequenceData → Exec R (Unit {0})
  restore_number num none w = (ok tt, w)
  restore_number num (some sd) w =
      write_sequence R (record sd { active_account_number = some num; last_updated = w.now }) w

  rollback_step : SwitchTransaction → Step → Exec R (Unit {0})
  unfolding restore_number
  rollback_step tx credentials_written = write_active R tx.original_credentials
  rollback_step tx config_written = write_config_text R tx.original_config
  rollback_step tx sequence_updated = do
    found ← read_sequence R
    restore_number tx.original_account_num found

  succeeded : {A : Type 0} → Result A → Bool
  succeeded (ok a) = true
  succeeded (err e) = false

  -- Every step is tried; the answer is whether all of them were restored.
  rollback_steps : SwitchTransaction → List Step → World R → Bool × World R
  unfolding rollback_step succeeded
  rollback_steps tx [] w = (true, w)
  rollback_steps tx (step ∷ steps) w =
      let (restored, w') = rollback_step tx step w in
      let (others, w'') = rollback_steps tx steps w' in (succeeded restored && others, w'')

  unfoldable pub rollback : SwitchTransaction → World R → Bool × World R
  unfolding rollback_steps
  rollback tx w = rollback_steps tx (reverse w.completed_steps) w
