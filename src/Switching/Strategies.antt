-- ===== src/Switching/Strategies.antt =====
-- selectBestSwitchable of internal/switching/strategies.go, and the eligibility rule of
-- internal/store/identity.go. A slot's measured headroom (headroomOf of its usage) is an argument,
-- as is the comparison of two headrooms.
pub mod Best
pub mod Progress
use cswap.Base.{
  ℕ, String, Bool, true, false, not, ◌&&◌, Option, none, some, List, [], ◌∷◌, ◌==◌, if◌then◌else◌,
  contains,
}
use cswap.Runtime.{Runtime}
use cswap.Roster.{Account, SequenceData, record_for, disabled_from_data}
use cswap.Files.{
  Result, ok, err, World, read_sequence, read_account_credentials, read_account_config,
}

-- The slot to switch to, or why none is.
pub data Choice : Type 0 where
  switch_to : ℕ → Choice
  no_others current_unavailable no_comparison incomplete_comparison exhausted stay : Choice

module _ (R : Runtime) where
  open R use {text_eq, blank}

  read_roster : Result (Option SequenceData) × World R → Option SequenceData × World R
  read_roster (ok found, w) = (found, w)
  read_roster (err e, w) = (none, w)

  has_backups : ℕ → Option Account → World R → Bool × World R
  has_backups num none w = (false, w)
  has_backups num (some rec) w =
      let (creds, w') = read_account_credentials R num rec.email w in
      let (config, w'') = read_account_config R num rec.email w' in
      if text_eq creds blank then (false, w') else (not (text_eq config blank), w'')

  -- AccountIsSwitchable, with the read error dropped
  account_is_switchable : ℕ → World R → Bool × World R
  unfolding read_roster has_backups
  account_is_switchable num w =
      let (found, w') = read_roster (read_sequence R w) in has_backups num (record_for found num) w'

  -- RotationEligible, for a roster that is not nil
  pub rotation_eligible : SequenceData → ℕ → World R → Bool × World R
  unfolding account_is_switchable
  rotation_eligible sd num w =
      let (switchable, w') = account_is_switchable num w in
      (switchable && not (disabled_from_data (some sd) num), w')

  -- The candidates: the eligible slots of the rotation but the current one, in its order.
  pub eligible_others : ℕ → SequenceData → List ℕ → World R → List ℕ × World R
  unfolding rotation_eligible
  eligible_others current sd [] w = ([], w)
  eligible_others current sd (num ∷ nums) w =
      let (eligible, w') = rotation_eligible sd num w in
      let (later, w'') = eligible_others current sd nums w' in
      let skipped = eligible_others current sd nums w in
      if num == current then skipped else (if eligible then num ∷ later else later, w'')

module _ {Level : Type 0} (greater : Level → Level → Bool) (spent : Level → Bool)
    (headroom : ℕ → Option Level) where
  -- The first maximal one of the known headrooms.
  pub best_of : List ℕ → Option (ℕ × Level) → Option (ℕ × Level)
  best_of [] best = best
  best_of (num ∷ nums) none =
      best_of nums (elim (headroom num) [ none ↦ none | some h ↦ some (num, h) ])
  best_of (num ∷ nums) (some (m, g)) = best_of nums (elim (headroom num) [
    | none ↦ some (m, g)
    | some h ↦ if greater h g then some (num, h) else some (m, g)
  ])

  all_known : List ℕ → Bool
  all_known [] = true
  all_known (num ∷ nums) =
      let rest = all_known nums in elim (headroom num) [ none ↦ false | some h ↦ rest ]

  compare_best : List ℕ → Level → Option (ℕ × Level) → Choice
  unfolding all_known
  compare_best others c none = no_comparison
  compare_best others c (some (n, h)) =
      if greater h c
      then switch_to n
      else if not (all_known others)
      then incomplete_comparison
      else if spent c
      then exhausted
      else stay

  measured : List ℕ → Option Level → Choice
  unfolding compare_best best_of
  measured others none = current_unavailable
  measured others (some c) = compare_best others c (best_of others none)

  unfoldable pub choose : ℕ → List ℕ → Choice
  unfolding measured
  choose current [] = no_others
  choose current (num ∷ nums) = measured (num ∷ nums) (headroom current)

  module _ (R : Runtime) where
    choose_from : ℕ → Option SequenceData × World R → Choice × World R
    unfolding choose eligible_others
    choose_from current (none, w) = (no_others, w)
    choose_from current (some sd, w) =
        let (others, w') = eligible_others R current sd sd.sequence w in (choose current others, w')

    unfoldable pub select_best_switchable : ℕ → World R → Choice × World R
    unfolding choose_from read_roster
    select_best_switchable current w = choose_from current (read_roster R (read_sequence R w))
