-- ===== src/Autoswitch/Tick/Outcome.antt =====
-- What a whole tick has done when it reports a switch, and that a dry run leaves the state file.
use cswap.Base.{
  String, ◌≡◌, refl, ap, ◌∙◌, Bool, true, false, not, ◌&&◌, Option, none, some, List, [], ◌∷◌,
  if◌then◌else◌, Bool-cases, inl, inr,
}
use cswap.Numbers.{Numbers}
use cswap.Autoswitch.{Settings, Trigger}
use cswap.Autoswitch.Select.{Accounts, select_candidates, oauth_candidates}
use cswap.Autoswitch.Select.Targets.{IsTarget}
use cswap.Autoswitch.Decide.{Verdict, stop, act}
use cswap.Autoswitch.Engine.{Switcher, Machine, emit, poll_event}
use cswap.Autoswitch.Collect.{Entries, collect_scheduled_usage, accounts_of}
use cswap.Autoswitch.Perform.{Result, report_dry}
use cswap.Autoswitch.Perform.Switched.{SwitchedTo, try_targets_dry}
use cswap.Autoswitch.Tick.{
  truly_exhausted, no_ordered, go_through, act_on, on_verdict, weighed, weigh, with_current,
  after_release, tick_reset, tick_inner,
}

module _ (N : Numbers) (S : Switcher N) (s : Settings N) (models : List String) where
  -- The tick switched from `cur` to a target that is justified by `a` under its trigger.
  pub record Justifies (a : Accounts N) (cur : String) (v : Verdict) (r : Result N S s)
      : Type 0 where
    pub trigger : Trigger
    pub verdict : v ≡ act trigger
    pub target : String
    pub is_target : IsTarget N s a cur trigger target
    pub done : SwitchedTo N S s trigger r target

  -- The entries that a tick collects for the slot, and the machine that it weighs them in.
  abbrev pub collected : String → Machine N S → Entries N S s models
  collected cur m = (collect_scheduled_usage N S s models cur m).0

  abbrev pub seen : String → Machine N S → Machine N S
  seen cur m = emit N S (poll_event (some cur)) (collect_scheduled_usage N S s models cur m).1

  -- The tick's switch is justified by what it collected for the active slot.
  abbrev pub JustifiedIn : Machine N S → Result N S s → Type 0
  JustifiedIn m r =
      (cur : String) × (S.current_account m.world ≡ some cur)
      × Justifies (accounts_of N S s models (collected cur m) (seen cur m)) cur
          (weighed N S s models false (collected cur m) cur (seen cur m)).1 r

  no_ordered-file :
      (entries : Entries N S s models) (a : Accounts N) (cur : String) (known : Bool)
      (m : Machine N S)
      → (no_ordered N S s models true entries a cur known m).file ≡ m.file
  unfolding no_ordered emit
  no_ordered-file entries a cur known m = elim (Bool-cases known) [
    | inr f ↦ simp f
    | inl t ↦ elim (Bool-cases (truly_exhausted N S s models true a (oauth_candidates N a cur))) [
      | inl x ↦ simp (t, x)
      | inr x ↦ simp (t, x)
    ]
  ]

  go_through-file :
      (entries : Entries N S s models) (a : Accounts N) (cur : String) (known : Bool) (t : Trigger)
      (nums : List String) (m : Machine N S)
      → (go_through N S s models true entries a cur known t nums m).1.file ≡ m.file
  unfolding go_through report_dry emit
  go_through-file entries a cur known t [] m = no_ordered-file entries a cur known m
  go_through-file entries a cur known t (n ∷ ns) m =
      ap (λ x. x.file) (try_targets_dry N S s t n ns m).1

  act_on-file :
      (entries : Entries N S s models) (a : Accounts N) (cur : String) (t : Trigger)
      (m : Machine N S)
      → (act_on N S s models true entries a cur t m).1.file ≡ m.file
  unfolding act_on emit
  act_on-file entries a cur t m = elim (Bool-cases (select_candidates N s a cur t).blocked) [
    | inl b ↦ simp b
    | inr b ↦ simp b (go_through-file entries a cur _ t _ m)
  ]

  on_verdict-file :
      (entries : Entries N S s models) (a : Accounts N) (cur : String) (v : Verdict)
      (m : Machine N S)
      → (on_verdict N S s models true entries a cur v m).1.file ≡ m.file
  unfolding on_verdict emit
  on_verdict-file entries a cur (stop reason) m = refl
  on_verdict-file entries a cur (act t) m = act_on-file entries a cur t m

  weigh-file :
      (cur : String) (entries : Entries N S s models) (m : Machine N S)
      → (weigh N S s models true cur entries m).1.file ≡ m.file
  unfolding weigh emit
  weigh-file cur entries m =
      elim (Bool-cases (S.is_api_key m.world cur && not s.include_api_key_accounts)) [
        | inl b ↦ simp b
        | inr b ↦ simp b (
            on_verdict-file entries (accounts_of N S s models entries m) cur
              (weighed N S s models true entries cur m).1
              (record m { memory = (weighed N S s models true entries cur m).0 }))
      ]

  collect-file :
      (cur : String) (m : Machine N S)
      → (collect_scheduled_usage N S s models cur m).1.file ≡ m.file
  unfolding collect_scheduled_usage
  collect-file cur m = either _ _ _ refl refl
    where
      either :
          (b : Bool) (x y : Entries N S s models × Machine N S)
          → x.1.file ≡ m.file
          → y.1.file ≡ m.file
          → (if b then x else y).1.file ≡ m.file
      either true x y h k = h
      either false x y h k = k

  with_current-file :
      (o : Option String) (m : Machine N S) → (with_current N S s models true o m).1.file ≡ m.file
  unfolding with_current emit
  with_current-file none m = refl
  with_current-file (some cur) m =
      weigh-file cur (collected cur m) (seen cur m) ∙ collect-file cur m

  -- A dry-run tick leaves the state file as it was.
  pub tick_inner_dry : (m : Machine N S) → (tick_inner N S s models true m).1.file ≡ m.file
  unfolding tick_inner tick_reset after_release
  tick_inner_dry m = with_current-file _ (tick_reset N S s models true m)
