-- ===== src/Usage.antt =====
-- Usage data: the normalized map of an account's rate-limit windows and its typed projection
-- (internal/oauth/windows.go). The map is modelled by the fields that the code reads of it: a
-- window is an object whose pct is `none` when it is not a number, and whose resets_at is "" when
-- it is not a string. The spend and the display fields, which no decision reads, are left out.
pub mod Windows
pub mod PollPolicy
pub mod Entry
pub mod Store
use cswap.Base.{
  String, ℕ, Bool, true, false, not, ◌&&◌, ◌||◌, Option, none, some, List, [], ◌∷◌, ◌++◌,
  if◌then◌else◌, str_eq,
}
use cswap.Numbers.{Numbers}

module _ (N : Numbers) where
  open N use {Num, less, sub, ratio, to_lower, parse_time}

  pub record RawWindow : Type 0 where
    pub name : Option String
    pub pct : Option Num
    pub resets_at : String

  -- `scoped` is the list's entries, `none` for one that is no object.
  pub record RawUsage : Type 0 where
    pub five_hour : Option RawWindow
    pub seven_day : Option RawWindow
    pub scoped : List (Option RawWindow)

  pub record Window : Type 0 where
    pub pct : Num
    pub resets_at : String

  pub record ScopedWindow : Type 0 where
    pub name : String
    pub pct : Num
    pub resets_at : String

  pub record Usage : Type 0 where
    pub five_hour : Option Window
    pub seven_day : Option Window
    pub scoped : List ScopedWindow

  pub record RelevantWindow : Type 0 where
    pub label : String
    pub pct : Num
    pub resets_at : String

  -- projectWindow
  project_window : Option RawWindow → Option Window
  project_window none = none
  project_window (some w) = elim w.pct [
    | none ↦ none
    | some p ↦ some (record { pct = p; resets_at = w.resets_at })
  ]

  named_scoped : String → Option Num → String → List ScopedWindow
  named_scoped name none resets_at = []
  named_scoped name (some p) resets_at =
      if str_eq name "" then [] else record { name = name; pct = p; resets_at = resets_at } ∷ []

  project_one : Option RawWindow → List ScopedWindow
  unfolding named_scoped
  project_one none = []
  project_one (some w) = elim w.name [ none ↦ [] | some n ↦ named_scoped n w.pct w.resets_at ]

  project_scoped : List (Option RawWindow) → List ScopedWindow
  unfolding project_one
  project_scoped [] = []
  project_scoped (w ∷ ws) = project_one w ++ project_scoped ws

  -- NewUsage
  unfoldable pub new_usage : RawUsage → Usage
  unfolding project_window project_scoped
  new_usage raw = record {
    five_hour = project_window raw.five_hour;
    seven_day = project_window raw.seven_day;
    scoped = project_scoped raw.scoped;
  }

  -- A model name matches a window's name in any case, and "all" matches every window.
  wanted : List String → String → Bool
  wanted [] name = false
  wanted (m ∷ ms) name =
      str_eq (to_lower m) "all" || str_eq (to_lower m) (to_lower name) || wanted ms name

  labelled : String → Option Window → List RelevantWindow
  labelled label none = []
  labelled label (some w) = record { label = label; pct = w.pct; resets_at = w.resets_at } ∷ []

  scoped_for : List String → List ScopedWindow → List RelevantWindow
  unfolding wanted
  scoped_for models [] = []
  scoped_for models (s ∷ ss) =
      let rest = scoped_for models ss in
      if wanted models s.name
      then record { label = s.name; pct = s.pct; resets_at = s.resets_at } ∷ rest
      else rest

  -- RelevantWindows
  unfoldable pub relevant_windows : List String → Usage → List RelevantWindow
  unfolding labelled scoped_for
  relevant_windows models u =
      labelled "5h" u.five_hour ++ (labelled "7d" u.seven_day ++ scoped_for models u.scoped)

  max_pct : Num → List RelevantWindow → Num
  max_pct m [] = m
  max_pct m (w ∷ ws) = max_pct (if less m w.pct then w.pct else m) ws

  headroom_from : List RelevantWindow → Option Num
  unfolding max_pct
  headroom_from [] = none
  headroom_from (w ∷ ws) = some (sub (ratio 100 1) (max_pct w.pct ws))

  -- AccountHeadroom
  unfoldable pub account_headroom : List String → Usage → Option Num
  unfolding headroom_from relevant_windows
  account_headroom models u = headroom_from (relevant_windows models u)

  later_of : Option Num → Num → Num
  later_of none t = t
  later_of (some l) t = if less l t then t else l

  -- parseResetTS and parseRenewalTS, whose two layouts are `parse_time`'s.
  pub parse_reset_ts : String → Option Num
  parse_reset_ts s = if str_eq s "" then none else parse_time s

  -- The latest reset of the windows that pass a test, skipping those that do not parse.
  pub latest_reset : (RelevantWindow → Bool) → Option Num → List RelevantWindow → Option Num
  unfolding later_of parse_reset_ts
  latest_reset test latest [] = latest
  latest_reset test latest (w ∷ ws) =
      latest_reset test
        (if test w
          then elim (parse_reset_ts w.resets_at) [
            | none ↦ latest
            | some t ↦ some (later_of latest t)
          ]
          else latest)
        ws

  pub weekly : RelevantWindow → Bool
  weekly w = not (str_eq w.label "5h")

  -- RenewalTS
  unfoldable pub renewal_ts : List String → Usage → Option Num
  unfolding latest_reset weekly
  renewal_ts models u = latest_reset weekly none (relevant_windows models u)

  unfoldable pub full : RelevantWindow → Bool
  full w = not (less w.pct (ratio 100 1))

  -- limitingResetTS
  unfoldable pub limiting_reset_ts : List String → Usage → Option Num
  unfolding latest_reset full
  limiting_reset_ts models u = latest_reset full none (relevant_windows models u)
