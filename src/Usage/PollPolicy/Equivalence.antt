-- ===== src/Usage/PollPolicy/Equivalence.antt =====
-- The windows that the polling code reads off the map are those of its typed projection.
use cswap.Base.{
  String, ◌≡◌, refl, Bool, true, false, ◌||◌, Option, none, some, List, [], ◌∷◌, ◌++◌,
  if◌then◌else◌, All, Bool-cases, Option-cases, inl, inr, str_eq,
}
use cswap.Numbers.{Numbers}
use cswap.Usage.{
  RawWindow, RawUsage, RelevantWindow, ScopedWindow, named_scoped, project_one, project_scoped,
  project_window, new_usage, wanted, labelled, scoped_for, relevant_windows,
}
use cswap.Usage.PollPolicy.{
  raw_labelled, match_all, is_wanted, raw_scoped_one, raw_scoped, raw_windows,
}

module _ (N : Numbers) where
  open N use {Num, to_lower}

  -- A scoped window is not named "".
  abbrev pub Named : Option (RawWindow N) → Type 0
  Named none = Unit
  Named (some w) = elim w.name [ none ↦ Unit | some n ↦ str_eq n "" ≡ false ]

  wanted-match_all :
      (models : List String) (name : String)
      → wanted N models name ≡ match_all N models || is_wanted N models (to_lower name)
  unfolding wanted match_all is_wanted
  wanted-match_all [] name = refl
  wanted-match_all (m ∷ ms) name = rw (wanted-match_all ms name) (
      shuffle (str_eq (to_lower m) "all") (str_eq (to_lower m) (to_lower name)) (match_all N ms)
        (is_wanted N ms (to_lower name)))
    where
      shuffle : (a b c d : Bool) → (a || b) || (c || d) ≡ (a || c) || (b || d)
      shuffle true b c d = refl
      shuffle false true true d = refl
      shuffle false true false d = refl
      shuffle false false c d = refl

  labelled-raw_labelled :
      (label : String) (w : Option (RawWindow N))
      → raw_labelled N label w ≡ labelled N label (project_window N w)
  unfolding raw_labelled labelled project_window
  labelled-raw_labelled label none = refl
  labelled-raw_labelled label (some w) = elim (Option-cases w.pct) [
    | inl e ↦ rw e refl
    | inr (p, e) ↦ rw e refl
  ]

  scoped_for-append :
      (models : List String) (ss ts : List (ScopedWindow N))
      → scoped_for N models (ss ++ ts) ≡ scoped_for N models ss ++ scoped_for N models ts
  unfolding scoped_for
  scoped_for-append models [] ts = refl
  scoped_for-append models (s ∷ ss) ts = elim (Bool-cases (wanted N models s.name)) [
    | inl e ↦ rw (e, scoped_for-append models ss ts) refl
    | inr e ↦ rw (e, scoped_for-append models ss ts) refl
  ]

  raw_scoped_one-project_one :
      (models : List String) (w : Option (RawWindow N))
      → Named w
      → raw_scoped_one N models w ≡ scoped_for N models (project_one N w)
  unfolding raw_scoped_one scoped_for project_one named_scoped
  raw_scoped_one-project_one models none h = refl
  raw_scoped_one-project_one models (some w) h = elim (Option-cases w.pct) [
    | inl e ↦ elim (Option-cases w.name) [ inl d ↦ rw (d, e) refl | inr (n, d) ↦ rw (d, e) refl ]
    | inr (p, e) ↦ elim (Option-cases w.name) [
      | inl d ↦ rw (e, d) refl
      | inr (n, d) ↦ rw (e, d, e, named n d, wanted-match_all models n) (pick _ _)
    ]
  ]
    where
      named : (n : String) → w.name ≡ some n → str_eq n "" ≡ false
      named n d = rw d at h

      pick :
          (x : RelevantWindow N) (b : Bool)
          → (if b then x ∷ [] else []) ≡ (if b then x ∷ [] else [])
      pick x b = refl

  raw_scoped-project_scoped :
      (models : List String) (ws : List (Option (RawWindow N)))
      → All Named ws
      → raw_scoped N models ws ≡ scoped_for N models (project_scoped N ws)
  unfolding raw_scoped project_scoped scoped_for
  raw_scoped-project_scoped models [] h = refl
  raw_scoped-project_scoped models (w ∷ ws) h =
      rw
        (
          raw_scoped_one-project_one models w h.0,
          raw_scoped-project_scoped models ws h.1,
          scoped_for-append models (project_one N w) (project_scoped N ws),
        )
        refl

  -- Where no scoped window is named "", the decision windows that the polling code reads off the
  -- normalized map are the relevant windows of the map's typed projection, in the same order.
  pub raw_windows-relevant_windows :
      (models : List String) (raw : RawUsage N)
      → All Named raw.scoped
      → raw_windows N models (some raw) ≡ relevant_windows N models (new_usage N raw)
  unfolding raw_windows relevant_windows new_usage
  raw_windows-relevant_windows models raw h =
      rw
        (
          labelled-raw_labelled "5h" raw.five_hour,
          labelled-raw_labelled "7d" raw.seven_day,
          raw_scoped-project_scoped models raw.scoped h,
        )
        refl
