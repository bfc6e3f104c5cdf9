-- ===== src/Autoswitch/Select.antt =====
-- The ordered targets of a tick (internal/autoswitch/tick.go: selectCandidates, sortQualifying).
-- What the engine reads of the accounts is a parameter: the switchable slots in rotation order,
-- their kinds, their decision headrooms and their weekly renewals.
pub mod Order
pub mod Targets
use cswap.Base.{
  String, Bool, true, false, not, ◌&&◌, ◌||◌, Option, none, some, List, [], ◌∷◌, ◌++◌,
  if◌then◌else◌, is_some, is_none, keep, sort, str_eq,
}
use cswap.Numbers.{Numbers}
use cswap.Autoswitch.{Settings, Trigger, proactive, at_limit, failover}

unfoldable pub is_proactive : Trigger → Bool
is_proactive proactive = true
is_proactive at_limit = false
is_proactive failover = false

module _ (N : Numbers) where
  open N use {Num, less, sub, ratio}

  -- What the engine knows of the accounts in a tick.
  pub record Accounts : Type 0 where
    pub switchable : List String
    pub is_api_key : String → Bool
    pub quarantined : String → Bool
    pub headroom : String → Option Num
    pub renewal : String → Option Num

  -- qual
  pub record Qual : Type 0 where
    pub h : Num
    pub renewal : Option Num
    pub num : String

  unfoldable pub candidates : Accounts → String → List String
  candidates a cur = keep (λ n. not (str_eq n cur) && not (a.quarantined n)) a.switchable

  unfoldable pub oauth_candidates : Accounts → String → List String
  unfolding candidates
  oauth_candidates a cur = keep (λ n. not (a.is_api_key n)) (candidates a cur)

  unfoldable pub api_key_candidates : Settings N → Accounts → String → List String
  unfolding candidates
  api_key_candidates s a cur =
      keep (λ n. a.is_api_key n && s.include_api_key_accounts) (candidates a cur)

  -- The two gates of a proactive switch: landing below the threshold, and better by the margin.
  unfoldable pub passes_gates : Settings N → Option Num → Num → Bool
  passes_gates s none h = true
  passes_gates s (some active) h =
      less (sub (ratio 100 1) h) s.threshold && not (less (sub h active) s.hysteresis_pct)

  -- A candidate of headroom `h` qualifies.
  unfoldable pub qualifies : Settings N → Trigger → Option Num → Num → Bool
  unfolding passes_gates is_proactive
  qualifies s trigger active h =
      less (ratio 0 1) h && (if is_proactive trigger then passes_gates s active h else true)

  unfoldable pub quals_of :
      Settings N → Accounts → Trigger → Option Num → String → Option Num → List Qual
  unfolding qualifies
  quals_of s a trigger active n none = []
  quals_of s a trigger active n (some h) =
      if qualifies s trigger active h
      then record { h = h; renewal = a.renewal n; num = n } ∷ []
      else []

  -- The loop over the oauth candidates.
  unfoldable pub qualifying : Settings N → Accounts → Trigger → Option Num → List String → List Qual
  unfolding quals_of
  qualifying s a trigger active [] = []
  qualifying s a trigger active (n ∷ ns) =
      quals_of s a trigger active n (a.headroom n) ++ qualifying s a trigger active ns

  unfoldable pub below_threshold : Num → Qual → Bool
  below_threshold threshold q = less (sub (ratio 100 1) q.h) threshold

  -- The comparison of two accounts below the threshold.
  unfoldable pub renews_first : Option Num → Option Num → Bool → Bool
  renews_first none none more = more
  renews_first none (some b) more = false
  renews_first (some a) none more = true
  renews_first (some a) (some b) more = if less a b then true else if less b a then false else more

  -- The comparisons of the strategies "best" and "soonest-reset".
  unfoldable pub more_headroom : Qual → Qual → Bool
  more_headroom a b = less b.h a.h

  unfoldable pub sooner_reset : Num → Qual → Qual → Bool
  unfolding below_threshold renews_first more_headroom
  sooner_reset threshold a b =
      if below_threshold threshold a
      then if below_threshold threshold b
        then renews_first a.renewal b.renewal (more_headroom a b)
        else true
      else if below_threshold threshold b
      then false
      else more_headroom a b

  unfoldable pub goes_first : Settings N → Qual → Qual → Bool
  unfolding sooner_reset more_headroom
  goes_first s a b =
      if str_eq s.strategy "soonest-reset" then sooner_reset s.threshold a b else more_headroom a b

  -- sortQualifying
  unfoldable pub sort_qualifying : Settings N → List Qual → List Qual
  unfolding goes_first sort
  sort_qualifying s quals = sort (goes_first s) quals

  unfoldable pub nums_of : List Qual → List String
  nums_of [] = []
  nums_of (q ∷ qs) = q.num ∷ nums_of qs

  -- What selectCandidates returns; `blocked` is its early return.
  pub record Selection : Type 0 where
    pub ordered : List String
    pub any_known : Bool
    pub blocked : Bool

  unfoldable pub any_headroom : Accounts → List String → Bool
  any_headroom a [] = false
  any_headroom a (n ∷ ns) = is_some (a.headroom n) || any_headroom a ns

  -- The oauth targets, or the API keys as the last resort.
  unfoldable pub or_last_resort : List String → List String → List String
  or_last_resort [] api_keys = api_keys
  or_last_resort (n ∷ ns) api_keys = n ∷ ns

  unfoldable pub no_candidates : List String → List String → Bool
  no_candidates [] [] = true
  no_candidates [] (n ∷ ns) = false
  no_candidates (n ∷ ns) api_keys = false

  -- selectCandidates
  unfoldable pub select_candidates : Settings N → Accounts → String → Trigger → Selection
  unfolding oauth_candidates api_key_candidates qualifying sort_qualifying nums_of any_headroom
      or_last_resort no_candidates
  select_candidates s a cur trigger =
      let oauth = oauth_candidates a cur in
      let api_keys = api_key_candidates s a cur in
      if no_candidates oauth api_keys
      then record { ordered = []; any_known = false; blocked = true }
      else record {
        ordered =
            or_last_resort
              (nums_of (sort_qualifying s (qualifying s a trigger (a.headroom cur) oauth)))
              api_keys;
        any_known = any_headroom a oauth;
        blocked = false;
      }
