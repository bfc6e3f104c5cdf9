-- ===== src/Usage/Entry.antt =====
-- The read model of an account's usage row and the choice of the account to poll
-- (internal/usage/entry.go). Go's empty string for "none" is kept as "", and a nil pointer is
-- `none`. The candidates' order of strings is `string_less`, Go's < on strings.
pub mod Due
pub mod Stalest
use cswap.Base.{
  String, ℕ, Bool, true, false, not, ◌&&◌, ◌||◌, Option, none, some, List, [], ◌∷◌, if◌then◌else◌,
  ltb, leb, str_eq, sort,
}
use cswap.Numbers.{Numbers}
use cswap.Usage.{RawUsage}

module _ (N : Numbers) where
  open N use {Num, less, sub, ratio}

  pub record UsageEntry : Type 0 where
    pub sentinel : String
    pub last_good : Option (RawUsage N)
    pub fetched_at : Option Num
    pub age : Option Num
    pub last_attempt_at : Option Num
    pub consecutive_failures : ℕ
    pub last_error : String
    pub backoff_until : Option Num
    pub next_poll_at : Option Num
    pub poll_interval : Option Num
    pub last_429_at : Option Num
    pub auth_dead_strikes : ℕ
    pub trust_extended : Bool

  -- UsageEntry{}
  abbrev pub empty_entry : UsageEntry
  empty_entry = record {
    sentinel = "";
    last_good = none;
    fetched_at = none;
    age = none;
    last_attempt_at = none;
    consecutive_failures = 0;
    last_error = "";
    backoff_until = none;
    next_poll_at = none;
    poll_interval = none;
    last_429_at = none;
    auth_dead_strikes = 0;
    trust_extended = false;
  }

  pub fresh : UsageEntry → Num → Num → Bool
  fresh e now ttl = elim e.fetched_at [ none ↦ false | some t ↦ not (less ttl (sub now t)) ]

  -- The time is known and still to come.
  unfoldable pub ahead : Num → Option Num → Bool
  ahead now none = false
  ahead now (some t) = less now t

  pub in_backoff : UsageEntry → Num → Bool
  unfolding ahead
  in_backoff e now = ahead now e.backoff_until

  -- A claim of the given time is younger than ClaimTTLS.
  unfoldable pub claim_holds : Num → Option Num → Bool
  claim_holds now none = false
  claim_holds now (some t) = less (sub now t) (ratio 10 1)

  pub claimed : UsageEntry → Num → Bool
  unfolding claim_holds
  claimed e now = claim_holds now e.last_attempt_at

  -- AuthDeadStrikes is 1.
  pub token_dead : UsageEntry → Bool
  token_dead e = leb 1 e.auth_dead_strikes

  pub data Decision : Type 0 where
    by_sentinel : String → Decision
    by_usage : RawUsage N → Decision
    unknown : Decision

  unfoldable pub trusted : Option Num → Bool → Bool
  trusted none extended = false
  trusted (some a) extended = not (less (ratio 300 1) a) || extended

  -- DecisionValue
  unfoldable pub decision_value : UsageEntry → Decision
  unfolding trusted
  decision_value e =
      if not (str_eq e.sentinel "") then by_sentinel e.sentinel else elim e.last_good [
        | none ↦ unknown
        | some u ↦ if trusted e.age e.trust_extended then by_usage u else unknown
      ]

  -- WithSentinel
  pub with_sentinel : UsageEntry → String → UsageEntry
  with_sentinel e s = if str_eq s "" then e else record e { sentinel = s }

  -- A candidate with its rank: 0 when it was never fetched.
  pub record DueRow : Type 0 where
    pub rank : ℕ
    pub at : Num
    pub num : String

  pub never_fetched : String → DueRow
  never_fetched num = record { rank = 0; at = ratio 0 1; num = num }

  -- The candidate may be polled now.
  unfoldable pub pollable : UsageEntry → Num → Bool
  unfolding token_dead in_backoff ahead
  pollable e now =
      str_eq e.sentinel ""
      && (not (token_dead e) && (not (in_backoff e now) && not (ahead now e.next_poll_at)))

  pub due_row : String → Option UsageEntry → Num → Option DueRow
  unfolding never_fetched pollable
  due_row num none now = some (never_fetched num)
  due_row num (some e) now =
      if pollable e now
      then some (elim e.fetched_at [
        | none ↦ never_fetched num
        | some t ↦ record { rank = 1; at = t; num = num }
      ])
      else none

  prepend : Option DueRow → List DueRow → List DueRow
  prepend none rest = rest
  prepend (some r) rest = r ∷ rest

  pub due_rows : List String → (String → Option UsageEntry) → Num → List DueRow
  unfolding due_row prepend
  due_rows [] entries now = []
  due_rows (num ∷ nums) entries now =
      prepend (due_row num (entries num) now) (due_rows nums entries now)

  module _ (string_less : String → String → Bool) where
    -- The sort's comparison.
    unfoldable pub row_less : DueRow → DueRow → Bool
    row_less a b =
        if ltb a.rank b.rank
        then true
        else if ltb b.rank a.rank
        then false
        else if less a.at b.at
        then true
        else if less b.at a.at
        then false
        else string_less a.num b.num

    pub head_num : List DueRow → String
    head_num [] = ""
    head_num (r ∷ rs) = r.num

    -- DueCandidate
    unfoldable pub due_candidate : List String → (String → Option UsageEntry) → Num → String
    unfolding due_rows head_num row_less sort
    due_candidate candidates entries now =
        head_num (sort row_less (due_rows candidates entries now))
