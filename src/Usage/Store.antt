-- ===== src/Usage/Store.antt =====
-- The usage table (internal/usage/store.go): identity-guarded rows under a lock. A table is a
-- function from slot keys to rows, `none` where the file holds no object. A JSON null and a value
-- of another type are `none` too. The two counters are ℕ: a negative or fractional one, which the
-- code never writes, is not modelled. What a write puts in the file is what the next read finds.
pub mod Rows
pub mod Reserve
pub mod Record
use cswap.Base.{
  String, ℕ, Bool, true, false, not, ◌&&◌, ◌||◌, Option, none, some, List, [], ◌∷◌, if◌then◌else◌,
  ltb, leb, str_eq, is_some, is_none,
}
use cswap.Numbers.{Numbers}
use cswap.Usage.{RawUsage}
use cswap.Usage.Entry.{UsageEntry, empty_entry, ahead, claim_holds}

-- Identity
pub record Identity : Type 0 where
  pub email : String
  pub org_uuid : String

-- A row's organizationUuid: it has none, a string, or something else.
pub data OrgField : Type 0 where
  absent : OrgField
  text : String → OrgField
  other : OrgField

-- How a locked pass fares: the lock is not taken, the write fails, or both work.
pub record Luck : Type 0 where
  pub locked : Bool
  pub written : Bool

org_matches : OrgField → String → Bool
org_matches absent org = str_eq "" org
org_matches (text s) org = str_eq s org
org_matches other org = false

email_matches : Option String → String → Bool
email_matches none email = false
email_matches (some s) email = str_eq s email

module _ (N : Numbers) where
  open N use {Num, less, add, sub, ratio}

  pub record Row : Type 0 where
    pub email : Option String
    pub organization_uuid : OrgField
    pub last_good : Option (RawUsage N)
    pub fetched_at : Option Num
    pub last_attempt_at : Option Num
    pub consecutive_failures : ℕ
    pub last_error : Option String
    pub backoff_until : Option Num
    pub next_poll_at : Option Num
    pub poll_interval : Option Num
    pub last_429_at : Option Num
    pub auth_dead_strikes : ℕ

  abbrev pub Rows : Type 0
  Rows = String → Option Row

  -- matches
  unfoldable pub matches : Option Row → Identity → Bool
  unfolding org_matches email_matches
  matches none id = false
  matches (some r) id =
      email_matches r.email id.email && org_matches r.organization_uuid id.org_uuid

  -- freshRow
  unfoldable pub fresh_row : Identity → Row
  fresh_row id = record {
    email = some id.email;
    organization_uuid = text id.org_uuid;
    last_good = none;
    fetched_at = none;
    last_attempt_at = none;
    consecutive_failures = 0;
    last_error = none;
    backoff_until = none;
    next_poll_at = none;
    poll_interval = none;
    last_429_at = none;
    auth_dead_strikes = 0;
  }

  -- The row of the identity: the stored one, or a fresh one where another account's stands.
  unfoldable pub guarded : Option Row → Identity → Row
  unfolding matches fresh_row
  guarded none id = fresh_row id
  guarded (some r) id = if matches (some r) id then r else fresh_row id

  unfoldable pub put : String → Row → Rows → Rows
  put num r rows k = if str_eq k num then some r else rows k

  age_of : Num → Option Num → Option Num
  age_of now none = none
  age_of now (some t) = some (sub now t)

  not_older : Option Num → Bool
  not_older none = false
  not_older (some a) = not (less (ratio 3600 1) a)

  -- One slot of Entries
  unfoldable pub entry_of : Num → Option Row → Identity → UsageEntry N
  unfolding matches age_of not_older ahead claim_holds
  entry_of now none id = empty_entry N
  entry_of now (some r) id =
      if matches (some r) id
      then record {
        sentinel = "";
        last_good = r.last_good;
        fetched_at = r.fetched_at;
        age = age_of now r.fetched_at;
        last_attempt_at = r.last_attempt_at;
        consecutive_failures = r.consecutive_failures;
        last_error = elim r.last_error [ none ↦ "" | some e ↦ e ];
        backoff_until = r.backoff_until;
        next_poll_at = r.next_poll_at;
        poll_interval = r.poll_interval;
        last_429_at = r.last_429_at;
        auth_dead_strikes = r.auth_dead_strikes;
        trust_extended =
            not_older (age_of now r.fetched_at)
            && (leb 1 r.consecutive_failures
                || ahead N now r.next_poll_at
                || claim_holds N now r.last_attempt_at);
      }
      else empty_entry N

  -- Entries
  unfoldable pub entries : Num → Rows → (String → Identity) → String → UsageEntry N
  unfolding entry_of
  entries now rows ids num = entry_of now (rows num) (ids num)

  -- The loop of mutate.
  unfoldable pub change_rows :
      (String → Row → Row) → (String → Identity) → List String → Rows → Rows
  unfolding guarded put
  change_rows change ids [] rows = rows
  change_rows change ids (num ∷ nums) rows =
      change_rows change ids nums (put num (change num (guarded (rows num) (ids num))) rows)

  -- mutate: whether it returned no error, and the table.
  unfoldable pub mutate :
      Luck → (String → Identity) → List String → (String → Row → Row) → Rows → Bool × Rows
  unfolding change_rows
  mutate luck ids nums change rows =
      if luck.locked && luck.written
      then (true, change_rows change ids nums rows)
      else (false, rows)

  pub stamp : Num → Row → Row
  stamp now r = record r { last_attempt_at = some now }

  -- Claim
  unfoldable pub claim : Luck → Num → List String → (String → Identity) → Rows → Bool × Rows
  unfolding mutate stamp
  claim luck now [] ids rows = (true, rows)
  claim luck now (num ∷ nums) ids rows = mutate luck ids (num ∷ nums) (λ n r. stamp now r) rows

  is_stale : Num → Option Num → Bool
  is_stale now none = true
  is_stale now (some t) = less (ratio 180 1) (sub now t)

  -- rowEligible
  unfoldable pub row_eligible : Row → Num → Bool → Bool
  unfolding ahead claim_holds is_stale
  row_eligible r now respect_plans =
      if leb 1 r.auth_dead_strikes
      then false
      else if ahead N now r.backoff_until
      then false
      else if claim_holds N now r.last_attempt_at
      then false
      else (let stale = is_stale now r.fetched_at in
          let poll_due = is_some r.next_poll_at && not (ahead N now r.next_poll_at) in
          if respect_plans
          then stale && (poll_due || is_none r.next_poll_at)
          else poll_due || stale)

  -- A slot is passed over when its own row is not eligible.
  unfoldable pub refused : Option Row → Identity → Num → Bool → Bool
  unfolding matches row_eligible
  refused none id now respect_plans = false
  refused (some r) id now respect_plans =
      matches (some r) id && not (row_eligible r now respect_plans)

  -- The loop of Reserve: the slots won, in order, and the table.
  unfoldable pub reserve_rows :
      Num → Bool → (String → Identity) → List String → Rows → List String × Rows
  unfolding refused guarded put stamp
  reserve_rows now respect_plans ids [] rows = ([], rows)
  reserve_rows now respect_plans ids (num ∷ nums) rows =
      let skipped = reserve_rows now respect_plans ids nums rows in
      let won =
        reserve_rows now respect_plans ids nums
          (put num (stamp now (guarded (rows num) (ids num))) rows) in
      if refused (rows num) (ids num) now respect_plans then skipped else (num ∷ won.0, won.1)

  -- The table is written only when a slot was won.
  unfoldable pub settle : Luck → Rows → List String → Rows → Option (List String) × Rows
  settle luck rows [] after = if luck.locked then (some [], rows) else (none, rows)
  settle luck rows (w ∷ ws) after =
      if luck.locked && luck.written then (some (w ∷ ws), after) else (none, rows)

  -- Reserve: the slots won, `none` on an error, and the table.
  unfoldable pub reserve :
      Luck → Num → Bool → (String → Identity) → List String → Rows → Option (List String) × Rows
  unfolding reserve_rows settle
  reserve luck now respect_plans ids [] rows = (some [], rows)
  reserve luck now respect_plans ids (num ∷ nums) rows =
      let (won, after) = reserve_rows now respect_plans ids (num ∷ nums) rows in
      settle luck rows won after
