-- ===== src/Autoswitch/Engine.antt =====
-- The engine's state and the state file (internal/autoswitch/switcher.go, state.go, events.go). The
-- Switcher facade is a parameter, as it is in the code, with the clock, the oauth client, the lock
-- and the disk. The file is read tolerantly: one that cannot be read is empty. Of an event, the
-- fields that say what happened are kept, and its time is left out. The quarantine is a list of its
-- entries; the code releases them in the order of their keys, the model in that of the list.
pub mod Quarantine
use cswap.Base.{
  String, Bool, true, false, not, ◌&&◌, ◌||◌, Option, none, some, List, [], ◌∷◌, ◌++◌,
  if◌then◌else◌, keep, str_eq, is_some,
}
use cswap.Numbers.{Numbers}
use cswap.Usage.Entry.{UsageEntry}
use cswap.Autoswitch.{Trigger}
use cswap.Autoswitch.Decide.{Memory}

-- oauth.RefreshOutcome: its error, its credentials ("" for none), and the token's account as the
-- uuid and the organization's uuid.
pub record RefreshOutcome : Type 0 where
  pub error : String
  pub credentials : String
  pub token_account : Option (String × String)

-- An account in an event, as refOf and SwitchTo's payload give it.
pub record Ref : Type 0 where
  pub number : String
  pub email : String

-- The payload of SwitchTo: the keys that perform reads, with `none` for a ref that is no map.
pub record SwitchPayload : Type 0 where
  pub switched : Bool
  pub reason : String
  pub from : Option Ref
  pub to : Option Ref
  pub warnings : List String

pub data Event : Type 0 where
  poll_event : Option String → Event
  no_switch_event : String → Event
  -- the account that it was switched from, the one that it was switched to, the warnings, and whether
  -- it was a dry run
  switch_event : Trigger → Option Ref → Option Ref → List String → Bool → Event
  quarantine_event : String → String → Event
  unquarantine_event : String → String → Event
  error_event : String → Event
  -- whether a recovery time is known
  all_exhausted_event : Bool → Event

-- A quarantine entry of the state file.
pub record QuarantineEntry : Type 0 where
  pub email : String
  pub reason : String
  pub fingerprint : Option String

module _ (N : Numbers) where
  open N use {Num}

  -- What the engine calls. A Boolean result says that the call returned no error.
  pub record Switcher : Type 1 where
    pub World : Type 0
    pub now_seconds : World → Num
    pub current_account : World → Option String
    pub has_live_login : World → Bool
    pub switchable : World → List String
    -- UsageEntriesByAccount, with the slots to poll
    pub usage_entries : List String → World → List (String × UsageEntry N) × World
    pub account_email : World → String → String
    pub is_api_key : World → String → Bool
    pub has_live_session : World → String → String → Bool
    pub read_credentials : World → String → String → String
    pub account_identity : World → String → String × String
    pub persist : String → String → String → World → Bool × World
    pub backfill : String → String → World → World
    pub switch_to : String → World → Option SwitchPayload × World
    pub refresh : String → World → RefreshOutcome × World
    -- The lock of the state file, and a write of it.
    pub take_lock : World → Bool × World
    pub write_file : World → Bool × World
    -- oauth.ExtractOAuthData as a JSON decoder: the expiresAt of data that has one
    pub oauth_data : String → Option (Option Num)
    pub fingerprint : String → Option String
    pub trim_space : String → String
    -- Go's < on strings
    pub string_less : String → String → Bool

  pub record StateFile : Type 0 where
    pub last_switch_at : Option Num
    pub last_switch_to : Option String
    pub quarantine : List (String × QuarantineEntry)

  module _ (S : Switcher) where
    open S use {World, account_email, read_credentials, take_lock, write_file, fingerprint}

    -- The engine's surroundings, with the events in the order newest first.
    pub record Machine : Type 0 where
      pub world : World
      pub file : StateFile
      pub events : List Event
      pub memory : Memory N
      pub sleep_until : Option Num
      pub blocked_wait_long : Bool

    -- A call that returns an error has no result.
    abbrev pub Exec : Type 0 → Type 0
    Exec A = Machine → Option A × Machine

    unfoldable pub emit : Event → Machine → Machine
    emit e m = record m { events = e ∷ m.events }

    -- mutateState
    unfoldable pub mutate_state : (StateFile → StateFile) → Exec StateFile
    mutate_state change m =
        let (locked, w) = take_lock m.world in
        let (written, w') = write_file w in
        if not locked
        then (none, record m { world = w })
        else if not written
        then (none, record m { world = w' })
        else (some (change m.file), record m { world = w'; file = change m.file })

    -- The slot is in the list.
    unfoldable pub in_quarantine : List (String × QuarantineEntry) → String → Bool
    in_quarantine [] num = false
    in_quarantine ((n, e) ∷ rest) num = if str_eq n num then true else in_quarantine rest num

    unfoldable pub drop_entry :
        String → List (String × QuarantineEntry) → List (String × QuarantineEntry)
    drop_entry num entries = keep (λ p. not (str_eq p.0 num)) entries

    -- The refresh-token fingerprint of credentials, none for "".
    unfoldable pub fingerprint_of : String → Option String
    fingerprint_of creds = if str_eq creds "" then none else fingerprint creds

    -- The event that follows a change of the state file.
    unfoldable pub announce : Event → Option StateFile × Machine → Option (Unit {0}) × Machine
    unfolding emit
    announce e (none, m) = (none, m)
    announce e (some f, m) = (some tt, emit e m)

    -- quarantine
    unfoldable pub quarantine : String → String → String → Exec (Unit {0})
    unfolding mutate_state announce drop_entry fingerprint_of
    quarantine num email reason m =
        let entry : QuarantineEntry = record {
          email = email;
          reason = reason;
          fingerprint = fingerprint_of (read_credentials m.world num email);
        } in
        announce (quarantine_event num reason) (
          mutate_state (λ f. record f { quarantine = (num, entry) ∷ drop_entry num f.quarantine })
            m)

    same_fingerprint : Option String → Option String → Bool
    same_fingerprint none none = true
    same_fingerprint none (some b) = false
    same_fingerprint (some a) none = false
    same_fingerprint (some a) (some b) = str_eq a b

    -- Why an entry is released, if it is.
    unfoldable pub release_reason : World → String → QuarantineEntry → Option String
    unfolding same_fingerprint fingerprint_of
    release_reason w num e =
        let email_now = account_email w num in
        if str_eq email_now "" || not (str_eq email_now e.email)
        then some "account-replaced"
        else if same_fingerprint (fingerprint_of (read_credentials w num email_now)) e.fingerprint
        then none
        else some "credentials-replaced"

    with_reason : String → Option String → List (String × String) → List (String × String)
    with_reason num none others = others
    with_reason num (some r) others = (num, r) ∷ others

    unfoldable pub to_release : World → List (String × QuarantineEntry) → List (String × String)
    unfolding release_reason with_reason
    to_release w [] = []
    to_release w ((num, e) ∷ rest) = with_reason num (release_reason w num e) (to_release w rest)

    drop_all :
        List (String × String) → List (String × QuarantineEntry) → List (String × QuarantineEntry)
    unfolding drop_entry
    drop_all [] entries = entries
    drop_all ((num, r) ∷ rest) entries = drop_all rest (drop_entry num entries)

    emit_released : List (String × String) → Machine → Machine
    unfolding emit
    emit_released [] m = m
    emit_released ((num, r) ∷ rest) m = emit_released rest (emit (unquarantine_event num r) m)

    release_all : List (String × String) → Exec (Unit {0})
    unfolding mutate_state drop_all emit_released
    release_all [] m = (some tt, m)
    release_all (r ∷ rest) m =
        let (done, m') =
          mutate_state (λ f. record f { quarantine = drop_all (r ∷ rest) f.quarantine }) m in
        elim done [ none ↦ (none, m') | some f ↦ (some tt, emit_released (r ∷ rest) m') ]

    -- releaseRecoveredQuarantines
    unfoldable pub release_recovered : Exec (Unit {0})
    unfolding to_release release_all
    release_recovered m = release_all (to_release m.world m.file.quarantine) m
