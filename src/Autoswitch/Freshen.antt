-- ===== src/Autoswitch/Freshen.antt =====
-- Freshening a target's token before the switch (internal/autoswitch/freshen.go).
use cswap.Base.{
  String, Bool, true, false, not, ◌&&◌, ◌||◌, Option, none, some, if◌then◌else◌, str_eq,
}
use cswap.Numbers.{Numbers}
use cswap.Autoswitch.Engine.{RefreshOutcome, Switcher, Exec}

-- The status strings of freshenTarget.
pub data Status : Type 0 where
  ok : Status
  skip_live_session : Status
  transient : Status
  invalid_grant : Status
  identity_conflict : Status

module _ (N : Numbers) (S : Switcher N) where
  open N use {Num, less, add, mul, ratio}
  open S use {
    World, now_seconds, is_api_key, has_live_session, read_credentials, account_identity, persist,
    backfill, refresh, oauth_data, trim_space,
  }

  -- The token expires within FreshenBufferMS.
  near_expiry : Num → Option Num → Bool
  near_expiry now none = false
  near_expiry now (some ms) = not (less (add (mul now (ratio 1000 1)) (ratio 600000 1)) ms)

  compare_identity : String → String → String → World → Bool × World
  compare_identity num uuid org w =
      let (slot_uuid, slot_org) = account_identity w num in
      if not (str_eq org "") && (not (str_eq slot_org "") && not (str_eq org slot_org))
      then (true, w)
      else if str_eq slot_uuid ""
      then (false, backfill num uuid w)
      else (not (str_eq slot_uuid uuid), w)

  -- noteTokenIdentity: whether the token is another account's.
  unfoldable pub note_token_identity : String → Option (String × String) → World → Bool × World
  unfolding compare_identity
  note_token_identity num none w = (false, w)
  note_token_identity num (some (uuid, org)) w =
      if str_eq (trim_space uuid) ""
      then (false, w)
      else compare_identity num (trim_space uuid) org w

  refreshed : String → String → RefreshOutcome → Exec N S Status
  unfolding note_token_identity
  refreshed num email out m =
      if str_eq out.error "" && not (str_eq out.credentials "")
      then (let (saved, w) = persist num email out.credentials m.world in
          let (conflict, w') = note_token_identity num out.token_account w in
          if not saved
          then (none, record m { world = w })
          else (some (if conflict then identity_conflict else ok), record m { world = w' }))
      else (
        some (
            if str_eq out.error "invalid_grant" || str_eq out.error "no_refresh_token"
            then invalid_grant
            else transient),
        m,
      )

  -- freshenTarget
  unfoldable pub freshen_target : String → String → Exec N S Status
  unfolding near_expiry refreshed
  freshen_target num email m =
      let creds = read_credentials m.world num email in
      let (out, w) = refresh creds m.world in
      if is_api_key m.world num
      then (some ok, m)
      else if has_live_session m.world num email
      then (some skip_live_session, m)
      else if str_eq creds ""
      then (some transient, m)
      else elim (oauth_data creds) [
        | none ↦ (some invalid_grant, m)
        | some expires ↦
            if not (near_expiry (now_seconds m.world) expires)
            then (some ok, m)
            else refreshed num email out (record m { world = w })
      ]
