-- ===== src/Switching/Normal/Total.antt =====
-- The normal switch returns where its inputs are there and the environment fails no call.
use cswap.Base.{ℕ, String, ◌≡◌, ◌≢◌, refl, ap, ◌∙◌, false, not, Option, some, []}
use cswap.Runtime.{Runtime}
use cswap.Roster.{SequenceData}
use cswap.Files.{
  Result, ok, err, World, answer, rest, ask, decode, credential_unreadable, config_unreadable,
  read_config_text,
}
use cswap.Files.Active.{read_active}
use cswap.Files.Active.Effects.{IsOauth, HasNoManagedKey, read_active-ok}
use cswap.Files.Frame.{Reads}
use cswap.Files.Hoare.{Post, returned, failed, Post-bind, pure-Post, modify-Post}
use cswap.Switching.Provenance.{Provenance}
use cswap.Switching.Transaction.{SwitchTransaction}
use cswap.Switching.Shared.{SwitchOp, oauth_section, replace_error}
use cswap.Switching.Normal.{normal_switch, normal_switch_body, undo_failure}
use cswap.Switching.Normal.Ready.{Ready, Ready-Reads, Sure-backup_outgoing}
use cswap.Switching.Normal.Returns.{
  guard-returns, or_fail-returns, retrieve_target-returns, activate-returns,
}

module _ (R : Runtime) where
  open R use {Text, text_eq, blank, trim_text, Object, unmarshal}

  undo_failure-returns :
      {A : Type 0} {Q : A → World R → Type 0} (tx : SwitchTransaction R) (out : Result A × World R)
      → Post (λ v. ⊥) Q out
      → Post (λ v. ⊥) Q (undo_failure R tx out)
  unfolding undo_failure
  undo_failure-returns tx (ok a, v) p = p
  undo_failure-returns tx (err e, v) (failed f) = absurd f

  Post-returns :
      {A : Type 0} {Q : A → World R → Type 0} (out : Result A × World R)
      → Post (λ v. ⊥) Q out
      → (a : A) × (out.0 ≡ ok a)
  Post-returns (ok a, v) p = (a, refl)
  Post-returns (err e, v) (failed f) = absurd f

  module _ (target : ℕ) (target_email : String) (current : ℕ) (current_email : String)
      (prov : Provenance R) (sd : SequenceData) (w : World R) (live live_config : Text)
      (backup : Option Object) (account cfg : Object) (other : target ≢ current)
      (file : w.credentials_file ≡ some live) (present : text_eq (trim_text live) blank ≡ false)
      (filled : text_eq live blank ≡ false) (text : w.global_config ≡ some live_config)
      (decoded : decode R (some live_config) ≡ some cfg)
      (clean : HasNoManagedKey R (some live_config))
      (oauth : IsOauth R (w.credential_backups target target_email))
      (has_creds : text_eq (w.credential_backups target target_email) blank ≡ false)
      (has_config : text_eq (w.config_backups target target_email) blank ≡ false)
      (stored : unmarshal (w.config_backups target target_email) ≡ some backup)
      (section : oauth_section R backup ≡ some account) (no_refusals : w.refusals ≡ [])
      (no_chmods : w.chmod_failures ≡ []) where
    abbrev Here : World R → Type 0
    Here v =
        Ready R target target_email (w.credential_backups target target_email)
          (w.config_backups target target_email) live_config v

    here : Here w
    here = record {
      no_refusals = no_refusals;
      no_chmods = no_chmods;
      stored_creds = refl;
      stored_config = refl;
      text = text;
    }

    read_live-returns :
        Post
          (λ v. ⊥)
          (λ c v. Here v × (c ≡ live))
          (replace_error R credential_unreadable (read_active R) w)
    unfolding replace_error
    read_live-returns = go (read_active R w) (read_active-ok R live w file present no_refusals)
      where
        go :
            (out : Result Text × World R)
            → (out.0 ≡ ok live) × Reads R w out
            → Post
                (λ v. ⊥)
                (λ c v. Here v × (c ≡ live))
                (elim out.0 [ ok a ↦ ok a | err _ ↦ err credential_unreadable ], out.1)
        go (ok a, v) (e, r) =
            returned (Ready-Reads R target target_email _ _ live_config w _ here r, cc)
        go (err d, v) (e, r) = cc

    read_text-returns :
        (v : World R)
        → Here v
        → Post
            (λ u. ⊥)
            (λ found u. Here u × (found ≡ some live_config))
            (replace_error R config_unreadable (read_config_text R) v)
    unfolding replace_error read_config_text ask answer rest
    read_text-returns v h = rw h.no_refusals (
        returned (
          record {
            no_refusals = refl;
            no_chmods = h.no_chmods;
            stored_creds = h.stored_creds;
            stored_config = h.stored_config;
            text = h.text;
          },
          h.text,
        ))

    body-returns :
        (creds config : Text) (v : World R)
        → Here v
        → Post
            (λ u. ⊥)
            (λ a u. Unit {0})
            (normal_switch_body R target target_email current current_email creds config prov sd v)
    unfolding normal_switch_body
    body-returns creds config v h =
        Post-bind (λ a u. Here u) _ _ v
          ((Sure-backup_outgoing R target target_email _ _ live_config current other current_email
              creds config prov sd).at
            v h)
          λ (sd', warnings) v1 h1.
            Post-bind _ _ _ v1
              (retrieve_target-returns R target target_email _ _ live_config v1 has_creds has_config
                h1)
              λ (c, g) v2 (h2, e2, f2).
                Post-bind (λ a u. Unit {0}) _ _ v2
                  (rw (e2, f2)
                    (activate-returns R target target_email _ _ live_config oauth clean backup
                      account cfg sd' v2 stored section decoded h2))
                  λ a v3 u. pure-Post warnings v3 tt

    normal_switch-runs :
        Post
          (λ v. ⊥)
          (λ a v. Unit {0})
          (normal_switch R target target_email current current_email prov sd w)
    unfolding normal_switch
    normal_switch-runs = Post-bind _ _ _ w read_live-returns λ creds w1 (h1, e1).
        Post-bind (λ a v. Here v) _ _ w1
          (guard-returns R _ _ w1 (ap (λ x. not (text_eq x blank)) e1 ∙ ap not filled) h1)
          λ a w2 h2. Post-bind _ _ _ w2 (read_text-returns w2 h2) λ found w3 (h3, e3).
            Post-bind _ _ _ w3 (or_fail-returns R {Q = Here} found live_config _ w3 e3 h3)
              λ config w4 (e4, h4).
                Post-bind (λ a v. Here v) _ _ w4
                  (modify-Post _ w4 (record {
                    no_refusals = h4.no_refusals;
                    no_chmods = h4.no_chmods;
                    stored_creds = h4.stored_creds;
                    stored_config = h4.stored_config;
                    text = h4.text;
                  }))
                  λ a w5 h5.
                    Post-bind (λ a v. Unit {0}) _ _ w5
                      (undo_failure-returns _ _ (body-returns creds config w5 h5))
                      λ warnings w6 u. pure-Post _ w6 tt

    -- A normal switch to another slot returns where no call of the environment fails, the live
    -- credential is neither empty nor white space, ~/.claude.json is an object without a managed
    -- key, and the target has a stored OAuth credential and a stored config with an oauthAccount.
    pub normal_switch-returns :
        (op : SwitchOp) × ((normal_switch R target target_email current current_email prov sd w).0
          ≡ ok op)
    normal_switch-returns = Post-returns _ normal_switch-runs
