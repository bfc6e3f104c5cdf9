-- ===== src/Switching/Normal/Outcome.antt =====
-- A completed normal switch has activated the target.
use mathlib.Core.Path.{subst}
use cswap.Base.{ℕ, String, ◌≡◌, sym, ap, ◌∙◌, false, some, []}
use cswap.Runtime.{Runtime}
use cswap.Roster.{SequenceData}
use cswap.Files.{ok, World}
use cswap.Files.Active.{looks_like_api_key}
use cswap.Files.Active.Effects.{IsOauth, HasNoManagedKey}
use cswap.Files.Frame.{Face, face, Vault, vault}
use cswap.Files.Hoare.{Post, Post-bind, Post-mono, Post-and, Post-ok, pure-Post}
use cswap.Switching.Provenance.{Provenance}
use cswap.Switching.Shared.{SwitchOp}
use cswap.Switching.Normal.{normal_switch, normal_switch_body}
use cswap.Switching.Normal.Effects.{Holds, backup_outgoing-Post}
use cswap.Switching.Normal.Activation.{At, Activated, activate-Post}
use cswap.Switching.Normal.Snapshot.{Before}
use cswap.Switching.Normal.Undo.{retrieve_target-Post}
use cswap.Switching.Normal.Keeps.{Keeps-Post, activate-Keeps}
use cswap.Switching.Normal.Loaded.{Loaded, retrieve_target-Loaded, backup_outgoing-sequence}
use cswap.Switching.Normal.Success.{switch-Post}

module _ (R : Runtime) (target : ℕ) (target_email : String) where
  open R use {Text, text_eq, blank, trim_text}

  -- The target is active: its stored login is live, and the rotation is the one of `sd`.
  pub record Completed (f : Face R) (sd : SequenceData) (w : World R) : Type 0 where
    pub roster : SequenceData
    pub same_rotation : roster.sequence ≡ sd.sequence
    pub activated :
        Activated R f target
          (w.credential_backups target target_email)
          (w.config_backups target target_email)
          roster
          w

  Completed-from :
      (f : Face R) (sd roster : SequenceData) (creds config : Text) (vaulted : Vault R)
      (w : World R)
      → roster.sequence ≡ sd.sequence
      → vault R w ≡ vaulted
      → creds ≡ vaulted.credentials target target_email
      → config ≡ vaulted.configs target target_email
      → Activated R f target creds config roster w
      → Completed f sd w
  Completed-from f sd roster creds config vaulted w s v c g a = record {
    roster = roster;
    same_rotation = s;
    activated =
        subst (λ x. Activated R f target x (w.config_backups target target_email) roster w)
          (c ∙ ap (λ (x : Vault R). x.credentials target target_email) (sym v))
          (subst (λ x. Activated R f target creds x roster w)
            (g ∙ ap (λ (x : Vault R). x.configs target target_email) (sym v)) a);
  }

  module _ (current : ℕ) (current_email : String) (prov : Provenance R) (sd : SequenceData)
      (w : World R) (live : Text) (no_chmod : w.chmod_failures ≡ [])
      (file : w.credentials_file ≡ some live) (present : text_eq (trim_text live) blank ≡ false)
      (oauth : IsOauth R live) (clean : HasNoManagedKey R w.global_config)
      (stored : IsOauth R (w.credential_backups target target_email)) where
    body-Completed :
        (config : Text) (v : World R)
        → Holds R target target_email (record (face R w) { steps = [] }) v
        → Post
            (λ v. Unit {0})
            (λ a u. Completed (face R w) sd u)
            (normal_switch_body R target target_email current current_email live config prov sd v)
    unfolding normal_switch_body
    body-Completed config v h =
        let f = face R w in
        let held = λ (u : World R). Holds R target target_email (record f { steps = [] }) u in
        Post-bind (λ (sd', warnings) u. held u × (sd'.sequence ≡ sd.sequence)) _ _ v
          (Post-mono _ (λ u k. tt) (λ a u q. q)
            (Post-and _
              (backup_outgoing-Post R target target_email current current_email live config oauth
                prov sd v h)
              (backup_outgoing-sequence R current current_email live config prov sd v)))
          λ (sd', warnings) v1 (h1, s).
            Post-bind
              (λ (creds, cfg) u.
                ((At R (record f { steps = [] }) u) × IsOauth R creds)
                × Loaded R (vault R v1) target target_email creds cfg u)
              _ _ v1
              (Post-mono _ (λ u k. tt) (λ a u q. q)
                (Post-and _
                  (retrieve_target-Post R (record f { steps = [] }) target target_email v1 h1)
                  (retrieve_target-Loaded R target target_email v1)))
              λ (creds, cfg) v2 ((h2, o), l).
                Post-bind (λ a u. (Activated R f target creds cfg sd' u) × (vault R u ≡ vault R v1))
                  _ _ v2
                  (Post-mono _ (λ u k. tt) (λ a u q. q)
                    (Post-and _ (activate-Post R f target creds cfg sd' o clean v2 h2) (
                      Keeps-Post R (λ x. x ≡ vault R v1) _ v2
                        (activate-Keeps R target creds cfg sd') l.same_vault)))
                  λ a v3 (act, e). pure-Post warnings v3 (
                    Completed-from f sd sd' creds cfg (vault R v1) v3 s e l.creds_stored
                      l.config_stored act)

    Before-Holds :
        (v : World R)
        → Before R w v
        → Holds R target target_email
            (record (face R w) { steps = [] })
            (record v { completed_steps = [] })
    Before-Holds v b = record {
      at_face = ap (λ (x : Face R). record x { steps = [] }) b.same_face;
      no_chmod = b.same_chmods ∙ no_chmod;
      stored =
          ap (λ (x : Vault R). looks_like_api_key R (x.credentials target target_email))
            b.same_vault
          ∙ stored;
    }

    -- A normal switch that returns has put the target's stored credential into the live file, the
    -- oauthAccount of the target's stored config into the document that ~/.claude.json had, and the
    -- target's number into the roster's activeAccountNumber, whose rotation is the
    -- old one. It is assumed that chmod does not fail, that ~/.claude.json holds no managed
    -- key, and that the live and the target's stored credential are not API keys. The live
    -- credential file is there, and not just white space.
    pub normal_switch-Completed :
        (op : SwitchOp)
        → (normal_switch R target target_email current current_email prov sd w).0 ≡ ok op
        → Completed
            (face R w)
            sd
            (normal_switch R target target_email current current_email prov sd w).1
    normal_switch-Completed op = Post-ok _ op (
        switch-Post R target target_email current current_email prov sd w live file present
          (λ v. Completed (face R w) sd v)
          (λ config v b e. body-Completed config _ (Before-Holds v b)))
