-- ===== src/Switching/Normal/Atomicity.antt =====
-- The normal switch is all or nothing.
use cswap.Base.{ℕ, String, ◌≡◌, ◌≢◌, sym, ap, ◌∙◌, false, some, [], arith}
use cswap.Runtime.{Runtime}
use cswap.Roster.{SequenceData}
use cswap.Files.{Error, rollback_failed, Result, ok, err, World}
use cswap.Files.Active.{looks_like_api_key}
use cswap.Files.Active.Effects.{IsOauth, HasNoManagedKey}
use cswap.Files.Frame.{Face, face, Vault}
use cswap.Files.Hoare.{Post-mono, modify-Post}
use cswap.Switching.Provenance.{Provenance}
use cswap.Switching.Transaction.Restore.{SameLogin}
use cswap.Switching.Normal.{normal_switch}
use cswap.Switching.Normal.Effects.{Holds}
use cswap.Switching.Normal.Activation.{or_fail-Post}
use cswap.Switching.Normal.Snapshot.{Before, Before-same, read_live, read_text}
use cswap.Switching.Normal.Undo.{
  Undone, same, lost, Undone-bind, Undone-pure, guard-Post, body-Post, undo_failure-Undone,
}

module _ (R : Runtime) (target : ℕ) (target_email : String) where
  open R use {Text, text_eq, blank, trim_text}

  module _ (current : ℕ) (current_email : String) (prov : Provenance R) (sd : SequenceData)
      (w : World R) (live config : Text) (no_chmod : w.chmod_failures ≡ [])
      (file : w.credentials_file ≡ some live) (present : text_eq (trim_text live) blank ≡ false)
      (text : w.global_config ≡ some config) (oauth : IsOauth R live)
      (clean : HasNoManagedKey R (some config))
      (stored : IsOauth R (w.credential_backups target target_email)) where
    Before-Holds :
        (v : World R)
        → Before R w v
        → Holds R target target_email
            (record (face R w) { steps = [] })
            (record v { completed_steps = [] })
    Before-Holds v b = record {
      at_face = ap (λ (x : Face R). record x { steps = [] }) b.same_face;
      no_chmod = b.same_chmods ∙ no_chmod;
      stored =
          ap (λ (x : Vault R). looks_like_api_key R (x.credentials target target_email))
            b.same_vault
          ∙ stored;
    }

    normal_switch-Undone :
        Undone R (face R w) (normal_switch R target target_email current current_email prov sd w)
    unfolding normal_switch
    normal_switch-Undone =
        Undone-bind R (face R w) (λ creds v. (Before R w v) × (creds ≡ live)) _ _ w
          (Post-mono _ (Before-same R w) (λ a v q. q) (read_live R live w file present))
          λ creds w1 (b1, e1).
            Undone-bind R (face R w) (λ a v. Before R w v) _ _ w1
              (Post-mono _ (Before-same R w) (λ a v q. q) (guard-Post R {F = Before R w} _ _ w1 b1))
              λ a w2 b2.
                Undone-bind R (face R w) _ _ _ w2
                  (Post-mono _ (Before-same R w) (λ a v q. q) (read_text R _ w w2 b2))
                  λ found w3 (b3, e3).
                    Undone-bind R (face R w) _ _ _ w3
                      (Post-mono _ (Before-same R w) (λ a v q. q)
                        (or_fail-Post R {F = Before R w} found _ w3 b3))
                      λ cfg w4 (b4, e4).
                        Undone-bind R (face R w)
                          (λ a v. Holds R target target_email (record (face R w) { steps = [] }) v)
                          _ _ w4 (modify-Post _ w4 (Before-Holds w4 b4))
                          λ a w5 h5. Undone-pure R (face R w) _ _ w5 (
                            undo_failure-Undone R _ (face R w) (rw e1 oauth)
                              (rw (sym e4 ∙ e3 ∙ text) clean) (file ∙ ap some (sym e1))
                              (sym e3 ∙ e4) _
                              (body-Post R target target_email current current_email creds cfg prov
                                sd (face R w) (rw e1 oauth) (rw text clean) w5 h5))

    -- A normal switch between OAuth logins that fails, for whatever reason and at whatever call,
    -- leaves the live credential, ~/.claude.json and sequence.json as they were, unless it reports
    -- that its rollback failed too. It is assumed that chmod does not fail, that ~/.claude.json
    -- holds no managed key, and that the live and the target's stored credential are not API keys.
    -- The live credential file and ~/.claude.json are there, the first not just white space.
    pub normal_switch-atomic :
        (e : Error)
        → (normal_switch R target target_email current current_email prov sd w).0 ≡ err e
        → ((d : Error) → e ≢ rollback_failed d)
        → SameLogin R
            (face R (normal_switch R target target_email current current_email prov sd w).1)
            (face R w)
    normal_switch-atomic e h n =
        go (normal_switch R target target_email current current_email prov sd w)
          normal_switch-Undone h
      where
        go :
            {A : Type 0} (out : Result A × World R)
            → Undone R (face R w) out
            → out.0 ≡ err e
            → SameLogin R (face R out.1) (face R w)
        go (ok a, v) u h = cc
        go (err d, v) (same s) h = s
        go (err _, v) (lost {e = d}) h = absurd (n d (ground arith))
