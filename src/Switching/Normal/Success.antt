-- ===== src/Switching/Normal/Success.antt =====
-- What a completed normal switch leaves behind.
use mathlib.Core.Path.{subst₂}
use cswap.Base.{ℕ, String, ◌≡◌, refl, sym, ◌∙◌, false, some, List, [], ◌∷◌}
use cswap.Runtime.{Runtime}
use cswap.Roster.{SequenceData}
use cswap.Files.{Step, Result, ok, err, World}
use cswap.Files.Frame.{vault}
use cswap.Files.Hoare.{
  Post, returned, failed, Post-bind, Post-mono, Post-ok, pure-Post, modify-Post,
}
use cswap.Switching.Provenance.{Provenance}
use cswap.Switching.Shared.{SwitchOp}
use cswap.Switching.Transaction.{SwitchTransaction, rollback}
use cswap.Switching.Normal.{normal_switch, normal_switch_body, undo_failure, undo_with}
use cswap.Switching.Normal.Activation.{or_fail-Post}
use cswap.Switching.Normal.Snapshot.{Before, read_live, read_text}
use cswap.Switching.Normal.Undo.{guard-Post}
use cswap.Switching.Normal.Preservation.{Preserved, body-Preserved}

module _ (R : Runtime) where
  open R use {Text, text_eq, text_eq_iff, blank, trim_text}

  undo_failure-Post :
      {A : Type 0} {F : World R → Type 0} {Q : A → World R → Type 0} (tx : SwitchTransaction R)
      (out : Result A × World R)
      → Post F Q out
      → Post (λ v. Unit {0}) Q (undo_failure R tx out)
  unfolding undo_failure undo_with
  undo_failure-Post tx (ok a, v) (returned q) = returned q
  undo_failure-Post {Q = Q} tx (err e, v) p = go v.completed_steps
    where
      go : (steps : List Step) → Post (λ v. Unit {0}) Q (undo_with R steps e (rollback R tx v) v)
      go [] = failed tt
      go (s ∷ ss) = failed tt

  -- What a switch starts from, and what its body leaves: the general shape of both theorems below.
  module _ (target : ℕ) (target_email : String) (current : ℕ) (current_email : String)
      (prov : Provenance R) (sd : SequenceData) (w : World R) (live : Text)
      (file : w.credentials_file ≡ some live)
      (present : text_eq (trim_text live) blank ≡ false) where
    moved :
        {Q : World R → Type 0} (creds cfg : Text) (v u : World R)
        → creds ≡ live
        → u ≡ record v { completed_steps = [] }
        → Post
            (λ u. Unit {0})
            (λ a u. Q u)
            (normal_switch_body R target target_email current current_email live cfg prov sd
              (record v { completed_steps = [] }))
        → Post
            (λ u. Unit {0})
            (λ a u. Q u)
            (normal_switch_body R target target_email current current_email creds cfg prov sd u)
    moved {Q} creds cfg v u e h p =
        subst₂
          (λ c x.
            Post (λ u. Unit {0}) (λ a u. Q u)
              (normal_switch_body R target target_email current current_email c cfg prov sd x))
          (sym e) (sym h) p

    pub switch-Post :
        (Q : World R → Type 0)
        → ((config : Text) (v : World R)
            → Before R w v
            → w.global_config ≡ some config
            → Post
                (λ u. Unit {0})
                (λ a u. Q u)
                (normal_switch_body R target target_email current current_email live config prov sd
                  (record v { completed_steps = [] })))
        → Post
            (λ v. Unit {0})
            (λ op v. Q v)
            (normal_switch R target target_email current current_email prov sd w)
    unfolding normal_switch
    switch-Post Q body =
        Post-bind (λ creds v. (Before R w v) × (creds ≡ live)) _ _ w
          (Post-mono _ (λ v b. tt) (λ a v q. q) (read_live R live w file present))
          λ creds w1 (b1, e1).
            Post-bind (λ a v. Before R w v) _ _ w1
              (Post-mono _ (λ v b. tt) (λ a v q. q) (guard-Post R {F = Before R w} _ _ w1 b1))
              λ a w2 b2.
                Post-bind (λ text u. (Before R w u) × (text ≡ w.global_config)) _ _ w2
                  (Post-mono _ (λ v b. tt) (λ a v q. q) (read_text R _ w w2 b2))
                  λ found w3 (b3, e3).
                    Post-bind (λ cfg u. (Before R w u) × (found ≡ some cfg)) _ _ w3
                      (Post-mono _ (λ v b. tt) (λ a v q. q)
                        (or_fail-Post R {F = Before R w} found _ w3 b3))
                      λ cfg w4 (b4, e4).
                        Post-bind (λ a v. v ≡ record w4 { completed_steps = [] }) _ _ w4
                          (modify-Post _ w4 refl)
                          λ a w5 h5.
                            Post-bind (λ a v. Q v) _ _ w5
                              (undo_failure-Post _ _
                                (moved creds cfg w4 w5 e1 h5 (body cfg w4 b4 (sym e3 ∙ e4))))
                              λ warnings w6 h6. pure-Post _ w6 h6

    -- A switch that returns leaves a copy of the login it replaced in the vault: the outgoing
    -- credential, or another generation of its lineage, is a slot's backup, or it is the stash's
    -- first entry. The live
    -- credential is in the file, and not just white space.
    pub normal_switch-preserves :
        (op : SwitchOp)
        → (normal_switch R target target_email current current_email prov sd w).0 ≡ ok op
        → Preserved R live
            (vault R (normal_switch R target target_email current current_email prov sd w).1)
    normal_switch-preserves op = Post-ok _ op (
        switch-Post (λ v. Preserved R live (vault R v))
          (λ config v b e.
            body-Preserved R current current_email live config target target_email prov sd
              (record v { completed_steps = [] })))
