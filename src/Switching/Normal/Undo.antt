-- ===== src/Switching/Normal/Undo.antt =====
-- How the normal switch ends when a step fails: halted at a step, and then undone.
use cswap.Base.{
  ℕ, String, ◌≡◌, refl, ap, ◌∙◌, Bool, true, false, some, List, [], ◌∷◌, inl, inr, Bool-cases,
}
use cswap.Runtime.{Runtime}
use cswap.Roster.{SequenceData}
use cswap.Files.{
  Step, credentials_written, config_written, answer, Error, rollback_failed, Result, ok, err, World,
  Exec, continue, pure, ◌>>=◌, read_account_credentials, ask,
}
use cswap.Files.Active.{looks_like_api_key}
use cswap.Files.Active.Effects.{IsOauth, HasNoManagedKey}
use cswap.Files.Frame.{Face, face, Reads, read_account_credentials-Reads, read_account_config-Reads}
use cswap.Files.Hoare.{
  Post, returned, failed, Post-bind, Post-mono, pure-Post, fail-Post, lenient-returned,
}
use cswap.Switching.Provenance.{Provenance}
use cswap.Switching.Shared.{guard, retrieve_target}
use cswap.Switching.Transaction.{SwitchTransaction, rollback}
use cswap.Switching.Transaction.Restore.{
  Stopped, at_start, at_credentials, at_config, SameLogin, rollback-SameLogin,
}
use cswap.Switching.Normal.{normal_switch_body, undo_with, undo_failure}
use cswap.Switching.Normal.Effects.{Holds, backup_outgoing-Post}
use cswap.Switching.Normal.Activation.{At, Halted, activate-Post, At-Halted}

module _ (R : Runtime) where
  open R use {Text, text_eq, text_eq_iff, blank, trim_text, unmarshal}

  IsOauth-blank : IsOauth R blank
  unfolding looks_like_api_key
  IsOauth-blank = rw ((text_eq_iff blank blank).1 refl) refl

  -- A call ends with the live login of `f`, or reports that a rollback failed.
  pub data Undone {A : Type 0} (f : Face R) : Result A × World R → Type 0 where
    went : {a : A} {v : World R} → Undone f (ok a, v)
    same : {e : Error} {v : World R} → SameLogin R (face R v) f → Undone f (err e, v)
    lost : {e : Error} {v : World R} → Undone f (err (rollback_failed e), v)

  pub Undone-bind :
      {A B : Type 0} (f : Face R) (Q : A → World R → Type 0) (m : Exec R A) (k : A → Exec R B)
      (w : World R)
      → Post (λ v. SameLogin R (face R v) f) Q (m w)
      → ((a : A) (v : World R) → Q a v → Undone f (k a v))
      → Undone f ((m >>= k) w)
  unfolding ◌>>=◌
  Undone-bind {A = A} f Q m k w p q = go (m w) p
    where
      go :
          (out : Result A × World R)
          → Post (λ v. SameLogin R (face R v) f) Q out
          → Undone f (continue R out k)
      go (ok a, v) (returned x) = q a v x
      go (err e, v) (failed x) = same x

  pub Undone-pure :
      {A B : Type 0} (f : Face R) (m : Exec R A) (g : A → B) (w : World R)
      → Undone f (m w)
      → Undone f ((m >>= λ a. pure R (g a)) w)
  unfolding ◌>>=◌
  Undone-pure {A = A} f m g w p = go (m w) p
    where
      go : (out : Result A × World R) → Undone f out → Undone f (continue R out (λ a. pure R (g a)))
      go (ok a, v) _ = went
      go (err e, v) (same x) = same x
      go (err _, v) lost = lost

  pub guard-Post :
      {F : World R → Type 0} (b : Bool) (e : Error) (w : World R)
      → F w
      → Post F (λ a v. F v) (guard R b e w)
  unfolding guard
  guard-Post true e w h = pure-Post tt w h
  guard-Post false e w h = fail-Post e w h

  pub Reads-At :
      {A : Type 0} (f : Face R) (w : World R) (out : A × World R)
      → Reads R w out
      → At R f w
      → At R f out.1
  Reads-At f w out r h = record {
    at_face = r.same_face ∙ h.at_face;
    no_chmod = r.same_chmods ∙ h.no_chmod;
  }

  read_credentials-IsOauth :
      (target : ℕ) (email : String) (w : World R)
      → IsOauth R (w.credential_backups target email)
      → IsOauth R (read_account_credentials R target email w).0
  unfolding read_account_credentials ask
  read_credentials-IsOauth target email w o = elim (Bool-cases (answer R w.refusals)) [
    | inl stop ↦ rw stop IsOauth-blank
    | inr go ↦ rw go o
  ]

  -- What step 2 hands to the activation.
  pub retrieve_target-Post :
      (f : Face R) (target : ℕ) (email : String) (w : World R)
      → Holds R target email f w
      → Post
          (At R f)
          (λ (creds, config) v. (At R f v) × IsOauth R creds)
          (retrieve_target R target email w)
  unfolding retrieve_target
  retrieve_target-Post f target email w h =
      Post-bind (λ creds v. (At R f v) × IsOauth R creds) _ _ w
        (lenient-returned _ w (
          Reads-At f w _ (read_account_credentials-Reads R target email w) at_f,
          read_credentials-IsOauth target email w h.stored,
        ))
        λ creds w1 (h1, o).
          Post-bind (λ config v. At R f v) _ _ w1
            (lenient-returned _ w1
              (Reads-At f w1 _ (read_account_config-Reads R target email w1) h1))
            λ config w2 h2.
              Post-bind (λ a v. At R f v) _ _ w2 (guard-Post {F = At R f} _ _ w2 h2)
                λ a w3 h3.
                  Post-bind (λ b v. At R f v) _ _ w3 (guard-Post {F = At R f} _ _ w3 h3)
                    λ b w4 h4. pure-Post (creds, config) w4 (h4, o)
    where
      at_f : At R f w
      at_f = record { at_face = h.at_face; no_chmod = h.no_chmod }

  module _ (target : ℕ) (target_email : String) (current : ℕ) (current_email : String)
      (creds config : Text) (prov : Provenance R) (sd : SequenceData) (f : Face R)
      (oauth : IsOauth R creds) (clean : HasNoManagedKey R f.config) where
    -- The body ends, or halts at a step of the transaction over `f`.
    pub body-Post :
        (w : World R)
        → Holds R target target_email (record f { steps = [] }) w
        → Post
            (Halted R f)
            (λ warnings v. Unit {0})
            (normal_switch_body R target target_email current current_email creds config prov sd w)
    unfolding normal_switch_body
    body-Post w h =
        Post-bind (λ a v. Holds R target target_email (record f { steps = [] }) v) _ _ w
          (Post-mono _
            (λ v k.
              At-Halted R f _ v at_start (record { at_face = k.at_face; no_chmod = k.no_chmod }))
            (λ a v k. k)
            (backup_outgoing-Post R target target_email current current_email creds config oauth
              prov sd w h))
          λ (sd', warnings) w1 h1.
            Post-bind _ _ _ w1
              (Post-mono _ (λ v k. At-Halted R f _ v at_start k) (λ a v k. k)
                (retrieve_target-Post (record f { steps = [] }) target target_email w1 h1))
              λ (target_creds, target_config) w2 (h2, o).
                Post-bind _ _ _ w2
                  (activate-Post R f target target_creds target_config sd' o clean w2 h2)
                  λ a w3 h3. pure-Post warnings w3 tt

  module _ (tx : SwitchTransaction R) (f : Face R) (oauth : IsOauth R tx.original_credentials)
      (clean : HasNoManagedKey R (some tx.original_config))
      (live : f.credentials ≡ some tx.original_credentials)
      (text : f.config ≡ some tx.original_config) where
    tried :
        {A : Type 0} (e : Error) (step : Step) (steps : List Step) (w : World R)
        → Halted R f w
        → Undone f (undo_with R {A = A} (step ∷ steps) e (rollback R tx w) w)
    unfolding undo_with
    tried e step steps w h = elim (Bool-cases (rollback R tx w).0) [
      | inl r ↦
          rw r (same (rollback-SameLogin R tx f oauth clean live text w h.no_chmod h.stopped r))
      | inr r ↦ rw r lost
    ]

    undone_at :
        {A : Type 0} (e : Error) (w : World R) (g : Face R)
        → Halted R f w
        → face R w ≡ g
        → Stopped R f g
        → Undone f (undo_with R {A = A} g.steps e (rollback R tx w) w)
    unfolding undo_with
    undone_at e w g h p at_start = same (record {
      credentials = ap (λ (x : Face R). x.credentials) p;
      config = ap (λ (x : Face R). x.config) p;
      sequence = ap (λ (x : Face R). x.sequence) p;
    })
    undone_at e w g h p (at_credentials c) = tried e credentials_written [] w h
    undone_at e w g h p (at_config c t) = tried e credentials_written (config_written ∷ []) w h

    pub undo_failure-Undone :
        {A : Type 0} {Q : A → World R → Type 0} (out : Result A × World R)
        → Post (Halted R f) Q out
        → Undone f (undo_failure R tx out)
    unfolding undo_failure
    undo_failure-Undone (ok a, w) p = went
    undo_failure-Undone (err e, w) (failed h) = undone_at e w (face R w) h refl h.stopped
