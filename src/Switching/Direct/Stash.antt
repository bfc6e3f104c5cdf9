-- ===== src/Switching/Direct/Stash.antt =====
-- Invariant II on the direct path: a live credential that is about to be replaced is kept.
use cswap.Base.{
  ℕ, String, ◌≡◌, refl, ap, Bool, true, false, Option, some, List, [], ◌∷◌, inl, inr, Bool-cases,
}
use cswap.Runtime.{Runtime}
use cswap.Roster.{SequenceData}
use cswap.Files.{Unclaimed, Result, ok, err, World}
use cswap.Files.Frame.{Vault, vault, read_account_credentials-Reads, read_account_config-Reads}
use cswap.Files.Store.{Stored, stored, write_unclaimed-Stored}
use cswap.Files.Hoare.{Post, returned, failed, Post-bind, Post-mono, pure-Post, lenient-returned}
use cswap.Switching.Shared.{Warning, not_preserved, retrieve_target}
use cswap.Switching.Normal.Snapshot.{Before, Before-read}
use cswap.Switching.Normal.Undo.{guard-Post}
use cswap.Switching.Normal.Keeps.{
  Keeps-Post, Keeps-write_sequence, Keeps-write_active, Keeps-write_target,
}
use cswap.Switching.Direct.{
  Snapshot, displaces, stash_outcome, stash_displaced, undo_activation, spliced,
  write_target_config, record_target, after_config, after_credentials, commit,
}

module _ (R : Runtime) where
  open R use {Text, text_eq, text_eq_iff, blank, trim_text, Object, unmarshal}

  undo_activation-Vaulted :
      (kept : Vault R) (snap : Snapshot R) (out : Result (Unit {0}) × World R) (b : Bool)
      → Post (λ v. Unit {0}) (λ a v. vault R v ≡ kept) out
      → Post (λ v. Unit {0}) (λ a v. vault R v ≡ kept) (undo_activation R snap out b)
  unfolding undo_activation
  undo_activation-Vaulted kept snap (ok a, v) b (returned q) = returned q
  undo_activation-Vaulted kept snap (err e, v) b p = failed tt

  module _ (kept : Vault R) (snap : Snapshot R) (target : ℕ) (sd : SequenceData) where
    after_config-Vaulted :
        (out : Result (Unit {0}) × World R)
        → Post (λ v. Unit {0}) (λ a v. vault R v ≡ kept) out
        → Post (λ v. Unit {0}) (λ a v. vault R v ≡ kept) (after_config R snap target sd out)
    unfolding after_config record_target
    after_config-Vaulted (ok a, v) (returned q) =
        undo_activation-Vaulted kept snap _ true
          (Keeps-Post R (λ x. x ≡ kept) _ v (Keeps-write_sequence R _) q)
    after_config-Vaulted (err e, v) p = undo_activation-Vaulted kept snap _ false (failed tt)

    after_credentials-Vaulted :
        (backup account : Object) (out : Result (Unit {0}) × World R)
        → Post (λ v. Unit {0}) (λ a v. vault R v ≡ kept) out
        → Post
            (λ v. Unit {0})
            (λ a v. vault R v ≡ kept)
            (after_credentials R snap target sd backup account out)
    unfolding after_credentials write_target_config
    after_credentials-Vaulted backup account (ok a, v) (returned q) = after_config-Vaulted _ (
        Keeps-Post R (λ x. x ≡ kept) _ v (Keeps-write_target R (λ o. spliced R o backup account)) q)
    after_credentials-Vaulted backup account (err e, v) p = failed tt

    pub commit-Vaulted :
        (creds : Text) (backup account : Object) (w : World R)
        → vault R w ≡ kept
        → Post
            (λ v. Unit {0})
            (λ a v. vault R v ≡ kept)
            (commit R snap target sd creds backup account w)
    unfolding commit
    commit-Vaulted creds backup account w h =
        after_credentials-Vaulted backup account _
          (Keeps-Post R (λ x. x ≡ kept) _ w (Keeps-write_active R creds) h)

  -- The reads of the stored login change nothing but the answers.
  pub retrieve_target-Before :
      (w : World R) (target : ℕ) (email : String)
      → Post (λ v. Unit {0}) (λ a v. Before R w v) (retrieve_target R target email w)
  unfolding retrieve_target
  retrieve_target-Before w target email =
      let here : Before R w w = record {
        same_face = refl;
        same_vault = refl;
        same_chmods = refl;
      } in
      Post-bind (λ a v. Before R w v) _ _ w
        (lenient-returned _ w
          (Before-read R w w _ here (read_account_credentials-Reads R target email w)))
        λ creds w1 h1.
          Post-bind (λ a v. Before R w v) _ _ w1
            (lenient-returned _ w1
              (Before-read R w w1 _ h1 (read_account_config-Reads R target email w1)))
            λ config w2 h2.
              Post-bind (λ a v. Before R w v) _ _ w2
                (Post-mono _ (λ v u. tt) (λ a v q. q) (guard-Post R {F = Before R w} _ _ w2 h2))
                λ a w3 h3.
                  Post-bind (λ a v. Before R w v) _ _ w3
                    (Post-mono _ (λ v u. tt) (λ a v q. q) (guard-Post R {F = Before R w} _ _ w3 h3))
                    λ b w4 h4. pure-Post (creds, config) w4 h4

  -- A stash keeps the credential first in the list, or changes nothing, or fails: only a forced
  -- activation goes on then.
  pub data Stashed (force : Bool) (creds target_creds : Text) (kept : Vault R)
      : List Warning → World R → Type 0 where
    no_need :
        {ws : List Warning} {v : World R}
        → creds ≡ target_creds
        → vault R v ≡ kept
        → Stashed force creds target_creds kept ws v
    kept_first :
        {ws : List Warning} {v : World R} (u : Unclaimed R) (us : List (Unclaimed R))
        → (vault R v).unclaimed ≡ u ∷ us
        → u.credential ≡ creds
        → Stashed force creds target_creds kept ws v
    given_up :
        {v : World R} → force ≡ true → Stashed force creds target_creds kept (not_preserved ∷ []) v

  module _ (slot : Option ℕ) (creds target_creds : Text) (kept : Vault R) where
    stash_outcome-Stashed :
        (force : Bool) (w : World R) (out : Result (Unit {0}) × World R)
        → Stored R w
            (record (vault R w) {
              unclaimed = record { credential = creds; config_slot = slot } ∷ w.unclaimed;
            })
            out
        → Post (λ v. Unit {0}) (Stashed force creds target_creds kept) (stash_outcome R force out)
    unfolding stash_outcome
    stash_outcome-Stashed force w (ok a, v) (stored f c k) =
        returned (kept_first _ _ (ap (λ (x : Vault R). x.unclaimed) k) refl)
    stash_outcome-Stashed true w (err e, v) s = returned (given_up refl)
    stash_outcome-Stashed false w (err e, v) s = failed tt

    pub stash_displaced-Stashed :
        (force : Bool) (w : World R)
        → text_eq creds blank ≡ false
        → vault R w ≡ kept
        → Post
            (λ v. Unit {0})
            (Stashed force creds target_creds kept)
            (stash_displaced R force slot (some creds) target_creds w)
    unfolding stash_displaced displaces
    stash_displaced-Stashed force w n k = elim (Bool-cases (text_eq creds target_creds)) [
      | inl e ↦ rw (n, e) (returned (no_need ((text_eq_iff creds target_creds).0 e) k))
      | inr e ↦ rw (n, e) (stash_outcome-Stashed force w _ (write_unclaimed-Stored R w creds slot))
    ]
