-- ===== src/Switching/Direct/Displaced.antt =====
-- A direct activation that returns has preserved the login that it displaced.
use cswap.Base.{
  ℕ, String, ◌≡◌, refl, sym, ap, ◌∙◌, Bool, true, false, Option, some, List, [], ◌∷◌, inl, inr, ◌⊎◌,
}
use cswap.Runtime.{Runtime}
use cswap.Roster.{SequenceData}
use cswap.Files.{Result, ok, World}
use cswap.Files.Frame.{Face, Vault, vault}
use cswap.Files.Hoare.{Post, Post-bind, Post-mono, Post-and, Post-ok, pure-Post}
use cswap.Switching.Shared.{Ref, SwitchOp, Warning, not_preserved}
use cswap.Switching.Normal.Activation.{or_fail-Post}
use cswap.Switching.Normal.Snapshot.{Before, read_live, read_text}
use cswap.Switching.Normal.Loaded.{Loaded, retrieve_target-Loaded}
use cswap.Switching.Normal.Preservation.{Preserved, in_slot, in_stash}
use cswap.Switching.Direct.{Snapshot, snapshot_live, direct_activate, stash_displaced}
use cswap.Switching.Direct.Stash.{
  Stashed, no_need, kept_first, given_up, commit-Vaulted, stash_displaced-Stashed,
  retrieve_target-Before,
}

module _ (R : Runtime) (target : ℕ) (target_email : String) (live : R.Text) where
  open R use {Text, text_eq, blank, trim_text, unmarshal}

  -- The displaced login is preserved, unless a forced activation warned that it is not.
  abbrev pub Accounted : Bool → List Warning → Vault R → Type 0
  Accounted force warnings v =
      (Preserved R live v) ⊎ ((force ≡ true) × (warnings ≡ not_preserved ∷ []))

  Accounted-from :
      (force : Bool) (target_creds : Text) (kept : Vault R) (warnings : List Warning)
      (u v : World R)
      → target_creds ≡ kept.credentials target target_email
      → Stashed R force live target_creds kept warnings u
      → vault R v ≡ vault R u
      → Accounted force warnings (vault R v)
  Accounted-from force creds kept warnings u v c (no_need e k) h = inl (
      in_slot target target_email
        (ap (λ (x : Vault R). x.credentials target target_email) (h ∙ k) ∙ sym c ∙ sym e))
  Accounted-from force creds kept warnings u v c (kept_first s ss e k) h =
      inl (in_stash s ss (ap (λ (x : Vault R). x.unclaimed) h ∙ e) k)
  Accounted-from force creds kept warnings u v c (given_up f) h = inr (f, refl)

  relax :
      {A : Type 0} {F : World R → Type 0} {Q : A → World R → Type 0} (out : Result A × World R)
      → Post F Q out
      → Post (λ v. Unit {0}) Q out
  relax out p = Post-mono out (λ v f. tt) (λ a v q. q) p

  snapshot-live :
      (w : World R)
      → w.credentials_file ≡ some live
      → text_eq (trim_text live) blank ≡ false
      → Post
          (λ v. Unit {0})
          (λ (snap : Snapshot R) v. (vault R v ≡ vault R w) × (snap.credentials ≡ some live))
          (snapshot_live R true w)
  unfolding snapshot_live
  snapshot-live w file present =
      Post-bind (λ creds v. (Before R w v) × (creds ≡ live)) _ _ w
        (relax _ (read_live R live w file present))
        λ creds w1 (b1, e1).
          Post-bind (λ text v. (Before R w v) × (text ≡ w.global_config)) _ _ w1
            (relax _ (read_text R _ w w1 b1))
            λ text w2 (b2, e2). pure-Post _ w2 (b2.same_vault, ap some e1)

  module _ (sd : SequenceData) (from : Option Ref) (current : Option ℕ) (force : Bool) (w : World R)
      (file : w.credentials_file ≡ some live) (present : text_eq (trim_text live) blank ≡ false)
      (filled : text_eq live blank ≡ false) where
    stash :
        (snap : Snapshot R) (creds : Text) (v : World R)
        → snap.credentials ≡ some live
        → vault R v ≡ vault R w
        → Post
            (λ v. Unit {0})
            (Stashed R force live creds (vault R w))
            (stash_displaced R force current snap.credentials creds v)
    stash snap creds v s k =
        rw s (stash_displaced-Stashed R current live creds (vault R w) force v filled k)

    pub direct_activate-Accounted :
        Post
          (λ v. Unit {0})
          (λ (op : SwitchOp) v. Accounted force op.warnings (vault R v))
          (direct_activate R target target_email sd from true current force w)
    unfolding direct_activate
    direct_activate-Accounted =
        Post-bind
          (λ (creds, config) v.
            (Before R w v) × Loaded R (vault R w) target target_email creds config v)
          _ _ w
          (Post-and _ (retrieve_target-Before R w target target_email)
            (retrieve_target-Loaded R target target_email w))
          λ (creds, config) w1 (b1, l).
            Post-bind _ _ _ w1
              (relax _ (or_fail-Post R {F = Before R w} (unmarshal config) _ w1 b1))
              λ decoded w2 (b2, d2).
                Post-bind _ _ _ w2 (relax _ (or_fail-Post R {F = Before R w} _ _ w2 b2))
                  λ account w3 (b3, d3).
                    Post-bind _ _ _ w3 (relax _ (or_fail-Post R {F = Before R w} decoded _ w3 b3))
                      λ backup w4 (b4, d4).
                        Post-bind _ _ _ w4
                          (snapshot-live w4 (ap (λ (x : Face R). x.credentials) b4.same_face ∙ file)
                            present)
                          λ snap w5 (k5, s5).
                            Post-bind _ _ _ w5 (stash snap creds w5 s5 (k5 ∙ b4.same_vault))
                              λ warnings w6 st.
                                Post-bind _ _ _ w6
                                  (commit-Vaulted R (vault R w6) snap target sd creds backup account
                                    w6 refl)
                                  λ a w7 k7. pure-Post _ w7 (
                                    Accounted-from force creds (vault R w) warnings w6 w7
                                      l.creds_stored st k7)

    -- A direct activation over a live login that returns has a copy of the login that it replaced
    -- in the vault, as the target's backup or as the stash's first entry; only a forced one can
    -- return without, and then its one warning says so. The live credential is in the file, it is
    -- not the empty string, and not white space only.
    pub direct_activate-preserves :
        (op : SwitchOp)
        → (direct_activate R target target_email sd from true current force w).0 ≡ ok op
        → Accounted force op.warnings
            (vault R (direct_activate R target target_email sd from true current force w).1)
    direct_activate-preserves op = Post-ok _ op direct_activate-Accounted
