-- ===== src/Switching/Normal/Activation.antt =====
-- Steps 2 to 5 of the normal path: where they can stop, and what they leave when they do not.
use mathlib.Core.Path.{subst}
use cswap.Base.{ℕ, String, ◌≡◌, refl, sym, ap, ◌∙◌, Option, none, some, [], ◌∷◌, ◌++◌}
use cswap.Runtime.{Runtime}
use cswap.Roster.{SequenceData, parsed}
use cswap.Files.{
  Step, Error, credentials_written, config_written, sequence_updated, Result, ok, err, World, ◌>>=◌,
  ◌>>◌, lenient, modify, decode, read_config_json, write_sequence, write_config_json,
  write_config_text, record_step, invalid_backup_config, invalid_oauth_account, config_missing,
}
use cswap.Files.Active.{write_active}
use cswap.Files.Active.Effects.{IsOauth, HasNoManagedKey, write_active-Wrote}
use cswap.Files.Frame.{
  Face, face, Wrote, done, refused, read_config_json-Reads, read_config_json-decode,
  write_config_text-Wrote, write_sequence-Wrote,
}
use cswap.Files.Hoare.{
  Post, returned, failed, Post-bind, Post-mono, pure-Post, fail-Post, modify-Post, lenient-returned,
}
use cswap.Switching.Shared.{oauth_section, or_fail}
use cswap.Switching.Transaction.Restore.{Stopped, at_start, at_credentials, at_config}
use cswap.Switching.Normal.{activate}

module _ (R : Runtime) where
  open R use {Text, text_eq, blank, Object, put, of_object, unmarshal, marshal_indent}

  -- The face is `f`, and no chmod fails.
  pub record At (f : Face R) (w : World R) : Type 0 where
    pub at_face : face R w ≡ f
    pub no_chmod : w.chmod_failures ≡ []

  -- Where the transaction over `f` stops when a step fails.
  pub record Halted (f : Face R) (w : World R) : Type 0 where
    pub stopped : Stopped R f (face R w)
    pub no_chmod : w.chmod_failures ≡ []

  pub At-Halted : (f g : Face R) (w : World R) → Stopped R f g → At g w → Halted f w
  At-Halted f g w s h = record {
    stopped = subst (Stopped R f) (sym h.at_face) s;
    no_chmod = h.no_chmod;
  }

  Wrote-Post :
      {A : Type 0} (f g : Face R) (w : World R) (out : Result A × World R)
      → At f w
      → Wrote R (face R w) g out
      → Post (At f) (λ a v. At g v) out
  Wrote-Post f g w (ok a, v) h (done e c) = returned (record { at_face = e; no_chmod = c })
  Wrote-Post f g w (err d, v) h (refused e c) =
      failed (record { at_face = e ∙ h.at_face; no_chmod = c })

  -- What a completed activation leaves: the target's credential, the live config with the
  -- target's oauthAccount in it, and the roster with the target active.
  pub record Activated (f : Face R) (target : ℕ) (creds config : Text) (sd : SequenceData)
      (w : World R) : Type 0 where
    pub backup : Option Object
    pub account : Object
    pub cfg : Object
    pub time : String
    pub decoded : unmarshal config ≡ some backup
    pub section : oauth_section R backup ≡ some account
    pub live_config : decode R f.config ≡ some cfg
    pub after : face R w ≡ record {
      credentials = some creds;
      config = some (marshal_indent (put "oauthAccount" (of_object account) cfg));
      sequence = parsed (record sd { active_account_number = some target; last_updated = time });
      steps = credentials_written ∷ config_written ∷ sequence_updated ∷ [];
    }

  record_step-At :
      (f : Face R) (step : Step) (w : World R)
      → At f w
      → At (record f { steps = f.steps ++ step ∷ [] }) (record_step R step w)
  unfolding record_step
  record_step-At f step w h = record {
    at_face = ap (λ (x : Face R). record x { steps = x.steps ++ step ∷ [] }) h.at_face;
    no_chmod = h.no_chmod;
  }

  pub or_fail-Post :
      {A : Type 0} {F : World R → Type 0} (o : Option A) (e : Error) (w : World R)
      → F w
      → Post F (λ a v. (F v) × (o ≡ some a)) (or_fail R o e w)
  unfolding or_fail
  or_fail-Post none e w h = fail-Post e w h
  or_fail-Post (some a) e w h = pure-Post a w (h, refl)

  read_config-Post :
      (f : Face R) {F : World R → Type 0} (w : World R)
      → At f w
      → Post F
          (λ found v. (At f v) × ((cfg : Object) → found ≡ some cfg → decode R f.config ≡ some cfg))
          (lenient R (read_config_json R) w)
  read_config-Post f w h =
      let r = read_config_json-Reads R w in
      lenient-returned (read_config_json R) w (
        record { at_face = r.same_face ∙ h.at_face; no_chmod = r.same_chmods ∙ h.no_chmod },
        λ cfg e.
            rw (ap (λ (x : Face R). x.config) h.at_face) at (read_config_json-decode R w cfg e),
      )

  module _ (f : Face R) (target : ℕ) (creds config : Text) (sd : SequenceData)
      (oauth : IsOauth R creds) (clean : HasNoManagedKey R f.config) where
    -- The faces after each recorded step.
    abbrev at_one : Face R
    at_one = record f { credentials = some creds; steps = credentials_written ∷ [] }

    abbrev at_two : Text → Face R
    at_two text = record at_one {
      config = some text;
      steps = credentials_written ∷ config_written ∷ [];
    }

    finish :
        (backup : Option Object) (account cfg : Object) (w : World R)
        → unmarshal config ≡ some backup
        → oauth_section R backup ≡ some account
        → decode R f.config ≡ some cfg
        → At (at_two (marshal_indent (put "oauthAccount" (of_object account) cfg))) w
        → Post
            (Halted f)
            (λ a v. Activated f target creds config sd v)
            ((do
              time ← lenient R (λ w. (w.now, w))
              write_sequence R
                  (record sd { active_account_number = some target; last_updated = time })
              modify R (record_step R sequence_updated))
              w)
    finish backup account cfg w d s l h =
        let text = marshal_indent (put "oauthAccount" (of_object account) cfg) in
        let new = λ (time : String). record sd {
          active_account_number = some target;
          last_updated = time;
        } in
        Post-bind (λ time v. At (at_two text) v) _ _ w (lenient-returned _ w h)
          λ time w1 h1.
            Post-bind (λ a v. At (record (at_two text) { sequence = parsed (new time) }) v) _ _ w1
              (Post-mono _ (λ v. At-Halted f (at_two text) v (at_config creds text)) (λ a v q. q)
                (Wrote-Post (at_two text) _ w1 _ h1 (
                  subst
                    (λ (x : Face R).
                      Wrote R (face R w1) (record x { sequence = parsed (new time) })
                        (write_sequence R (new time) w1))
                    h1.at_face (write_sequence-Wrote R (new time) w1 h1.no_chmod))))
              λ a w2 h2. modify-Post _ w2 (record {
                backup = backup;
                account = account;
                cfg = cfg;
                time = time;
                decoded = d;
                section = s;
                live_config = l;
                after = (record_step-At _ sequence_updated w2 h2).at_face;
              })

    splice :
        (w : World R)
        → At at_one w
        → Post
            (Halted f)
            (λ a v. Activated f target creds config sd v)
            ((do
              backup ← or_fail R (unmarshal config) invalid_backup_config
              account ← or_fail R (oauth_section R backup) invalid_oauth_account
              found ← lenient R (read_config_json R)
              cfg ← or_fail R found config_missing
              write_config_json R (put "oauthAccount" (of_object account) cfg)
              modify R (record_step R config_written)
              time ← lenient R (λ w. (w.now, w))
              write_sequence R
                  (record sd { active_account_number = some target; last_updated = time })
              modify R (record_step R sequence_updated))
              w)
    unfolding write_config_json
    splice w h =
        let halt =
          λ (v : World R) (k : At at_one v). At-Halted f at_one v (at_credentials creds) k in
        Post-bind _ _ _ w
          (Post-mono _ (λ v k. halt v k) (λ a v q. q) (or_fail-Post {F = At at_one} _ _ w h))
          λ backup w1 (h1, d).
            Post-bind _ _ _ w1
              (Post-mono _ (λ v k. halt v k) (λ a v q. q) (or_fail-Post {F = At at_one} _ _ w1 h1))
              λ account w2 (h2, s).
                Post-bind _ _ _ w2 (read_config-Post at_one w2 h2) λ found w3 (h3, l).
                  Post-bind _ _ _ w3
                    (Post-mono _ (λ v k. halt v k) (λ a v q. q)
                      (or_fail-Post {F = At at_one} found _ w3 h3))
                    λ cfg w4 (h4, e).
                      let text = marshal_indent (put "oauthAccount" (of_object account) cfg) in
                      Post-bind (λ a v. At (record at_one { config = some text }) v) _ _ w4
                        (Post-mono _ halt (λ a v q. q)
                          (Wrote-Post at_one _ w4 _ h4 (
                            subst
                              (λ (x : Face R).
                                Wrote R (face R w4) (record x { config = some text })
                                  (write_config_text R text w4))
                              h4.at_face (write_config_text-Wrote R text w4 h4.no_chmod))))
                        λ a w5 h5.
                          Post-bind (λ b v. At (at_two text) v) _ _ w5
                            (modify-Post _ w5 (record_step-At _ config_written w5 h5))
                            λ b w6 h6. finish backup account cfg w6 d s (l cfg e) h6

    -- An activation that starts from `f` with an empty ledger ends activated, or halts at a step.
    pub activate-Post :
        (w : World R)
        → At (record f { steps = [] }) w
        → Post
            (Halted f)
            (λ a v. Activated f target creds config sd v)
            (activate R target creds config sd w)
    unfolding activate
    activate-Post w h =
        Post-bind (λ a v. At (record f { credentials = some creds; steps = [] }) v) _ _ w
          (Post-mono _ (λ v. At-Halted f _ v at_start) (λ a v q. q)
            (Wrote-Post _ _ w _ h (
              subst
                (λ (x : Face R).
                  Wrote R (face R w) (record x { credentials = some creds })
                    (write_active R creds w))
                h.at_face
                (write_active-Wrote R creds w h.no_chmod oauth
                  (rw (ap (λ (x : Face R). x.config) h.at_face) clean)))))
          λ a w1 h1.
            Post-bind (λ b v. At at_one v) _ _ w1
              (modify-Post _ w1 (record_step-At _ credentials_written w1 h1))
              λ b w2 h2. splice w2 h2
