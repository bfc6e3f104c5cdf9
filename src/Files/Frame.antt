-- ===== src/Files/Frame.antt =====
-- What the calls of Files and Files.Active change. `Face` is the part of the files that a switch
-- promises to restore; `Vault` holds every stored copy of a login.
use cswap.Base.{
  ap, ℕ, String, ◌≡◌, refl, ◌∙◌, Bool, true, false, inl, inr, Option, some, List, [], arith,
  if◌then◌else◌, Bool-cases,
}
use cswap.Runtime.{Runtime}
use cswap.Roster.{SequenceData, SequenceFile, parsed}
use cswap.Files.{
  Step, Unclaimed, Error, Result, ok, err, World, ask, chmod_after, decode, write_config_text,
  write_config_json, read_config_json, update_global_config, write_sequence,
  read_account_credentials, read_account_config, read_config_text, rest,
}

module _ (R : Runtime) where
  open R use {Text, Object, delete, marshal_indent}

  pub record Face : Type 0 where
    pub credentials : Option Text
    pub config : Option Text
    pub sequence : SequenceFile
    pub steps : List Step

  abbrev pub face : World R → Face
  face w = record {
    credentials = w.credentials_file;
    config = w.global_config;
    sequence = w.sequence_file;
    steps = w.completed_steps;
  }

  pub record Vault : Type 0 where
    pub credentials : ℕ → String → Text
    pub configs : ℕ → String → Text
    pub unclaimed : List (Unclaimed R)

  abbrev pub vault : World R → Vault
  vault w = record {
    credentials = w.credential_backups;
    configs = w.config_backups;
    unclaimed = w.unclaimed;
  }

  -- A write that went well left the face `new`; one that failed left `old`. The chmod list stays
  -- empty.
  pub data Wrote {A : Type 0} (old new : Face) : Result A × World R → Type 0 where
    done : {a : A} {w : World R} → face w ≡ new → w.chmod_failures ≡ [] → Wrote old new (ok a, w)
    refused :
        {e : Error} {w : World R} → face w ≡ old → w.chmod_failures ≡ [] → Wrote old new (err e, w)

  pub write_config_text-Wrote :
      (text : Text) (w : World R)
      → w.chmod_failures ≡ []
      → Wrote (face w) (record (face w) { config = some text }) (write_config_text R text w)
  unfolding write_config_text
  write_config_text-Wrote text w c = elim (Bool-cases (ask R w).0) [
    | inl stop ↦ rw stop (refused (unfold ask in refl) (unfold ask in c))
    | inr go ↦ rw (go, c) (unfold ask in done refl refl)
  ]

  pub write_sequence-Wrote :
      (sd : SequenceData) (w : World R)
      → w.chmod_failures ≡ []
      → Wrote (face w) (record (face w) { sequence = parsed sd }) (write_sequence R sd w)
  unfolding write_sequence
  write_sequence-Wrote sd w c = elim (Bool-cases (ask R w).0) [
    | inl stop ↦ rw stop (refused (unfold ask in refl) (unfold ask in c))
    | inr go ↦ rw go (done (unfold ask in refl) (unfold ask in c))
  ]

  -- A read changes nothing but the list of answers.
  pub face-read_config_json :
      (w : World R)
      → (face (read_config_json R w).1 ≡ face w)
        × ((read_config_json R w).1.chmod_failures ≡ w.chmod_failures)
        × (vault (read_config_json R w).1 ≡ vault w)
  unfolding read_config_json ask
  face-read_config_json w = (refl, refl, refl)

  pub vault-write_config_text :
      (text : Text) (w : World R) → vault (write_config_text R text w).1 ≡ vault w
  unfolding write_config_text ask chmod_after
  vault-write_config_text text w = ground arith

  pub vault-write_config_json :
      (obj : Object) (w : World R) → vault (write_config_json R obj w).1 ≡ vault w
  unfolding write_config_json
  vault-write_config_json obj w = vault-write_config_text (marshal_indent obj) w

  pub vault-update_global_config :
      (f : Object → Object) (w : World R) → vault (update_global_config R f w).1 ≡ vault w
  unfolding update_global_config
  vault-update_global_config f w =
      vault-write_config_json _ (read_config_json R w).1 ∙ (face-read_config_json w).2

  pub vault-write_sequence :
      (sd : SequenceData) (w : World R) → vault (write_sequence R sd w).1 ≡ vault w
  unfolding write_sequence ask
  vault-write_sequence sd w = ground arith

  -- A call that only reads: the face, the vault, the chmod list and the clock are what they were.
  pub record Reads {A : Type 0} (w : World R) (out : A × World R) : Type 0 where
    pub same_face : face out.1 ≡ face w
    pub same_chmods : out.1.chmod_failures ≡ w.chmod_failures
    pub same_vault : vault out.1 ≡ vault w
    pub same_now : out.1.now ≡ w.now
    pub no_refusals : w.refusals ≡ [] → out.1.refusals ≡ []

  pub Reads-refl : {A : Type 0} (a : A) (w : World R) → Reads w (a, w)
  Reads-refl a w = record {
    same_face = refl;
    same_chmods = refl;
    same_vault = refl;
    same_now = refl;
    no_refusals = λ h. h;
  }

  pub Reads-trans :
      {A B : Type 0} (u : World R) (mid : A × World R) (out : B × World R)
      → Reads u mid
      → Reads mid.1 out
      → Reads u out
  Reads-trans u mid out p q = record {
    same_face = q.same_face ∙ p.same_face;
    same_chmods = q.same_chmods ∙ p.same_chmods;
    same_vault = q.same_vault ∙ p.same_vault;
    same_now = q.same_now ∙ p.same_now;
    no_refusals = λ h. q.no_refusals (p.no_refusals h);
  }

  pub Reads-if :
      {A : Type 0} {w : World R} (b : Bool) {x y : A × World R}
      → Reads w x
      → Reads w y
      → Reads w (if b then x else y)
  Reads-if true p q = p
  Reads-if false p q = q

  -- The value may be computed from what was read.
  pub Reads-value :
      {A B : Type 0} {w : World R} (out : A × World R) (b : B) → Reads w out → Reads w (b, out.1)
  Reads-value out b p = record {
    same_face = p.same_face;
    same_chmods = p.same_chmods;
    same_vault = p.same_vault;
    same_now = p.same_now;
    no_refusals = p.no_refusals;
  }

  pub ask-Reads : (w : World R) → Reads w (ask R w)
  unfolding ask rest
  ask-Reads w = record {
    same_face = refl;
    same_chmods = refl;
    same_vault = refl;
    same_now = refl;
    no_refusals = λ h. ap (rest R) h;
  }

  pub read_account_credentials-Reads :
      (num : ℕ) (email : String) (w : World R) → Reads w (read_account_credentials R num email w)
  unfolding read_account_credentials
  read_account_credentials-Reads num email w = Reads-value (ask R w) _ (ask-Reads w)

  pub read_account_config-Reads :
      (num : ℕ) (email : String) (w : World R) → Reads w (read_account_config R num email w)
  unfolding read_account_config
  read_account_config-Reads num email w = Reads-value (ask R w) _ (ask-Reads w)

  pub read_config_text-Reads : (w : World R) → Reads w (read_config_text R w)
  unfolding read_config_text
  read_config_text-Reads w =
      Reads-if (ask R w).0 (Reads-value (ask R w) _ (ask-Reads w))
        (Reads-value (ask R w) _ (ask-Reads w))

  pub read_config_json-Reads : (w : World R) → Reads w (read_config_json R w)
  unfolding read_config_json
  read_config_json-Reads w = Reads-value (ask R w) _ (ask-Reads w)

  pub read_config_json-decode :
      (w : World R) (cfg : Object)
      → (read_config_json R w).0 ≡ some cfg
      → decode R w.global_config ≡ some cfg
  unfolding read_config_json
  read_config_json-decode w cfg h = ground arith
