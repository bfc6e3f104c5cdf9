-- ===== src/Files.antt =====
-- The files that a switch touches, and the calls that read and write them: internal/ccfile,
-- internal/atomicfile, internal/switching/configio.go, internal/store/credproxy.go and the
-- plaintext side of internal/credstore (no Keychain: every platform but macOS).
-- A call that the environment can fail takes the next answer from `refusals`; a call whose last
-- step is a chmod takes one from `chmod_failures` too, after the new contents are in place. An
-- empty list answers that the call goes well.
pub mod Active
pub mod Frame
pub mod Store
pub mod Hoare
use cswap.Base.{
  ℕ, String, Bool, true, false, ◌&&◌, not, Option, none, some, List, [], ◌∷◌, ◌++◌, ◌==◌, str_eq,
  if◌then◌else◌,
}
use cswap.Runtime.{Runtime}
use cswap.Roster.{SequenceData, SequenceFile, absent, unreadable, parsed}

-- The completed steps of a switch transaction.
pub data Step : Type 0 where
  credentials_written config_written sequence_updated : Step

pub data Error : Type 0 where
  io invalid_json credential_write : Error
  nil_dereference account_not_found credential_unreadable credential_empty : Error
  config_missing config_unreadable no_stored_credentials no_stored_config : Error
  invalid_backup_config invalid_oauth_account snapshot_failed stash_refused : Error
  rolled_back : Error → Error
  rollback_failed : Error → Error

pub data Result {ℓ} (A : Type ℓ) : Type ℓ where
  ok : A → Result A
  err : Error → Result A

module _ (R : Runtime) where
  open R use {
    Text, text_eq, blank, content, trim_text, has_prefix, string_of, Value, Object, as_object,
    of_object, as_string, of_string, as_list, of_list, is_null, empty, get, put, delete, unmarshal,
    marshal_indent,
  }

  -- One entry of the write-only safety copies (WriteUnclaimed).
  pub record Unclaimed : Type 0 where
    pub credential : Text
    pub config_slot : Option ℕ

  pub record World : Type 0 where
    pub credentials_file : Option Text
    pub global_config : Option Text
    pub sequence_file : SequenceFile
    pub credential_backups : ℕ → String → Text
    pub config_backups : ℕ → String → Text
    pub unclaimed : List Unclaimed
    pub completed_steps : List Step
    pub now : String
    pub refusals : List Bool
    pub chmod_failures : List Bool

  -- A method returns its result and the files as it leaves them.
  abbrev pub Exec : Type 0 → Type 0
  Exec A = World → Result A × World

  abbrev pub continue : {A B : Type 0} → Result A × World → (A → Exec B) → Result B × World
  continue (ok a, w) f = f a w
  continue (err e, w) f = (err e, w)

  unfoldable pub pure : {A : Type 0} → A → Exec A
  pure a w = (ok a, w)

  unfoldable pub fail : {A : Type 0} → Error → Exec A
  fail e w = (err e, w)

  -- A read whose failures are swallowed.
  unfoldable pub lenient : {A : Type 0} → (World → A × World) → Exec A
  lenient m w = let (a, w') = m w in (ok a, w')

  unfoldable pub modify : (World → World) → Exec (Unit {0})
  modify f w = (ok tt, f w)

  unfoldable pub answer : List Bool → Bool
  answer [] = false
  answer (b ∷ bs) = b

  unfoldable pub rest : List Bool → List Bool
  rest [] = []
  rest (b ∷ bs) = bs

  -- A call that the environment may refuse before it changes anything.
  unfoldable pub ask : World → Bool × World
  unfolding answer rest
  ask w = (answer w.refusals, record w { refusals = rest w.refusals })

  -- The chmod that ends an atomic write of Claude Code's own files and of the stored copies.
  unfoldable pub chmod_after : World → Result (Unit {0}) × World
  unfolding answer rest
  chmod_after w =
      let w' = record w { chmod_failures = rest w.chmod_failures } in
      if answer w.chmod_failures then (err io, w') else (ok tt, w')

  -- atomicConfigWrite at ~/.claude.json: mkdir, temp file and rename, then chmod.
  unfoldable pub write_config_text : Text → Exec (Unit {0})
  unfolding ask chmod_after
  write_config_text text w =
      let (refused, w') = ask w in
      if refused then (err io, w') else chmod_after (record w' { global_config = some text })

  unfoldable pub write_config_json : Object → Exec (Unit {0})
  write_config_json obj = write_config_text (marshal_indent obj)

  -- readConfigText: `none` is a missing file.
  unfoldable pub read_config_text : Exec (Option Text)
  unfolding ask
  read_config_text w =
      let (refused, w') = ask w in if refused then (err io, w') else (ok w'.global_config, w')

  unfoldable pub decode : Option Text → Option Object
  decode none = none
  decode (some text) = elim (unmarshal text) [ none ↦ none | some found ↦ found ]

  -- readConfigJSON, readLenient: every failure is nil.
  unfoldable pub read_config_json : World → Option Object × World
  unfolding ask decode
  read_config_json w =
      let (refused, w') = ask w in (if refused then none else decode w'.global_config, w')

  -- UpdateGlobalConfig: a missing or unparseable config starts from an empty object.
  unfoldable pub update_global_config : (Object → Object) → Exec (Unit {0})
  unfolding read_config_json write_config_json
  update_global_config mutate w =
      let (found, w') = read_config_json w in
      write_config_json (mutate (elim found [ none ↦ empty | some obj ↦ obj ])) w'

  -- WriteSequence: the temp file gets its mode before the rename, so a failure leaves the old file.
  unfoldable pub write_sequence : SequenceData → Exec (Unit {0})
  unfolding ask
  write_sequence sd w =
      let (refused, w') = ask w in
      if refused then (err io, w') else (ok tt, record w' { sequence_file = parsed sd })

  roster_of : SequenceFile → Option SequenceData
  roster_of absent = none
  roster_of unreadable = none
  roster_of (parsed sd) = some sd

  -- ReadSequence: absent and malformed are both nil.
  unfoldable pub read_sequence : Exec (Option SequenceData)
  unfolding ask roster_of
  read_sequence w =
      let (refused, w') = ask w in
      if refused then (err io, w') else (ok (roster_of w'.sequence_file), w')

  -- ReadAccountCredentials and ReadAccountConfig, with the error dropped by `_`.
  unfoldable pub read_account_credentials : ℕ → String → World → Text × World
  unfolding ask
  read_account_credentials num email w =
      let (refused, w') = ask w in (if refused then blank else w'.credential_backups num email, w')

  unfoldable pub read_account_config : ℕ → String → World → Text × World
  unfolding ask
  read_account_config num email w =
      let (refused, w') = ask w in (if refused then blank else w'.config_backups num email, w')

  set_backup : ℕ → String → Text → (ℕ → String → Text) → ℕ → String → Text
  set_backup num email text backups n e = if n == num && str_eq e email then text else backups n e

  -- WriteAccountCredentials, up to the session profile's invalidation.
  unfoldable pub write_account_credentials : ℕ → String → Text → Exec (Unit {0})
  unfolding ask chmod_after set_backup
  write_account_credentials num email creds w =
      let (refused, w') = ask w in
      if refused
      then (err io, w')
      else chmod_after
          (record w' { credential_backups = set_backup num email creds w'.credential_backups })

  unfoldable pub write_account_config : ℕ → String → Text → Exec (Unit {0})
  unfolding ask chmod_after set_backup
  write_account_config num email config w =
      let (refused, w') = ask w in
      if refused
      then (err io, w')
      else chmod_after
          (record w' { config_backups = set_backup num email config w'.config_backups })

  -- writeStashManifest, whose temp file gets its mode before the rename. The rows repeat what the
  -- entries hold, and are not kept.
  write_manifest : Exec (Unit {0})
  unfolding ask
  write_manifest w = let (refused, w') = ask w in (if refused then err io else ok tt, w')

  -- WriteUnclaimed: the entry file, with its chmod after the rename, then the manifest.
  unfoldable pub write_unclaimed : Text → Option ℕ → Exec (Unit {0})
  unfolding ask chmod_after write_manifest
  write_unclaimed creds slot w =
      let (refused, w') = ask w in
      if refused
      then (err io, w')
      else continue
          (chmod_after (record w' {
            unclaimed = record { credential = creds; config_slot = slot } ∷ w'.unclaimed;
          }))
          (λ u. write_manifest)

  -- recordStep
  unfoldable pub record_step : Step → World → World
  record_step step w = record w { completed_steps = w.completed_steps ++ step ∷ [] }

module _ {R : Runtime} {A B : Type 0} where
  infixl 5 ◌>>=◌ ◌>>◌
  unfoldable pub ◌>>=◌ : Exec R A → (A → Exec R B) → Exec R B
  unfolding pure fail lenient modify
  ◌>>=◌ m f w = continue R (m w) f

  abbrev pub ◌>>◌ : Exec R A → Exec R B → Exec R B
  m >> n = m >>= λ _. n
