-- ===== src/Switching/Perform/Preserves.antt =====
-- Whatever path a switch takes, it loses no live login.
use cswap.Base.{
  ℕ, String, ◌≡◌, refl, ap, ◌∙◌, Bool, true, false, none, some, [], ◌∷◌, inl, inr, ◌⊎◌, Bool-cases,
  Option-cases,
}
use cswap.Runtime.{Runtime}
use cswap.Roster.{SequenceData, record_for, find_account_slot}
use cswap.Files.{Result, ok, err, World, ask, read_sequence, nil_dereference, account_not_found}
use cswap.Files.Active.{get_current_account}
use cswap.Files.Frame.{Face, face, vault, Reads, ask-Reads, Reads-value, read_config_json-Reads}
use cswap.Files.Hoare.{Post, returned, failed, Post-bind, Post-mono, Post-ok, lenient-returned}
use cswap.Switching.Provenance.{Provenance}
use cswap.Switching.Shared.{SwitchOp, not_preserved}
use cswap.Switching.Normal.Activation.{or_fail-Post}
use cswap.Switching.Normal.Preservation.{Preserved, body-Preserved}
use cswap.Switching.Normal.Success.{switch-Post}
use cswap.Switching.Direct.Displaced.{Accounted, direct_activate-Accounted}
use cswap.Switching.Perform.{route, email_of, perform_switch}

module _ (R : Runtime) where
  open R use {Text, text_eq, blank, trim_text}

  read_sequence-Reads : (w : World R) → Reads R w (read_sequence R w)
  unfolding read_sequence
  read_sequence-Reads w = elim (Bool-cases (ask R w).0) [
    | inl stop ↦ rw stop (Reads-value R (ask R w) _ (ask-Reads R w))
    | inr go ↦ rw go (Reads-value R (ask R w) _ (ask-Reads R w))
  ]

  get_current_account-Reads : (w : World R) → Reads R w (get_current_account R w)
  unfolding get_current_account
  get_current_account-Reads w = Reads-value R _ _ (read_config_json-Reads R w)

  module _ (target : ℕ) (force : Bool) (prov : Provenance R) (live : Text)
      (present : text_eq (trim_text live) blank ≡ false) (filled : text_eq live blank ≡ false) where
    abbrev Kept : SwitchOp → World R → Type 0
    Kept op v = Accounted R target "" live force op.warnings (vault R v)

    route-Kept :
        (email : String) (sd : SequenceData) (live_email org : String) (v : World R)
        → v.credentials_file ≡ some live
        → Post (λ u. Unit {0}) Kept (route R target email force prov sd (some (live_email, org)) v)
    unfolding route
    route-Kept email sd live_email org v file =
        elim (Option-cases (find_account_slot (some sd) live_email org)) [
          | inl none_owns ↦
              rw (none_owns, route)
                (direct_activate-Accounted R target email live sd _ none force v file present
                  filled)
          | inr (current, owned) ↦ elim (Bool-cases force) [
            | inl forced ↦
                rw (owned, forced, route)
                  (direct_activate-Accounted R target email live sd _ (some current) true v file
                    present filled)
            | inr not_forced ↦
                rw (owned, not_forced, route)
                  (Post-mono _ (λ u f. f) (λ op u p. inl p)
                    (switch-Post R target email current live_email prov sd v live file present
                      (λ u. Preserved R live (vault R u))
                      (λ config u b e.
                        body-Preserved R current live_email live config target email prov sd _)))
          ]
        ]

    module _ (w : World R) (id : String × String) (file : w.credentials_file ≡ some live)
        (signed_in : (get_current_account R (read_sequence R w).1).0 ≡ some id) where
      -- The roster has been read.
      abbrev Started : World R → Type 0
      Started v = v ≡ (read_sequence R w).1

      still_there :
          (v : World R) → Started v → (get_current_account R v).1.credentials_file ≡ some live
      still_there v s =
          ap (λ (x : Face R). x.credentials)
            ((get_current_account-Reads v).same_face
              ∙ ap (λ (u : World R). face R u) s
              ∙ (read_sequence-Reads w).same_face)
          ∙ file

      begin : Post (λ v. Unit {0}) (λ found v. Started v) (read_sequence R w)
      begin = go (read_sequence R w) refl
        where
          go :
              {A : Type 0} (out : Result A × World R)
              → out.1 ≡ (read_sequence R w).1
              → Post (λ v. Unit {0}) (λ found v. Started v) out
          go (ok a, v) e = returned e
          go (err d, v) e = failed tt

      perform_switch-Kept : Post (λ v. Unit {0}) Kept (perform_switch R target force prov w)
      unfolding perform_switch
      perform_switch-Kept =
          Post-bind (λ found v. Started v) _ _ w begin
            λ found w1 h1.
              Post-bind _ _ _ w1
                (Post-mono _ (λ v f. tt) (λ a v q. q)
                  (or_fail-Post R {F = Started} found nil_dereference w1 h1))
                λ sd w2 (h2, e2).
                  Post-bind _ _ _ w2
                    (Post-mono _ (λ v f. tt) (λ a v q. q)
                      (or_fail-Post R {F = Started} (record_for (some sd) target) account_not_found
                        w2 h2))
                    λ rec w3 (h3, e3).
                      Post-bind (λ who v. (who ≡ some id) × (v.credentials_file ≡ some live)) _ _ w3
                        (lenient-returned _ w3 (
                          ap (λ (u : World R). (get_current_account R u).0) h3 ∙ signed_in,
                          still_there w3 h3,
                        ))
                        λ who w4 (e4, file4).
                          rw e4 (route-Kept (email_of R (some rec)) sd id.0 id.1 w4 file4)

      -- A switch that returns, by whatever path, has left a copy of the live login that it replaced
      -- in the vault: the credential itself or another generation of its lineage as a slot's
      -- backup, or the credential as the stash's first entry. Only a forced switch can return
      -- without, and then its one warning says so. ~/.claude.json names a live identity, and the
      -- live credential is in the file, not empty and not white space only.
      pub perform_switch-preserves :
          (op : SwitchOp)
          → (perform_switch R target force prov w).0 ≡ ok op
          → (Preserved R live (vault R (perform_switch R target force prov w).1))
            ⊎ ((force ≡ true) × (op.warnings ≡ not_preserved ∷ []))
      perform_switch-preserves op = Post-ok _ op perform_switch-Kept
