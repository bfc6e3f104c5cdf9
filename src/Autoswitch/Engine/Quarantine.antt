-- ===== src/Autoswitch/Engine/Quarantine.antt =====
-- A quarantine lasts while the slot's account and credential stay the same.
use mathlib.Core.Path.{subst}
use cswap.Base.{
  String, ◌≡◌, refl, sym, ap, ◌∙◌, true, false, not, Option, none, some, List, [], ◌∷◌, All,
  All-map, keep-All, Bool-cases, inl, inr, str_eq, str_eq_iff, arith,
}
use cswap.Numbers.{Numbers}
use cswap.Autoswitch.Engine.{
  Switcher, Machine, StateFile, QuarantineEntry, Event, quarantine_event, announce, with_reason,
  emit, mutate_state, in_quarantine, drop_entry, fingerprint_of, same_fingerprint, quarantine,
  release_reason, to_release,
}

module _ (N : Numbers) (S : Switcher N) where
  open S use {World, account_email, read_credentials, take_lock, write_file}

  -- No entry of the list is the slot's.
  abbrev pub Without : {A : Type 0} → String → List (String × A) → Type 0
  Without num entries = All (λ p. str_eq p.0 num ≡ false) entries

  drop_entry-Without :
      (num : String) (entries : List (String × QuarantineEntry))
      → Without num (drop_entry N S num entries)
  unfolding drop_entry
  drop_entry-Without num entries =
      All-map (λ p. not (str_eq p.0 num) ≡ true) (λ p. str_eq p.0 num ≡ false)
        (λ p h. ground (arith, h)) (drop_entry N S num entries)
        (keep-All (λ p. not (str_eq p.0 num)) entries)

  with_reason-Without :
      (num n : String) (o : Option String) (others : List (String × String))
      → str_eq n num ≡ false
      → Without num others
      → Without num (with_reason N S n o others)
  unfolding with_reason
  with_reason-Without num n none others h k = k
  with_reason-Without num n (some r) others h k = (h, k)

  to_release-Without :
      (num : String) (w : World) (entries : List (String × QuarantineEntry))
      → Without num entries
      → Without num (to_release N S w entries)
  unfolding to_release
  to_release-Without num w [] h = tt
  to_release-Without num w ((n, e) ∷ rest) h =
      with_reason-Without num n (release_reason N S w n e) _ h.0 (to_release-Without num w rest h.1)

  same_fingerprint_refl : (o : Option String) → same_fingerprint N S o o ≡ true
  unfolding same_fingerprint
  same_fingerprint_refl none = refl
  same_fingerprint_refl (some a) = (str_eq_iff a a).1 refl

  -- The entry that quarantining the slot in world `w` writes.
  abbrev written_entry : World → String → String → String → QuarantineEntry
  written_entry w num email reason = record {
    email = email;
    reason = reason;
    fingerprint = fingerprint_of N S (read_credentials w num email);
  }

  release_reason_same :
      (w later : World) (num email reason : String)
      → str_eq email "" ≡ false
      → account_email later num ≡ email
      → read_credentials later num email ≡ read_credentials w num email
      → release_reason N S later num (written_entry w num email reason) ≡ none
  unfolding release_reason
  release_reason_same w later num email reason named same_email same_creds =
      rw
        (
          same_email,
          named,
          (str_eq_iff email email).1 refl,
          same_creds,
          same_fingerprint_refl (fingerprint_of N S (read_credentials w num email)),
        )
        refl

  mutate_state_written :
      (change : StateFile N → StateFile N) (m : Machine N S) (f : StateFile N)
      → (mutate_state N S change m).0 ≡ some f
      → (mutate_state N S change m).1.file ≡ change m.file
  unfolding mutate_state
  mutate_state_written change m f e = elim (Bool-cases (take_lock m.world).0) [
    | inr n ↦ cc
    | inl t ↦ elim (Bool-cases (write_file (take_lock m.world).1).0) [
      | inr n ↦ cc
      | inl y ↦ simp (t, y) refl
    ]
  ]

  announced :
      (e : Event) (r : Option (StateFile N) × Machine N S)
      → (announce N S e r).0 ≡ some tt
      → ((f : StateFile N) × (r.0 ≡ some f)) × ((announce N S e r).1.file ≡ r.1.file)
  unfolding announce emit
  announced e (none, m) h = cc
  announced e (some f, m) h = ((f, refl), refl)

  quarantine_written :
      (num email reason : String) (m : Machine N S)
      → (quarantine N S num email reason m).0 ≡ some tt
      → (quarantine N S num email reason m).1.file.quarantine
        ≡ (num, written_entry m.world num email reason) ∷ drop_entry N S num m.file.quarantine
  unfolding quarantine
  quarantine_written num email reason m e =
      let change : StateFile N → StateFile N = λ f. record f {
        quarantine =
            (num, written_entry m.world num email reason) ∷ drop_entry N S num f.quarantine;
      } in
      let ((f, done), same) =
        announced (quarantine_event num reason) (mutate_state N S change m) e in
      ap (λ f. f.quarantine) (same ∙ mutate_state_written change m f done)

  -- A slot that was put in quarantine without an error is in the state file's list, and the list
  -- releases it in no world where the account's email is still the same, not "", and where its
  -- stored credential is the same.
  pub quarantine-to_release :
      (num email reason : String) (m : Machine N S) (later : World)
      → (quarantine N S num email reason m).0 ≡ some tt
      → str_eq email "" ≡ false
      → account_email later num ≡ email
      → read_credentials later num email ≡ read_credentials m.world num email
      → (in_quarantine N S (quarantine N S num email reason m).1.file.quarantine num ≡ true)
        × Without num (to_release N S later (quarantine N S num email reason m).1.file.quarantine)
  unfolding in_quarantine to_release with_reason
  quarantine-to_release num email reason m later e named same_email same_creds =
      let written = quarantine_written num email reason m e in
      let rest = drop_entry N S num m.file.quarantine in
      (
        rw written (rw ((str_eq_iff num num).1 refl) refl),
        subst (λ q. Without num (to_release N S later q)) (sym written)
            (subst (λ o. Without num (with_reason N S num o (to_release N S later rest)))
              (sym (release_reason_same m.world later num email reason named same_email same_creds))
              (to_release-Without num later rest (drop_entry-Without num m.file.quarantine))),
      )
