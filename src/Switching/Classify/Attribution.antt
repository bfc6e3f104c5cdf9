-- ===== src/Switching/Classify/Attribution.antt =====
-- What each answer of the ownership oracle rests on.
use mathlib.Core.Path.{subst}
use cswap.Base.{
  ==_iff, ℕ, String, ◌≡◌, ◌≢◌, refl, sym, ap, ◌∙◌, Bool, true, false, ◌&&◌, ◌||◌, not, ◌⊎◌, inl,
  inr, Option, none, some, str_eq, str_eq_iff, ◌==◌, arith, Bool-cases,
}
use cswap.Runtime.{Runtime}
use cswap.Roster.{SequenceData, record_for}
use cswap.Files.{World, ask, answer, read_account_credentials}
use cswap.Switching.Provenance.{Identity, Provenance, fingerprint_equal}
use cswap.Switching.Classify.{
  Kind, own_bytes, own_family, own_rotated, alien, unresolved, foreign, foreign_synced, is_blank,
  stored_uuid, stored_email, judge_foreign, judge, classify_resolved, classify_mismatch, is_live,
  own_uuid_matches, attribute, classify_outgoing,
}

module _ (R : Runtime) where
  open R use {Text, text_eq, text_eq_iff, blank, trim_space}

  module _ (backups : ℕ → String → Text) (current : ℕ) (email : String) (creds : Text)
      (prov : Provenance R) (sd : Option SequenceData) where
    -- The live credential was attributed to another slot: its owner was resolved for these very
    -- bytes, and the slot's recorded uuid is the owner's, which is not blank.
    pub record Confirmed (slot : ℕ) : Type 0 where
      pub who : Identity
      pub resolved : prov.resolved ≡ some who
      pub unmoved : prov.live ≡ some creds
      pub other : slot ≢ current
      pub has_uuid : is_blank (trim_space who.uuid) ≡ false
      pub same_uuid : stored_uuid R (record_for sd slot) ≡ trim_space who.uuid

    -- The outgoing slot was named as the owner of these very bytes, by its uuid or its identity.
    pub record Owned : Type 0 where
      pub who : Identity
      pub resolved : prov.resolved ≡ some who
      pub unmoved : prov.live ≡ some creds
      pub named :
          (own_uuid_matches R who (trim_space who.uuid) (record_for sd current) ≡ true)
          ⊎ (attribute R who (trim_space who.uuid) sd ≡ some current)

    -- These very bytes have an owner, which is not the outgoing slot.
    pub record Disowned : Type 0 where
      pub who : Identity
      pub resolved : prov.resolved ≡ some who
      pub unmoved : prov.live ≡ some creds
      pub other_uuid : own_uuid_matches R who (trim_space who.uuid) (record_for sd current) ≡ false
      pub other_slot : attribute R who (trim_space who.uuid) sd ≢ some current

    -- The backup holds the credential, or another generation of its lineage.
    abbrev pub Synced : ℕ → String → Type 0
    Synced slot e = (backups slot e ≡ creds) ⊎ (fingerprint_equal R (backups slot e) creds ≡ true)

    abbrev pub Verdict : Kind → Type 0
    Verdict own_bytes = backups current email ≡ creds
    Verdict own_family = fingerprint_equal R (backups current email) creds ≡ true
    Verdict (foreign slot) = Confirmed slot
    Verdict (foreign_synced slot) =
        Confirmed slot × Synced slot (stored_email R (record_for sd slot))
    Verdict own_rotated = Owned
    Verdict alien = Disowned
    Verdict unresolved = Unit

    -- A read that is not blank is the stored credential.
    read_stored :
        (num : ℕ) (e : String) (w : World R)
        → w.credential_backups ≡ backups
        → not (text_eq (read_account_credentials R num e w).0 blank) ≡ true
        → (read_account_credentials R num e w).0 ≡ backups num e
    unfolding read_account_credentials ask
    read_stored num e w b h = elim (Bool-cases (answer R w.refusals)) [
      | inl stop ↦ absurd (ground (arith, stop, text_eq_iff blank blank))
      | inr go ↦ rw go (ap (λ (f : ℕ → String → Text). f num e) b)
    ]

    and-left : (a b : Bool) → (a && b) ≡ true → a ≡ true
    and-left a b h = ground arith

    and-right : (a b : Bool) → (a && b) ≡ true → b ≡ true
    and-right a b h = ground arith

    -- The test of step 8 is evidence of a shared lineage.
    Synced-of :
        (slot : ℕ) (e : String) (read : Text)
        → read ≡ backups slot e
        → (text_eq read creds || fingerprint_equal R read creds) ≡ true
        → Synced slot e
    Synced-of slot e read r h = elim (Bool-cases (text_eq read creds)) [
      | inl bytes ↦ inl (sym r ∙ (text_eq_iff read creds).0 bytes)
      | inr other ↦ inr (rw r at (rest_of (text_eq read creds) _ other h))
    ]
      where
        rest_of : (a b : Bool) → a ≡ false → (a || b) ≡ true → b ≡ true
        rest_of a b n h = ground arith

    judge_foreign-Verdict :
        (slot : ℕ) (w : World R)
        → w.credential_backups ≡ backups
        → Confirmed slot
        → Verdict (judge_foreign R slot creds sd w).0
    unfolding judge_foreign
    judge_foreign-Verdict slot w b c =
        let e = stored_email R (record_for sd slot) in
        let read = (read_account_credentials R slot e w).0 in
        let test =
          not (text_eq read blank) && (text_eq read creds || fingerprint_equal R read creds) in
        elim (Bool-cases test) [
          | inl t ↦
              rw (t, judge_foreign)
                (
                  c,
                  Synced-of slot e read (read_stored slot e w b (and-left _ _ t)) (and-right _ _ t),
                )
          | inr t ↦ rw (t, judge_foreign) c
        ]

    module _ (who : Identity) (resolved : prov.resolved ≡ some who)
        (unmoved : prov.live ≡ some creds) where
      abbrev found : Option ℕ
      found = attribute R who (trim_space who.uuid) sd

      disowned :
          own_uuid_matches R who (trim_space who.uuid) (record_for sd current) ≡ false
          → found ≢ some current
          → Disowned
      disowned m n = record {
        who = who;
        resolved = resolved;
        unmoved = unmoved;
        other_uuid = m;
        other_slot = n;
      }

      not_current :
          (slot : ℕ) → found ≡ some slot → (slot == current) ≡ false → found ≢ some current
      not_current slot f n e =
          let same : slot ≡ current = cc in let test = (==_iff slot current).1 same in cc

      judge-Verdict :
          (slot : Option ℕ) (w : World R)
          → found ≡ slot
          → own_uuid_matches R who (trim_space who.uuid) (record_for sd current) ≡ false
          → w.credential_backups ≡ backups
          → Verdict (judge R current who (trim_space who.uuid) creds sd slot w).0
      unfolding judge
      judge-Verdict none w f m b =
          elim (Bool-cases (not (is_blank who.email) && not (is_blank who.org_uuid))) [
            | inl t ↦ rw t (disowned m (λ e. cc))
            | inr t ↦ rw t tt
          ]
      judge-Verdict (some slot) w f m b = elim (Bool-cases (slot == current)) [
        | inl own ↦ rw own (record {
          who = who;
          resolved = resolved;
          unmoved = unmoved;
          named = inr (f ∙ ap some ((==_iff slot current).0 own));
        })
        | inr other ↦
            elim (Bool-cases (
              is_blank (trim_space who.uuid)
              || not (str_eq (stored_uuid R (record_for sd slot)) (trim_space who.uuid)))) [
                | inl t ↦ rw (other, t) (disowned m (not_current slot f other))
                | inr t ↦
                    rw (other, t)
                      (judge_foreign-Verdict slot w b (record {
                        who = who;
                        resolved = resolved;
                        unmoved = unmoved;
                        other = ground arith;
                        has_uuid = ground arith;
                        same_uuid = ground (
                          arith,
                          str_eq_iff (stored_uuid R (record_for sd slot)) (trim_space who.uuid),
                        );
                      }))
              ]
      ]

      resolved-Verdict :
          (w : World R)
          → w.credential_backups ≡ backups
          → Verdict (classify_resolved R current who creds sd w).0
      unfolding classify_resolved
      resolved-Verdict w b =
          elim (Bool-cases (own_uuid_matches R who (trim_space who.uuid) (record_for sd current))) [
            | inl t ↦
                rw t (record { who = who; resolved = resolved; unmoved = unmoved; named = inl t })
            | inr t ↦ rw t (judge-Verdict found w refl t b)
          ]

    is_live-some : (live : Option Text) → is_live R live creds ≡ true → live ≡ some creds
    unfolding is_live
    is_live-some none h = cc
    is_live-some (some t) h = ap some ((text_eq_iff t creds).0 h)

    mismatch-Verdict :
        (who : Option Identity) (w : World R)
        → prov.resolved ≡ who
        → w.credential_backups ≡ backups
        → Verdict (classify_mismatch R current creds prov who sd w).0
    unfolding classify_mismatch
    mismatch-Verdict none w r b = tt
    mismatch-Verdict (some who) w r b = elim (Bool-cases (is_live R prov.live creds)) [
      | inl t ↦ rw t (resolved-Verdict who r (is_live-some prov.live t) w b)
      | inr t ↦ rw t tt
    ]

    -- The evidence behind each answer of the oracle but unresolved: own-bytes and own-family only
    -- for a backup of the outgoing slot with the same bytes or fingerprint; the others only for an
    -- owner that was resolved for exactly these bytes. own-rotated: the outgoing slot matches the
    -- owner's uuid, or is the slot that the owner is attributed to. alien: neither of the two.
    -- foreign and foreign-synced: another slot, whose recorded uuid is the owner's and not blank;
    -- foreign-synced moreover only where that slot's backup has the same bytes or fingerprint.
    pub classify_outgoing-Verdict :
        (w : World R)
        → w.credential_backups ≡ backups
        → Verdict (classify_outgoing R current email creds prov sd w).0
    unfolding classify_outgoing
    classify_outgoing-Verdict w b =
        let out = read_account_credentials R current email w in
        let bytes = not (text_eq out.0 blank) && text_eq out.0 creds in
        let family = not (text_eq out.0 blank) && fingerprint_equal R out.0 creds in
        elim (Bool-cases bytes) [
          | inl t ↦
              rw (t, classify_outgoing)
                (sym (read_stored current email w b (and-left _ _ t))
                  ∙ (text_eq_iff out.0 creds).0 (and-right _ _ t))
          | inr not_bytes ↦ elim (Bool-cases family) [
            | inl t ↦
                rw (not_bytes, t, classify_outgoing)
                  (subst (λ x. fingerprint_equal R x creds ≡ true)
                    (read_stored current email w b (and-left _ _ t)) (and-right _ _ t))
            | inr t ↦
                rw (not_bytes, t, classify_outgoing)
                  (mismatch-Verdict prov.resolved out.1 refl
                    (unfold read_account_credentials ask in b))
          ]
        ]
