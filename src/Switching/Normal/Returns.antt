-- ===== src/Switching/Normal/Returns.antt =====
-- A normal switch whose inputs are there returns, unless the environment fails a call.
use cswap.Base.{ℕ, String, ◌≡◌, refl, ap, ◌∙◌, Bool, true, false, not, Option, none, some, []}
use cswap.Runtime.{Runtime}
use cswap.Roster.{SequenceData}
use cswap.Files.{
  Error, Step, Result, ok, err, World, answer, rest, ask, chmod_after, record_step,
  read_account_credentials, read_account_config, read_config_json, decode, write_config_text,
  write_config_json, write_sequence,
}
use cswap.Files.Active.{write_active}
use cswap.Files.Active.Effects.{
  IsOauth, HasNoManagedKey, vault-write_active, write_active-Wrote, write_active-ok,
}
use cswap.Files.Frame.{
  Face, face, Vault, vault, Wrote, done, read_account_credentials-Reads, read_account_config-Reads,
  read_config_json-Reads,
}
use cswap.Files.Hoare.{Post, returned, Post-bind, pure-Post, modify-Post, lenient-returned}
use cswap.Switching.Shared.{oauth_section, or_fail, guard, retrieve_target}
use cswap.Switching.Normal.{activate}
use cswap.Switching.Normal.Ready.{Ready, Ready-Reads}

module _ (R : Runtime) where
  open R use {Text, text_eq, blank, Object, put, of_object, unmarshal}

  pub guard-returns :
      {Q : World R → Type 0} (b : Bool) (e : Error) (w : World R)
      → b ≡ true
      → Q w
      → Post (λ v. ⊥) (λ a v. Q v) (guard R b e w)
  unfolding guard
  guard-returns true e w h q = pure-Post tt w q
  guard-returns false e w h q = cc

  pub or_fail-returns :
      {A : Type 0} {Q : World R → Type 0} (o : Option A) (a : A) (e : Error) (w : World R)
      → o ≡ some a
      → Q w
      → Post (λ v. ⊥) (λ b v. (b ≡ a) × Q v) (or_fail R o e w)
  unfolding or_fail
  or_fail-returns none a e w h q = cc
  or_fail-returns (some b) a e w h q = pure-Post b w (cc, q)

  module _ (target : ℕ) (target_email : String) (creds config live_config : Text) where
    -- Files that a switch starts from: nothing fails, and the target's login is stored.
    abbrev Here : World R → Type 0
    Here w = Ready R target target_email creds config live_config w

    read_credentials-stored :
        (w : World R) → Here w → (read_account_credentials R target target_email w).0 ≡ creds
    unfolding read_account_credentials ask answer rest
    read_credentials-stored w h = rw h.no_refusals h.stored_creds

    read_config-stored :
        (w : World R) → Here w → (read_account_config R target target_email w).0 ≡ config
    unfolding read_account_config ask answer rest
    read_config-stored w h = rw h.no_refusals h.stored_config

    read_live_config :
        (w : World R) → Here w → (read_config_json R w).0 ≡ decode R (some live_config)
    unfolding read_config_json ask answer rest
    read_live_config w h = rw h.no_refusals (ap (decode R) h.text)

    pub retrieve_target-returns :
        (w : World R)
        → text_eq creds blank ≡ false
        → text_eq config blank ≡ false
        → Here w
        → Post
            (λ v. ⊥)
            (λ (c, g) v. Here v × (c ≡ creds) × (g ≡ config))
            (retrieve_target R target target_email w)
    unfolding retrieve_target
    retrieve_target-returns w n m h =
        Post-bind (λ c v. Here v × (c ≡ creds)) _ _ w
          (lenient-returned _ w (
            Ready-Reads R target target_email creds config live_config w _ h
                (read_account_credentials-Reads R target target_email w),
            read_credentials-stored w h,
          ))
          λ c w1 (h1, e1).
            Post-bind (λ g v. Here v × (g ≡ config)) _ _ w1
              (lenient-returned _ w1 (
                Ready-Reads R target target_email creds config live_config w1 _ h1
                    (read_account_config-Reads R target target_email w1),
                read_config-stored w1 h1,
              ))
              λ g w2 (h2, e2).
                Post-bind (λ a v. Here v) _ _ w2
                  (guard-returns _ _ w2 (ap (λ x. not (text_eq x blank)) e1 ∙ ap not n) h2)
                  λ a w3 h3.
                    Post-bind (λ b v. Here v) _ _ w3
                      (guard-returns _ _ w3 (ap (λ x. not (text_eq x blank)) e2 ∙ ap not m) h3)
                      λ b w4 h4. pure-Post (c, g) w4 (h4, e1, e2)

    module _ (oauth : IsOauth R creds) (clean : HasNoManagedKey R (some live_config)) where
      write_active-returns :
          (w : World R) → Here w → Post (λ v. ⊥) (λ a v. Here v) (write_active R creds w)
      write_active-returns w h =
          go (write_active R creds w)
            (write_active-Wrote R creds w h.no_chmods oauth (rw h.text clean))
            (vault-write_active R creds w)
            (write_active-ok R creds w oauth h.no_refusals h.no_chmods)
        where
          go :
              (out : Result (Unit {0}) × World R)
              → Wrote R (face R w) (record (face R w) { credentials = some creds }) out
              → vault R out.1 ≡ vault R w
              → (out.0 ≡ ok tt) × (out.1.refusals ≡ [])
              → Post (λ v. ⊥) (λ a v. Here v) out
          go (ok a, v) (done f c) k (o, r) = returned (record {
            no_refusals = r;
            no_chmods = c;
            stored_creds =
                ap (λ (x : Vault R). x.credentials target target_email) k ∙ h.stored_creds;
            stored_config = ap (λ (x : Vault R). x.configs target target_email) k ∙ h.stored_config;
            text = ap (λ (x : Face R). x.config) f ∙ h.text;
          })
          go (err e, v) p k (o, r) = cc

      splice-returns :
          (o : Object) (w : World R)
          → Here w
          → Post (λ v. ⊥) (λ a v. v.refusals ≡ []) (write_config_json R o w)
      unfolding write_config_json write_config_text ask chmod_after answer rest
      splice-returns o w h = rw (h.no_refusals, h.no_chmods) (returned refl)

      write_sequence-returns :
          (sd : SequenceData) (w : World R)
          → w.refusals ≡ []
          → Post (λ v. ⊥) (λ a v. Unit {0}) (write_sequence R sd w)
      unfolding write_sequence ask answer rest
      write_sequence-returns sd w h = rw h (returned tt)

      step-Here : (step : Step) (w : World R) → Here w → Here (record_step R step w)
      unfolding record_step
      step-Here step w h = record {
        no_refusals = h.no_refusals;
        no_chmods = h.no_chmods;
        stored_creds = h.stored_creds;
        stored_config = h.stored_config;
        text = h.text;
      }

      step-refusals :
          (step : Step) (w : World R) → w.refusals ≡ [] → (record_step R step w).refusals ≡ []
      unfolding record_step
      step-refusals step w h = h

      pub activate-returns :
          (backup : Option Object) (account cfg : Object) (sd : SequenceData) (w : World R)
          → unmarshal config ≡ some backup
          → oauth_section R backup ≡ some account
          → decode R (some live_config) ≡ some cfg
          → Here w
          → Post (λ v. ⊥) (λ a v. Unit {0}) (activate R target creds config sd w)
      unfolding activate
      activate-returns backup account cfg sd w d s l h =
          Post-bind (λ a v. Here v) _ _ w (write_active-returns w h)
            λ a w1 h1.
              Post-bind (λ a v. Here v) _ _ w1 (modify-Post _ w1 (step-Here _ w1 h1))
                λ a w2 h2.
                  Post-bind _ _ _ w2 (or_fail-returns {Q = Here} _ backup _ w2 d h2)
                    λ b w3 (e3, h3).
                      Post-bind _ _ _ w3
                        (or_fail-returns {Q = Here} _ account _ w3 (ap (oauth_section R) e3 ∙ s) h3)
                        λ acc w4 (e4, h4).
                          Post-bind (λ found v. (found ≡ some cfg) × Here v) _ _ w4
                            (lenient-returned _ w4 (
                              read_live_config w4 h4 ∙ l,
                              Ready-Reads R target target_email creds config live_config w4 _ h4
                                  (read_config_json-Reads R w4),
                            ))
                            λ found w5 (e5, h5).
                              Post-bind _ _ _ w5 (or_fail-returns {Q = Here} found cfg _ w5 e5 h5)
                                λ c w6 (e6, h6).
                                  Post-bind (λ a v. v.refusals ≡ []) _ _ w6 (splice-returns _ w6 h6)
                                    λ a w7 h7.
                                      Post-bind (λ a v. v.refusals ≡ []) _ _ w7
                                        (modify-Post _ w7 (step-refusals _ w7 h7))
                                        λ a w8 h8.
                                          Post-bind (λ a v. v.refusals ≡ []) _ _ w8
                                            (lenient-returned _ w8 h8)
                                            λ time w9 h9.
                                              Post-bind (λ a v. Unit {0}) _ _ w9
                                                (write_sequence-returns _ w9 h9)
                                                λ a w10 u. modify-Post _ w10 tt
