-- ===== src/Switching/Normal/Ready.antt =====
-- With no fault of the environment no call of a normal switch fails.
use cswap.Base.{ℕ, String, ◌≡◌, ◌≢◌, refl, ap, ◌∙◌, Option, some, [], arith}
use cswap.Runtime.{Runtime}
use cswap.Roster.{SequenceData}
use cswap.Files.{
  World, Exec, pure, answer, rest, ask, chmod_after, write_account_credentials,
  write_account_config, write_unclaimed, ◌>>=◌,
}
use cswap.Files.Frame.{Face, Vault, Reads}
use cswap.Files.Hoare.{Post, returned, Post-bind, pure-Post, lenient-returned}
use cswap.Switching.Provenance.{Provenance}
use cswap.Switching.Classify.{
  Kind, own_bytes, own_family, own_rotated, alien, unresolved, foreign, foreign_synced,
}
use cswap.Switching.Classify.Frame.{classify_outgoing-Reads}
use cswap.Switching.Normal.{backup_kind, backup_outgoing}

module _ (R : Runtime) (target : ℕ) (target_email : String)
    (creds config live_config : R.Text) where
  open R use {Text}

  -- No fault is to come, and the target's stored login and the live config are these.
  pub record Ready (w : World R) : Type 0 where
    pub no_refusals : w.refusals ≡ []
    pub no_chmods : w.chmod_failures ≡ []
    pub stored_creds : w.credential_backups target target_email ≡ creds
    pub stored_config : w.config_backups target target_email ≡ config
    pub text : w.global_config ≡ some live_config

  pub Ready-Reads :
      {A : Type 0} (w : World R) (out : A × World R) → Ready w → Reads R w out → Ready out.1
  Ready-Reads w out h r = record {
    no_refusals = r.no_refusals h.no_refusals;
    no_chmods = r.same_chmods ∙ h.no_chmods;
    stored_creds =
        ap (λ (x : Vault R). x.credentials target target_email) r.same_vault ∙ h.stored_creds;
    stored_config =
        ap (λ (x : Vault R). x.configs target target_email) r.same_vault ∙ h.stored_config;
    text = ap (λ (x : Face R). x.config) r.same_face ∙ h.text;
  }

  -- A call that cannot fail from such a world, and leaves one.
  pub record Sure {A : Type 0} (m : Exec R A) : Type 0 where
    pub at : (w : World R) → Ready w → Post (λ v. ⊥) (λ a v. Ready v) (m w)

  Sure-pure : {A : Type 0} (a : A) → Sure (pure R a)
  Sure-pure a = record { at = λ w h. pure-Post a w h }

  Sure-bind :
      {A B : Type 0} (m : Exec R A) (f : A → Exec R B)
      → Sure m
      → ((a : A) → Sure (f a))
      → Sure (m >>= f)
  Sure-bind m f s t = record {
    at = λ w h. Post-bind (λ a v. Ready v) m f w (s.at w h) (λ a v k. (t a).at v k);
  }

  module _ (current : ℕ) (other : target ≢ current) (email : String) where
    Sure-credentials : (text : Text) → Sure (write_account_credentials R current email text)
    unfolding write_account_credentials ask chmod_after answer rest
    Sure-credentials text = record {
      at = λ w h.
          rw (h.no_refusals, h.no_chmods)
            (returned (record {
              no_refusals = refl;
              no_chmods = refl;
              stored_creds = ground (arith, h.stored_creds, other);
              stored_config = h.stored_config;
              text = h.text;
            }));
    }

    Sure-config : (text : Text) → Sure (write_account_config R current email text)
    unfolding write_account_config ask chmod_after answer rest
    Sure-config text = record {
      at = λ w h.
          rw (h.no_refusals, h.no_chmods)
            (returned (record {
              no_refusals = refl;
              no_chmods = refl;
              stored_creds = h.stored_creds;
              stored_config = ground (arith, h.stored_config, other);
              text = h.text;
            }));
    }

    Sure-stash : (text : Text) (slot : Option ℕ) → Sure (write_unclaimed R text slot)
    unfolding write_unclaimed ask chmod_after answer rest
    Sure-stash text slot = record {
      at = λ w h.
          rw (h.no_refusals, h.no_chmods)
            (returned (record {
              no_refusals = refl;
              no_chmods = refl;
              stored_creds = h.stored_creds;
              stored_config = h.stored_config;
              text = h.text;
            }));
    }

    ruleset sure_rules = (Sure-pure, Sure-bind, Sure-credentials, Sure-config, Sure-stash)

    Sure-backup_kind :
        (kind : Kind) (text cfg : Text) (prov : Provenance R) (sd : SequenceData)
        → Sure (backup_kind R kind current email text cfg prov sd)
    unfolding backup_kind
    Sure-backup_kind (foreign slot) text cfg prov sd = search sure_rules
    Sure-backup_kind alien text cfg prov sd = search sure_rules
    Sure-backup_kind (foreign_synced slot) text cfg prov sd = search sure_rules
    Sure-backup_kind own_bytes text cfg prov sd = search sure_rules
    Sure-backup_kind own_rotated text cfg prov sd = search sure_rules
    Sure-backup_kind own_family text cfg prov sd = search sure_rules
    Sure-backup_kind unresolved text cfg prov sd = search sure_rules

    pub Sure-backup_outgoing :
        (text cfg : Text) (prov : Provenance R) (sd : SequenceData)
        → Sure (backup_outgoing R current email text cfg prov sd)
    unfolding backup_outgoing
    Sure-backup_outgoing text cfg prov sd = record {
      at = λ w h.
          Post-bind (λ kind v. Ready v) _ _ w
            (lenient-returned _ w
              (Ready-Reads w _ h (classify_outgoing-Reads R current email text prov (some sd) w)))
            λ kind v k. (Sure-backup_kind kind text cfg prov sd).at v k;
    }
