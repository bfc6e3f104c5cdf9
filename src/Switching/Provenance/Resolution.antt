-- ===== src/Switching/Provenance/Resolution.antt =====
-- What an identity that was resolved before the locks rests on.
use cswap.Base.{
  ℕ, String, ◌≡◌, refl, Bool, true, false, Option, none, some, inl, inr, Bool-cases, if◌then◌else◌,
}
use cswap.Runtime.{Runtime}
use cswap.Files.{Result, ok, err, World}
use cswap.Files.Active.{read_active, get_current_account}
use cswap.Switching.Provenance.{
  Identity, Provenance, oauth_string, resolve, resolve_against, resolve_for, prefetch_from,
  prefetch_live_identity,
}

module _ (R : Runtime) (profile : String → Option Identity) where
  open R use {Text, text_eq, blank}

  -- The identity is the profile of the access token in the live credential, which is not empty.
  pub record Resolved (prov : Provenance R) (who : Identity) : Type 0 where
    pub live : Text
    pub access : String
    pub bytes : prov.live ≡ some live
    pub filled : text_eq live blank ≡ false
    pub token : oauth_string R "accessToken" live ≡ some access
    pub answered : profile access ≡ some who

  resolve-answered :
      (live : Text) (who : Identity)
      → resolve R profile live ≡ some who
      → (access : String) × (oauth_string R "accessToken" live ≡ some access)
        × (profile access ≡ some who)
  unfolding resolve
  resolve-answered live who h = go (oauth_string R "accessToken" live) refl h
    where
      go :
          (o : Option String)
          → oauth_string R "accessToken" live ≡ o
          → elim o [ none ↦ none | some access ↦ profile access ] ≡ some who
          → (access : String) × (oauth_string R "accessToken" live ≡ some access)
            × (profile access ≡ some who)
      go none e h = cc
      go (some access) e h = (access, e, h)

  if-none :
      (b : Bool) (o : Option Identity) (who : Identity)
      → (if b then none else o) ≡ some who
      → o ≡ some who
  if-none true o who h = cc
  if-none false o who h = h

  from_answer :
      (live : Text) (who : Identity) (prov : Provenance R)
      → text_eq live blank ≡ false
      → prov.live ≡ some live
      → resolve R profile live ≡ some who
      → Resolved prov who
  from_answer live who prov n l h =
      let (access, t, a) = resolve-answered live who h in
      record { live = live; access = access; bytes = l; filled = n; token = t; answered = a }

  resolve_against-Resolved :
      (live : Text) (slot : Option ℕ) (email : String) (w : World R) (who : Identity)
      → text_eq live blank ≡ false
      → (resolve_against R profile live slot email w).0.resolved ≡ some who
      → Resolved (resolve_against R profile live slot email w).0 who
  unfolding resolve_against
  resolve_against-Resolved live none email w who n h = cc
  resolve_against-Resolved live (some slot) email w who n h =
      from_answer live who _ n refl (if-none _ _ who h)

  resolve_for-Resolved :
      (live : Text) (id : Option (String × String) × World R) (who : Identity)
      → text_eq live blank ≡ false
      → (resolve_for R profile live id).0.resolved ≡ some who
      → Resolved (resolve_for R profile live id).0 who
  unfolding resolve_for
  resolve_for-Resolved live (none, w) who n h = cc
  resolve_for-Resolved live (some (email, org), w) who n h =
      resolve_against-Resolved live _ email _ who n h

  prefetch_from-Resolved :
      (out : Result Text × World R) (who : Identity)
      → (prefetch_from R profile out).0.resolved ≡ some who
      → Resolved (prefetch_from R profile out).0 who
  unfolding prefetch_from
  prefetch_from-Resolved (err e, w) who = λ h. cc
  prefetch_from-Resolved (ok live, w) who = elim (Bool-cases (text_eq live blank)) [
    | inl e ↦ rw (e, prefetch_from) λ h. cc
    | inr n ↦ rw (n, prefetch_from) λ h. resolve_for-Resolved live (get_current_account R w) who n h
  ]

  -- An identity that was resolved before the switch is what the profile request answered for the
  -- access token in exactly the live bytes that are kept beside it, which are not empty.
  pub prefetch_live_identity-Resolved :
      (w : World R) (who : Identity)
      → (prefetch_live_identity R profile w).0.resolved ≡ some who
      → Resolved (prefetch_live_identity R profile w).0 who
  unfolding prefetch_live_identity
  prefetch_live_identity-Resolved w who h = prefetch_from-Resolved (read_active R w) who h
