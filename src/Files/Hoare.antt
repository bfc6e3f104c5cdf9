-- ===== src/Files/Hoare.antt =====
-- Postconditions of the calls in Files, one rule for each way to put calls together.
use mathlib.Core.Path.{subst}
use cswap.Base.{◌≡◌}
use cswap.Runtime.{Runtime}
use cswap.Files.{Error, Result, ok, err, World, Exec, continue, pure, fail, lenient, modify, ◌>>=◌}

module _ {R : Runtime} where
  -- Where a call returns, `Q` holds of the value and the files; where it fails, `F` of the files.
  pub data Post {A : Type 0} (F : World R → Type 0) (Q : A → World R → Type 0)
      : Result A × World R → Type 0 where
    returned : {a : A} {w : World R} → Q a w → Post F Q (ok a, w)
    failed : {e : Error} {w : World R} → F w → Post F Q (err e, w)

module _ {R : Runtime} {A : Type 0} where
  pub Post-ok :
      {F : World R → Type 0} {Q : A → World R → Type 0} (out : Result A × World R) (a : A)
      → Post F Q out
      → out.0 ≡ ok a
      → Q a out.1
  Post-ok {Q} (ok b, w) a (returned q) h = subst (λ x. Q x w) (cc) q
  Post-ok (err e, w) a p h = cc

  pub Post-err :
      {F : World R → Type 0} {Q : A → World R → Type 0} (out : Result A × World R) (e : Error)
      → Post F Q out
      → out.0 ≡ err e
      → F out.1
  Post-err (ok b, w) e p h = cc
  Post-err (err d, w) e (failed f) h = f

  pub Post-mono :
      {F G : World R → Type 0} {Q S : A → World R → Type 0} (out : Result A × World R)
      → ((w : World R) → F w → G w)
      → ((a : A) (w : World R) → Q a w → S a w)
      → Post F Q out
      → Post G S out
  Post-mono (ok a, w) f q (returned p) = returned (q a w p)
  Post-mono (err e, w) f q (failed p) = failed (f w p)

module _ {R : Runtime} {A B : Type 0} where
  pub Post-bind :
      {F : World R → Type 0} (Q : A → World R → Type 0) {S : B → World R → Type 0} (m : Exec R A)
      (f : A → Exec R B) (w : World R)
      → Post F Q (m w)
      → ((a : A) (v : World R) → Q a v → Post F S (f a v))
      → Post F S ((m >>= f) w)
  unfolding ◌>>=◌
  Post-bind {F} Q {S} m f w p k = go (m w) p
    where
      go : (out : Result A × World R) → Post F Q out → Post F S (continue R out f)
      go (ok a, v) (returned q) = k a v q
      go (err e, v) (failed q) = failed q

module _ {R : Runtime} {F : World R → Type 0} where
  pub pure-Post :
      {A : Type 0} {Q : A → World R → Type 0} (a : A) (w : World R) → Q a w → Post F Q (pure R a w)
  unfolding pure
  pure-Post a w q = returned q

  pub fail-Post :
      {A : Type 0} {Q : A → World R → Type 0} (e : Error) (w : World R)
      → F w
      → Post F Q (fail R e w)
  unfolding fail
  fail-Post e w f = failed f

  pub modify-Post :
      {Q : World R → Type 0} (g : World R → World R) (w : World R)
      → Q (g w)
      → Post F (λ a v. Q v) (modify R g w)
  unfolding modify
  modify-Post g w q = returned q

  pub lenient-returned :
      {A : Type 0} {Q : A → World R → Type 0} (m : World R → A × World R) (w : World R)
      → Q (m w).0 (m w).1
      → Post F Q (lenient R m w)
  unfolding lenient
  lenient-returned m w q = returned q

module _ {R : Runtime} {A : Type 0} where
  -- Two postconditions of one call.
  pub Post-and :
      {F G : World R → Type 0} {Q S : A → World R → Type 0} (out : Result A × World R)
      → Post F Q out
      → Post G S out
      → Post F (λ a v. Q a v × S a v) out
  Post-and (ok a, v) (returned q) (returned s) = returned (q, s)
  Post-and (err e, v) (failed f) _ = failed f

  pub Post-any : (out : Result A × World R) → Post (λ v. Unit {0}) (λ a v. Unit {0}) out
  Post-any (ok a, v) = returned tt
  Post-any (err e, v) = failed tt
