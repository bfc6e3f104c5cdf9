-- ===== src/Examples/Texts.antt =====
-- The order of strings by their characters.
use Prim.Native.String.{String, [], ◌∷◌}
use Prim.Native.Char.{code}
use Prim.Native.Nat.{compare, Ordering}
use text.Mathlib.TextEquality.{codes_equal}
use mathlib.Core.Path.{◌≡◌, refl}
use mathlib.Core.Bool.{Bool, true, false}
use cswap.Base.{ltb, if◌then◌else◌, arith}

pub string_lt : String → String → Bool
string_lt [] [] = false
string_lt [] (d ∷ t) = true
string_lt (c ∷ s) [] = false
string_lt (c ∷ s) (d ∷ t) =
    let rest = string_lt s t in
    if ltb (code c) (code d) then true else if ltb (code d) (code c) then false else rest

pub string_lt_asymmetric : (s t : String) → string_lt s t ≡ true → string_lt t s ≡ false
unfolding string_lt
string_lt_asymmetric [] [] h = refl
string_lt_asymmetric [] (d ∷ t) h = refl
string_lt_asymmetric (c ∷ s) [] h = cc
string_lt_asymmetric (c ∷ s) (d ∷ t) h = ground (arith, string_lt_asymmetric s t)

pub string_lt_transitive :
    (s t u : String) → string_lt s t ≡ false → string_lt t u ≡ false → string_lt s u ≡ false
unfolding string_lt
string_lt_transitive [] [] u h k = k
string_lt_transitive [] (d ∷ t) u h k = cc
string_lt_transitive (c ∷ s) t [] h k = refl
string_lt_transitive (c ∷ s) [] (e ∷ u) h k = cc
string_lt_transitive (c ∷ s) (d ∷ t) (e ∷ u) h k = ground (arith, string_lt_transitive s t u)

pub string_lt_total : (s t : String) → string_lt s t ≡ false → string_lt t s ≡ false → s ≡ t
unfolding string_lt
string_lt_total [] [] h k = refl
string_lt_total [] (d ∷ t) h k = cc
string_lt_total (c ∷ s) [] h k = cc
string_lt_total (c ∷ s) (d ∷ t) h k =
    let same : compare (code c) (code d) ≡ Ordering.eq = ground (arith, h, k) in
    let first : string_lt s t ≡ false = ground (arith, h, k) in
    let second : string_lt t s ≡ false = ground (arith, h, k) in
    λ i. codes_equal c d same i ∷ string_lt_total s t first second i
