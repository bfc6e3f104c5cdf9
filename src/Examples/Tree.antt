-- ===== src/Examples/Tree.antt =====
-- A small instance of the parameter `Runtime`: a text is a JSON tree or plain characters. Prefixes
-- and substrings of plain characters are not computed, so no text here is an API key.
use cswap.Base.{
  String, ◌≡◌, ◌≢◌, refl, ap, Bool, true, false, ◌&&◌, Option, none, some, List, [], ◌∷◌,
  if◌then◌else◌, arith, str_eq, str_eq_iff, inl, inr, Bool-cases,
}
use cswap.Runtime.{Runtime}

-- `field k v rest` is an object with one more key, `document v` the printed form of a value.
pub data Tree : Type 0 where
  leaf : String → Tree
  nothing : Tree
  field : String → Tree → Tree → Tree
  document : Tree → Tree

abbrev pub same : Tree → Tree → Bool
same (leaf a) (leaf b) = str_eq a b
same nothing nothing = true
same (field k v r) (field j u s) = str_eq k j && (same v u && same r s)
same (document v) (document u) = same v u
same _ _ = false

pub same_refl : (a : Tree) → same a a ≡ true
same_refl (leaf a) = (str_eq_iff a a).1 refl
same_refl nothing = refl
same_refl (field k v r) = ground (arith, str_eq_iff k k, same_refl v, same_refl r)
same_refl (document v) = same_refl v

and-both : (a b : Bool) → (a && b) ≡ true → (a ≡ true) × (b ≡ true)
and-both true true h = (refl, refl)
and-both true false h = cc
and-both false b h = cc

pub same_sound : (a b : Tree) → same a b ≡ true → a ≡ b
same_sound (leaf a) (leaf b) h = ap leaf ((str_eq_iff a b).0 h)
same_sound (leaf a) nothing h = cc
same_sound (leaf a) (field k v r) h = cc
same_sound (leaf a) (document v) h = cc
same_sound nothing (leaf b) h = cc
same_sound nothing nothing h = refl
same_sound nothing (field k v r) h = cc
same_sound nothing (document v) h = cc
same_sound (field k v r) (leaf b) h = cc
same_sound (field k v r) nothing h = cc
same_sound (field k v r) (field j u s) h =
    let (e, g) = and-both (str_eq k j) (same v u && same r s) h in
    let (f, t) = and-both (same v u) (same r s) g in
    let named = (str_eq_iff k j).0 e in
    let valued = same_sound v u f in let rest = same_sound r s t in cc
same_sound (field k v r) (document u) h = cc
same_sound (document v) (leaf b) h = cc
same_sound (document v) nothing h = cc
same_sound (document v) (field j u s) h = cc
same_sound (document v) (document u) h = ap document (same_sound v u h)

abbrev pub find : Tree → String → Option Tree
find (field k v r) j = if str_eq k j then some v else find r j
find _ j = none

abbrev pub remove : String → Tree → Tree
remove j (field k v r) = if str_eq k j then remove j r else field k v (remove j r)
remove j t = t

abbrev pub object : Tree → Option Tree
object (leaf s) = none
object t = some t

abbrev pub characters : Tree → Option String
characters (leaf s) = some s
characters t = none

abbrev pub elements : Tree → List Tree
elements (field k v r) = v ∷ elements r
elements t = []

abbrev pub array : List Tree → Tree
array [] = nothing
array (v ∷ vs) = field "" v (array vs)

abbrev pub parse : Tree → Option (Option Tree)
parse (document v) = some (some v)
parse t = none

abbrev pub first : Tree → Option Tree
first (document v) = some v
first t = none

abbrev pub plain : Tree → String
plain (leaf s) = s
plain t = "{}"

abbrev pub is_nothing : Tree → Bool
is_nothing nothing = true
is_nothing t = false

pub find-put_self : (k : String) (v o : Tree) → find (field k v o) k ≡ some v
find-put_self k v o = ground (arith, str_eq_iff k k)

pub find-put_ne : (k j : String) (v o : Tree) → k ≢ j → find (field k v o) j ≡ find o j
find-put_ne k j v o n = elim (Bool-cases (str_eq k j)) [
  | inl e ↦ absurd (n ((str_eq_iff k j).0 e))
  | inr e ↦ rw e refl
]

abbrev pub tree_runtime : Runtime
tree_runtime = record {
  Text = Tree;
  text_eq = same;
  text_eq_iff = λ a b. (same_sound a b, λ e. rw e (same_refl b));
  blank = leaf "";
  content = leaf;
  string_of = plain;
  trim_text = λ t. t;
  trim_space = λ s. s;
  has_prefix = λ t s. false;
  len = λ t. 0;
  slice_from = λ t n. t;
  sha256 = plain;
  sort_strings = λ ns. ns;
  Value = Tree;
  Object = Tree;
  as_object = object;
  of_object = λ o. o;
  as_string = characters;
  of_string = leaf;
  as_list = λ t. some (elements t);
  of_list = array;
  is_null = λ t. false;
  empty = nothing;
  is_empty = is_nothing;
  get = find;
  put = field;
  delete = remove;
  unmarshal = parse;
  decode_first = first;
  marshal_indent = document;
  get-put_self = find-put_self;
  get-put_ne = find-put_ne;
  unmarshal-marshal = λ o. refl;
}
