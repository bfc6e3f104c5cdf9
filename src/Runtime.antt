-- ===== src/Runtime.antt =====
-- Go's standard library as cswap uses it (encoding/json, strings, crypto/sha256, sort): a parameter
-- of the models. `Text` is the type of file contents and credentials, which the program moves,
-- compares and decodes; `Object` is `map[string]any` and `Value` is `any`.
use cswap.Base.{String, ◌≡◌, ◌≢◌, ◌↔◌, Bool, true, ℕ, Option, some, List}

pub record Runtime : Type 1 where
  pub Text : Type 0
  pub text_eq : Text → Text → Bool
  pub text_eq_iff : (a b : Text) → (text_eq a b ≡ true) ↔ (a ≡ b)
  -- the empty string
  pub blank : Text
  pub content : String → Text
  pub string_of : Text → String
  -- strings.TrimSpace, on contents and on short strings
  pub trim_text : Text → Text
  pub trim_space : String → String
  -- strings.HasPrefix, len(text), text[n:]
  pub has_prefix : Text → String → Bool
  pub len : Text → ℕ
  pub slice_from : Text → ℕ → Text
  pub sha256 : Text → String
  -- sort.Strings on the decimal forms of slot numbers
  pub sort_strings : List ℕ → List ℕ
  pub Value : Type 0
  pub Object : Type 0
  pub as_object : Value → Option Object
  pub of_object : Object → Value
  pub as_string : Value → Option String
  pub of_string : String → Value
  pub as_list : Value → Option (List Value)
  pub of_list : List Value → Value
  pub is_null : Value → Bool
  pub empty : Object
  pub is_empty : Object → Bool
  pub get : Object → String → Option Value
  pub put : String → Value → Object → Object
  pub delete : String → Object → Object
  -- json.Unmarshal into a map: `none` is an error, `some none` the document `null`
  pub unmarshal : Text → Option (Option Object)
  -- json.Decoder.Decode of the first value, where that is an object
  pub decode_first : Text → Option Object
  -- json.Encoder with an indent of two
  pub marshal_indent : Object → Text
  pub get-put_self : (k : String) (v : Value) (o : Object) → get (put k v o) k ≡ some v
  pub get-put_ne : (k j : String) (v : Value) (o : Object) → k ≢ j → get (put k v o) j ≡ get o j
  pub unmarshal-marshal : (o : Object) → unmarshal (marshal_indent o) ≡ some (some o)
