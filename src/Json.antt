-- ===== src/Json.antt =====
-- The parts of serde_json that the program calls, as an interface: `Value`, its accessors, what
-- `json!` builds, and the parsing of a body.
use iron_babel.Base.{ℕ, ◌≡◌, ◌≢◌, Option, some, none, List, [], ◌∷◌, Bool, ◌⊎◌, if◌then◌else◌, All}
use iron_babel.Text.{Str, str_eq}

pub record Json : Type 1 where
  pub Value : Type 0
  pub get : Value → Str → Option Value
  pub as_array : Value → Option (List Value)
  pub as_u64 : Value → Option ℕ
  pub as_str : Value → Option Str
  pub is_object : Value → Bool
  pub from_slice : Str → Str ⊎ Value
  pub object : List (Str × Value) → Value
  pub array : List Value → Value
  pub number : ℕ → Value
  pub string : Str → Value

module _ {A : Type 0} where
  unfoldable pub lookup : Str → List (Str × A) → Option A
  lookup k [] = none
  lookup k ((j, v) ∷ m) = if str_eq j k then some v else lookup k m

  abbrev pub HasDistinctKeys : List (Str × A) → Type 0
  HasDistinctKeys [] = Unit
  HasDistinctKeys (f ∷ fs) = All (λ g. g.0 ≢ f.0) fs × HasDistinctKeys fs

-- What `json!` builds is read back by the accessors.
pub record JsonLaws (J : Json) : Type 0 where
  pub get_object :
      (fields : List (Str × J.Value)) (k : Str)
      → HasDistinctKeys fields
      → J.get (J.object fields) k ≡ lookup k fields
  pub as_array_array : (vs : List J.Value) → J.as_array (J.array vs) ≡ some vs
  pub as_u64_number : (n : ℕ) → J.as_u64 (J.number n) ≡ some n
  pub as_str_string : (s : Str) → J.as_str (J.string s) ≡ some s
