-- ===== src/Examples/SampleJson.antt =====
-- A small JSON library that satisfies the laws.
use iron_babel.Base.{ℕ, ◌≡◌, refl, ap, Bool, true, false, Option, none, some, List, [], ◌∷◌, inr}
use iron_babel.Text.{Str}
use iron_babel.Json.{Json, JsonLaws, lookup}

mutual
  pub data Value : Type 0 where
    number_value : ℕ → Value
    string_value : Str → Value
    array_value : Values → Value
    object_value : Fields → Value

  pub data Values : Type 0 where
    no_values : Values
    one_more : Value → Values → Values

  pub data Fields : Type 0 where
    no_fields : Fields
    field : Str → Value → Fields → Fields

to_values : List Value → Values
to_values [] = Values.no_values
to_values (v ∷ vs) = Values.one_more v (to_values vs)

from_values : Values → List Value
from_values Values.no_values = []
from_values (Values.one_more v vs) = v ∷ from_values vs

to_fields : List (Str × Value) → Fields
to_fields [] = Fields.no_fields
to_fields ((k, v) ∷ fs) = Fields.field k v (to_fields fs)

from_fields : Fields → List (Str × Value)
from_fields Fields.no_fields = []
from_fields (Fields.field k v fs) = (k, v) ∷ from_fields fs

get_field : Value → Str → Option Value
get_field (Value.object_value fs) k = lookup k (from_fields fs)
get_field _ k = none

as_array_of : Value → Option (List Value)
as_array_of (Value.array_value vs) = some (from_values vs)
as_array_of _ = none

as_u64_of : Value → Option ℕ
as_u64_of (Value.number_value n) = some n
as_u64_of _ = none

as_str_of : Value → Option Str
as_str_of (Value.string_value s) = some s
as_str_of _ = none

is_object_of : Value → Bool
is_object_of (Value.object_value _) = true
is_object_of _ = false

unfoldable pub sample_json : Json
unfolding get_field as_array_of as_u64_of as_str_of is_object_of to_values to_fields from_values
    from_fields
sample_json = record {
  Value = Value;
  get = get_field;
  as_array = as_array_of;
  as_u64 = as_u64_of;
  as_str = as_str_of;
  is_object = is_object_of;
  from_slice = λ s. inr (Value.string_value s);
  object = λ fs. Value.object_value (to_fields fs);
  array = λ vs. Value.array_value (to_values vs);
  number = Value.number_value;
  string = Value.string_value;
}

from-to_values : (vs : List Value) → from_values (to_values vs) ≡ vs
unfolding from_values to_values
from-to_values [] = refl
from-to_values (v ∷ vs) = ap (λ l. v ∷ l) (from-to_values vs)

from-to_fields : (fs : List (Str × Value)) → from_fields (to_fields fs) ≡ fs
unfolding from_fields to_fields
from-to_fields [] = refl
from-to_fields ((k, v) ∷ fs) = ap (λ l. (k, v) ∷ l) (from-to_fields fs)

pub sample_laws : JsonLaws sample_json
unfolding sample_json get_field as_array_of as_u64_of as_str_of
sample_laws = record {
  get_object = λ fs k h. ap (lookup k) (from-to_fields fs);
  as_array_array = λ vs. ap some (from-to_values vs);
  as_u64_number = λ n. refl;
  as_str_string = λ s. refl;
}
