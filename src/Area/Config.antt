-- ===== src/Area/Config.antt =====
-- Machines and own fields of an area: src/area/area-config.ts.
pub mod Values
use backend_emd.Prelude.{
  ℕ, string_eq, ◌==◌, contains, any, keep, leb, ltb, Bool, true, false, not, ◌&&◌, ◌||◌, Option,
  none, some, List, [], ◌∷◌, map, String, if◌then◌else◌, trim, text_length, is_empty_text, length,
}
use backend_emd.Http.{Result, ok, err, bad_request}

-- `AreaFieldType`
pub data AreaFieldType : Type 0 where
  text number select boolean : AreaFieldType

pub record AreaMachineView : Type 0 where
  pub id : ℕ
  pub name : String

pub record AreaFieldView : Type 0 where
  pub id : ℕ
  pub key : String
  pub label : String
  pub type : AreaFieldType
  pub required : Bool
  pub options : List String
  pub unit : Option String

abbrev pub field_text_max_length : ℕ
field_text_max_length = 200

-- A number: a finite one by its numeral, or NaN or an infinity.
pub data Number : Type 0 where
  finite : String → Number
  not_finite : Number

-- A value of the request's JSON; `other` is an array or an object.
pub data Raw : Type 0 where
  null other : Raw
  string : String → Raw
  num : Number → Raw
  bool : Bool → Raw

-- `FieldValue`
pub data FieldValue : Type 0 where
  text_value : String → FieldValue
  number_value : Number → FieldValue
  boolean_value : Bool → FieldValue

abbrev pub FieldValues : Type 0
FieldValues = List (String × FieldValue)

module _ {V : Type 0} where
  -- `values[key]`, `none` for undefined
  abbrev pub value_at : String → List (String × V) → Option V
  value_at key [] = none
  value_at key ((k, v) ∷ values) =
      let rest = value_at key values in if k == key then some v else rest

  -- `values[key] = v`
  abbrev pub set_value : String → V → List (String × V) → List (String × V)
  set_value key v [] = (key, v) ∷ []
  set_value key v ((k, w) ∷ values) =
      let rest = set_value key v values in if k == key then (k, v) ∷ values else (k, w) ∷ rest

  -- `delete values[key]`
  abbrev pub delete_value : String → List (String × V) → List (String × V)
  delete_value key [] = []
  delete_value key ((k, w) ∷ values) =
      let rest = delete_value key values in if k == key then rest else (k, w) ∷ rest

-- `new Map(fields.map((f) => [f.key, f])).get(key)`: the last field with the key.
unfoldable pub field_of : String → List AreaFieldView → Option AreaFieldView
field_of key [] = none
field_of key (f ∷ fields) = elim (field_of key fields) [
  | some later ↦ some later
  | none ↦ if f.key == key then some f else none
]

-- An empty value (`null` or `''`) means no value.
abbrev pub is_empty_value : Raw → Bool
is_empty_value null = true
is_empty_value (string s) = is_empty_text s
is_empty_value _ = false

-- One case of the `switch (field.type)`.
unfoldable pub clean_value : AreaFieldType → List String → Raw → Result FieldValue
unfolding trim text_length
clean_value text options (string s) =
    if ltb field_text_max_length (text_length s) then err bad_request else ok (text_value (trim s))
clean_value number options (num (finite n)) = ok (number_value (finite n))
clean_value select options (string s) =
    if contains options s then ok (text_value s) else err bad_request
clean_value boolean options (bool b) = ok (boolean_value b)
clean_value _ options _ = err bad_request

-- The body of the loop over the entries.
unfoldable pub clean_entry : List AreaFieldView → String → Raw → FieldValues → Result FieldValues
unfolding field_of clean_value
clean_entry fields key raw clean = elim (field_of key fields) [
  | none ↦ err bad_request
  | some field ↦
      if is_empty_value raw then ok clean else elim (clean_value field.type field.options raw) [
        | err e ↦ err e
        | ok v ↦ ok (set_value key v clean)
      ]
]

unfoldable pub validate_from :
    List AreaFieldView → List (String × Raw) → FieldValues → Result FieldValues
unfolding clean_entry
validate_from fields [] clean = ok clean
validate_from fields ((key, raw) ∷ values) clean = elim (clean_entry fields key raw clean) [
  | err e ↦ err e
  | ok clean' ↦ validate_from fields values clean'
]

unfoldable pub validate_field_values : List AreaFieldView → List (String × Raw) → Result FieldValues
unfolding validate_from
validate_field_values fields values = validate_from fields values []

abbrev pub is_unset : Option FieldValue → Bool
is_unset none = true
is_unset (some (text_value s)) = is_empty_text s
is_unset (some _) = false

-- Required fields with no value.
unfoldable pub missing_required : List AreaFieldView → FieldValues → List AreaFieldView
missing_required fields values = keep (λ f. f.required && is_unset (value_at f.key values)) fields
