-- ===== src/Area/Config/Values.antt =====
-- What `validateFieldValues` lets through.
use backend_emd.Prelude.{
  ◌≤◌, ◌≡◌, refl, string_eq, ◌==◌, contains, Bool, true, ◌⊎◌, inl, inr, some, List, [], ◌∷◌,
  if◌then◌else◌, String, arith, eq_iff, trim, text_length, Option-cases, Bool-cases,
}
use backend_emd.Http.{ok, Result-cases}
use backend_emd.Area.Config.{
  AreaFieldType, text, number, select, boolean, AreaFieldView, field_text_max_length, finite, Raw,
  FieldValue, text_value, number_value, boolean_value, FieldValues, value_at, set_value, field_of,
  is_empty_value, clean_value, clean_entry, validate_from, validate_field_values, string, num, bool,
}

-- What a stored value of a field may be, given what was sent.
pub data Fits (f : AreaFieldView) : Raw → FieldValue → Type 0 where
  as_text :
      (s : String)
      → f.type ≡ text
      → text_length s ≤ field_text_max_length
      → Fits f (string s) (text_value (trim s))
  as_number : (n : String) → f.type ≡ number → Fits f (num (finite n)) (number_value (finite n))
  as_option :
      (s : String)
      → f.type ≡ select
      → contains f.options s ≡ true
      → Fits f (string s) (text_value s)
  as_boolean : (b : Bool) → f.type ≡ boolean → Fits f (bool b) (boolean_value b)

clean_value-Fits :
    (f : AreaFieldView) (type : AreaFieldType) (raw : Raw) (v : FieldValue)
    → f.type ≡ type
    → clean_value type f.options raw ≡ ok v
    → Fits f raw v
unfolding clean_value
clean_value-Fits f text (string s) v t e =
    let p : text_value (trim s) ≡ v = ground arith in rw (← p) (as_text s t (ground arith))
clean_value-Fits f number (num (finite n)) v t e =
    let p : number_value (finite n) ≡ v = ground arith in rw (← p) (as_number n t)
clean_value-Fits f select (string s) v t e =
    let p : text_value s ≡ v = ground arith in rw (← p) (as_option s t (ground arith))
clean_value-Fits f boolean (bool b) v t e =
    let p : boolean_value b ≡ v = ground arith in rw (← p) (as_boolean b t)
clean_value-Fits f _ _ v t e = cc

value_at-set_value :
    {V : Type 0} (j k : String) (v : V) (m : List (String × V))
    → value_at j (set_value k v m) ≡ (if k == j then some v else value_at j m)
value_at-set_value j k v [] = refl
value_at-set_value j k v ((i, w) ∷ m) =
    ground (arith, eq_iff k j, eq_iff i k, eq_iff i j, value_at-set_value j k v m)

-- The request has this entry.
abbrev pub Sent : String → Raw → List (String × Raw) → Type 0
Sent key raw [] = ⊥
Sent key raw ((k, r) ∷ values) = ((k ≡ key) × (r ≡ raw)) ⊎ Sent key raw values

-- The value stored under a key comes from an entry of the request for a field of the area.
pub record Justified (fields : List AreaFieldView) (values : List (String × Raw)) (key : String)
    (v : FieldValue) : Type 0 where
  pub raw : Raw
  pub field : AreaFieldView
  pub sent : Sent key raw values
  pub known : field_of key fields ≡ some field
  pub fits : Fits field raw v

clean_entry-justified :
    (fields : List AreaFieldView) (k : String) (r : Raw) (clean clean' : FieldValues) (key : String)
    (v : FieldValue)
    → clean_entry fields k r clean ≡ ok clean'
    → value_at key clean' ≡ some v
    → (value_at key clean ≡ some v)
      ⊎ ((k ≡ key) × (f : AreaFieldView) × (field_of k fields ≡ some f) × Fits f r v)
unfolding clean_entry
clean_entry-justified fields k r clean clean' key v e h = elim (Option-cases (field_of k fields)) [
  | inl unknown ↦ ground arith
  | inr (f, known) ↦ elim (Bool-cases (is_empty_value r)) [
    | inl empty ↦ inl (ground arith)
    | inr full ↦ elim (Result-cases (clean_value f.type f.options r)) [
      | inr (x, failed) ↦ ground arith
      | inl (w, cleaned) ↦
          let stored : clean' ≡ set_value k w clean = ground arith in
          elim (Bool-cases (k == key)) [
            | inl same ↦
                let w_v : w ≡ v = ground (arith, value_at-set_value key k w clean) in
                inr (
                  (eq_iff k key).0 same,
                  f,
                  known,
                  rw w_v at (clean_value-Fits f f.type r w refl cleaned),
                )
            | inr differs ↦ inl (ground (arith, value_at-set_value key k w clean))
          ]
    ]
  ]
]

validate_from-Justified :
    (fields : List AreaFieldView) (values : List (String × Raw)) (clean result : FieldValues)
    (key : String) (v : FieldValue)
    → validate_from fields values clean ≡ ok result
    → value_at key result ≡ some v
    → (value_at key clean ≡ some v) ⊎ Justified fields values key v
unfolding validate_from
validate_from-Justified fields [] clean result key v e h = inl (ground arith)
validate_from-Justified fields ((k, r) ∷ values) clean result key v e h =
    elim (Result-cases (clean_entry fields k r clean)) [
      | inr (x, failed) ↦ ground arith
      | inl (clean', entered) ↦
          elim (validate_from-Justified fields values clean' result key v
            (rw (entered, validate_from) at e) h) [
              | inr j ↦ inr (record {
                raw = j.raw;
                field = j.field;
                sent = inr j.sent;
                known = j.known;
                fits = j.fits;
              })
              | inl stored ↦
                  elim (clean_entry-justified fields k r clean clean' key v entered stored) [
                    | inl before ↦ inl before
                    | inr (same, f, known, fits) ↦ inr (record {
                      raw = r;
                      field = f;
                      sent = inl (same, refl);
                      known = rw same at known;
                      fits = fits;
                    })
                  ]
            ]
    ]

-- Whatever is stored after a successful validation stands under the key of an active field of the
-- area, comes from an entry of the request under that key, and fits the field: a text of at most
-- 200 units, trimmed; a finite number; one of the field's options; or yes/no.
pub validate_field_values-Justified :
    (fields : List AreaFieldView) (values : List (String × Raw)) (clean : FieldValues)
    (key : String) (v : FieldValue)
    → validate_field_values fields values ≡ ok clean
    → value_at key clean ≡ some v
    → Justified fields values key v
unfolding validate_field_values
validate_field_values-Justified fields values clean key v e h =
    elim (validate_from-Justified fields values [] clean key v e h) [
      | inl impossible ↦ cc
      | inr j ↦ j
    ]
