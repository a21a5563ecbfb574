-- ===== src/Quotes/Prepare/Names.antt =====
-- The name of the client on a quote is within its bound, wherever it comes from
-- (src/quote/quote.service.ts).
use backend_emd.Prelude.{
  ℕ, nat_eq, option_eq, ◌≡◌, refl, subst, inl, inr, string_eq, ◌==◌, Option, none, some, String,
  List, [], ◌∷◌, Bool-cases, Option-cases,
}
use backend_emd.Prelude.Text.{text_length-take_units}
use backend_emd.Prelude.Table.{Table, row}
use backend_emd.Prelude.Selection.{AllRows, AllRows-row}
use backend_emd.Http.{Result-cases, ok}
use backend_emd.Http.Checks.{ok_inj}
use backend_emd.Quotes.{max_quote_client_name_length}
use backend_emd.Quotes.Input.{
  Value, undefined, null, text, number, assert_client_id, assert_client_name_shape,
}
use backend_emd.Quotes.Input.Accepted.{assert_client_name_shape_le}
use backend_emd.Quotes.Prepare.{
  resolve_client_names, shown_name, join_parts, trimmed_part, Quote, Desk, name_of_client,
  updated_client, updated_name, name_if_empty, name_of_new_client, known_client, given_name,
}
use backend_emd.Quotes.Prepare.Fields.{IsName, empty-IsName, chosen-IsName, err_ok}

-- The name of the client that the request gives, if it gives one.
abbrev pub IsNameIf : Option String → Type 0
IsNameIf none = Unit {0}
IsNameIf (some t) = IsName t

-- The names that are shown are cut to the bound.
pub resolve_client_names-IsName :
    (ids : List (Option ℕ)) (s : Desk) (names : Table String)
    → resolve_client_names ids s ≡ ok names
    → AllRows IsName names
unfolding resolve_client_names shown_name
resolve_client_names-IsName [] s names h = subst (AllRows IsName) (ok_inj h) tt
resolve_client_names-IsName (none ∷ ids) s names h = resolve_client_names-IsName ids s names h
resolve_client_names-IsName (some id ∷ ids) s names h = elim (Option-cases (row id s.clients)) [
  | inl missing ↦ absurd (err_ok (rw (missing, resolve_client_names) at h))
  | inr (c, there) ↦ elim (Result-cases (resolve_client_names ids s)) [
    | inr (e, bad) ↦ absurd (err_ok (rw (there, bad, resolve_client_names) at h))
    | inl (rest, good) ↦
        subst (AllRows IsName) (ok_inj (rw (there, good, resolve_client_names) at h)) (
          text_length-take_units max_quote_client_name_length
              (join_parts (trimmed_part c.first_name) (trimmed_part c.last_name)),
          resolve_client_names-IsName ids s rest good,
        )
  ]
]

pub name_of_client-IsName :
    (client : Option ℕ) (names : Table String)
    → AllRows IsName names
    → IsName (name_of_client client names)
name_of_client-IsName none names h = empty-IsName "" refl
name_of_client-IsName (some id) names h = elim (Option-cases (row id names)) [
  | inl missing ↦ rw missing (empty-IsName "" refl)
  | inr (name, there) ↦ rw there (AllRows-row IsName id name names h there)
]

row-IsNameIf : (id : ℕ) (names : Table String) → AllRows IsName names → IsNameIf (row id names)
row-IsNameIf id names h = elim (Option-cases (row id names)) [
  | inl missing ↦ rw missing tt
  | inr (name, there) ↦ rw there (AllRows-row IsName id name names h there)
]

pub known_client-IsName :
    (v : Value) (s : Desk) (r : Option ℕ × Option String) → known_client v s ≡ ok r → IsNameIf r.1
unfolding known_client
known_client-IsName v s r h = elim (Result-cases (assert_client_id v)) [
  | inr (e, bad) ↦ absurd (err_ok (rw (bad, known_client) at h))
  | inl (id, good) ↦ elim (Result-cases (resolve_client_names (some id ∷ []) s)) [
    | inr (e, missing) ↦ absurd (err_ok (rw (good, missing, known_client) at h))
    | inl (names, there) ↦
        subst (λ r. IsNameIf r.1) (ok_inj (rw (good, there, known_client) at h))
          (row-IsNameIf id names (resolve_client_names-IsName (some id ∷ []) s names there))
  ]
]

pub updated_client-IsName :
    (v : Value) (current : Quote) (s : Desk) (r : Option ℕ × Option String)
    → updated_client v current s ≡ ok r
    → IsNameIf r.1
unfolding updated_client
updated_client-IsName undefined current s r h = subst (λ r. IsNameIf r.1) (ok_inj h) tt
updated_client-IsName null current s r h = subst (λ r. IsNameIf r.1) (ok_inj h) tt
updated_client-IsName (text x) current s r h = known_client-IsName (text x) s r h
updated_client-IsName (number n) current s r h = known_client-IsName (number n) s r h
updated_client-IsName Value.other current s r h = known_client-IsName Value.other s r h

pub name_if_empty-IsName :
    (client : Option ℕ) (resolved : Option String) (s : Desk) (name : String)
    → IsNameIf resolved
    → name_if_empty client resolved s ≡ ok name
    → IsName name
unfolding name_if_empty
name_if_empty-IsName none resolved s name q h = absurd (err_ok h)
name_if_empty-IsName (some id) (some t) s name q h = subst IsName (ok_inj h) q
name_if_empty-IsName (some id) none s name q h =
    elim (Result-cases (resolve_client_names (some id ∷ []) s)) [
      | inr (e, missing) ↦ absurd (err_ok (rw (missing, name_if_empty) at h))
      | inl (names, there) ↦ subst IsName (ok_inj (rw (there, name_if_empty) at h)) (
          name_of_client-IsName (some id) names
            (resolve_client_names-IsName (some id ∷ []) s names there))
    ]

pub given_name-IsName :
    (v : Value) (client : Option ℕ) (resolved : Option String) (s : Desk) (name : String)
    → IsNameIf resolved
    → given_name v client resolved s ≡ ok name
    → IsName name
unfolding given_name
given_name-IsName v client resolved s name q h = elim (Result-cases (assert_client_name_shape v)) [
  | inr (e, bad) ↦ absurd (err_ok (rw (bad, given_name) at h))
  | inl (t, good) ↦ elim (Bool-cases (t == "")) [
    | inl nothing ↦
        name_if_empty-IsName client resolved s name q (rw (good, nothing, given_name) at h)
    | inr something ↦
        subst IsName (ok_inj (rw (good, something, given_name) at h))
          (assert_client_name_shape_le v t good)
  ]
]

pub name_of_new_client-IsName :
    (client : Option ℕ) (resolved : Option String) (current : Quote)
    → IsName current.client_name
    → IsNameIf resolved
    → IsName (name_of_new_client client resolved current)
name_of_new_client-IsName client none current p q = p
name_of_new_client-IsName client (some t) current p q =
    chosen-IsName (client == current.client) current.client_name t p q

pub updated_name-IsName :
    (v : Value) (client : Option ℕ) (resolved : Option String) (current : Quote) (s : Desk)
    (name : String)
    → IsName current.client_name
    → IsNameIf resolved
    → updated_name v client resolved current s ≡ ok name
    → IsName name
unfolding updated_name
updated_name-IsName undefined client resolved current s name p q h =
    subst IsName (ok_inj h) (name_of_new_client-IsName client resolved current p q)
updated_name-IsName null client resolved current s name p q h =
    given_name-IsName null client resolved s name q h
updated_name-IsName (text x) client resolved current s name p q h =
    given_name-IsName (text x) client resolved s name q h
updated_name-IsName (number n) client resolved current s name p q h =
    given_name-IsName (number n) client resolved s name q h
updated_name-IsName Value.other client resolved current s name p q h =
    given_name-IsName Value.other client resolved s name q h
