-- ===== src/Quotes/Prepare/Fields.antt =====
-- What a request makes of each field of a quote (src/quote/quote.service.ts) is well formed.
use backend_emd.Prelude.{
  ℕ, nat_eq, option_eq, ◌≤◌, ◌≡◌, refl, subst, inl, inr, arith, string_eq, is_some, Bool, true,
  false, ◌&&◌, Option, none, some, String, Bool-cases, text_length, if◌then◌else◌,
}
use backend_emd.Prelude.Selection.{AllRows}
use backend_emd.Http.{HttpError, Result, Result-cases, ok, err}
use backend_emd.Http.Checks.{ok_inj}
use backend_emd.Quotes.{QuoteStage, por_enviar, enviada, QuoteStatus, max_quote_client_name_length}
use backend_emd.Quotes.Input.{
  Value, undefined, null, text, number, parse_comment, resolve_stage_status,
}
use backend_emd.Quotes.Input.Accepted.{
  IsDescription, IsComment, IsPlaced, assert_client_name_shape_le, assert_description-IsDescription,
  parse_comment-IsComment, resolve_stage_status-IsPlaced,
}
use backend_emd.Quotes.Prepare.{
  Quote, Desk, typed_name, default_if_undefined, sent_at_of, sent_at_after, is_undefined,
  updated_description, updated_comment, updated_place,
}

abbrev pub is_enviada : QuoteStage → Bool
is_enviada enviada = true
is_enviada por_enviar = false

abbrev pub IsName : String → Type 0
IsName t = text_length t ≤ max_quote_client_name_length

-- The status is one of the stage; a quote has a date of sending exactly while it is sent; the texts
-- are within their bounds, and a description or a comment is not empty.
pub record IsValid (q : Quote) : Type 0 where
  pub placed : IsPlaced (q.stage, q.status)
  pub sent : is_some q.sent_at ≡ is_enviada q.stage
  pub described : IsDescription q.description
  pub commented : IsComment q.comment
  pub named : IsName q.client_name

-- The quotes are well formed.
abbrev pub IsTidy : Desk → Type 0
IsTidy s = AllRows IsValid s.quotes

pub sent_at_of-sent :
    (stage : QuoteStage) (now : ℕ) → is_some (sent_at_of stage now) ≡ is_enviada stage
sent_at_of-sent enviada now = refl
sent_at_of-sent por_enviar now = refl

pub empty-IsName : (t : String) → "" ≡ t → IsName t
unfolding text_length
empty-IsName t e = subst IsName e (omega arith)

pub typed_name-IsName : (v : Value) (t : String) → typed_name v ≡ ok t → IsName t
typed_name-IsName undefined t h = empty-IsName t (cc h)
typed_name-IsName null t h = empty-IsName t (cc h)
typed_name-IsName Value.other t h = assert_client_name_shape_le Value.other t h
typed_name-IsName (text s) t h = assert_client_name_shape_le (text s) t h
typed_name-IsName (number n) t h = assert_client_name_shape_le (number n) t h

pub default_if_undefined-IsComment :
    (v : Value) (c : Option String) → default_if_undefined v (parse_comment v) ≡ ok c → IsComment c
default_if_undefined-IsComment v none h = tt
default_if_undefined-IsComment undefined (some t) h = cc
default_if_undefined-IsComment null (some t) h = parse_comment-IsComment null (some t) h
default_if_undefined-IsComment Value.other (some t) h =
    parse_comment-IsComment Value.other (some t) h
default_if_undefined-IsComment (text s) (some t) h = parse_comment-IsComment (text s) (some t) h
default_if_undefined-IsComment (number n) (some t) h = parse_comment-IsComment (number n) (some t) h

pub sent_at_after-sent :
    (now : ℕ) (stage : QuoteStage) (sent : Option ℕ)
    → is_some (sent_at_after now stage sent) ≡ is_enviada stage
sent_at_after-sent now enviada none = refl
sent_at_after-sent now enviada (some t) = refl
sent_at_after-sent now por_enviar sent = refl

pub chosen-IsName : (b : Bool) (x y : String) → IsName x → IsName y → IsName (if b then x else y)
chosen-IsName true x y p q = p
chosen-IsName false x y p q = q

pub err_ok : {A : Type 0} {e : HttpError} {a : A} → ◌≡◌ {A = Result A} (err e) (ok a) → ⊥
err_ok h = cc

-- The stage and the status fit, and so does the date of sending.
abbrev pub Fits : QuoteStage × QuoteStatus × Option ℕ → Type 0
Fits (stage, status, sent) = IsPlaced (stage, status) × (is_some sent ≡ is_enviada stage)

pub updated_place-Fits :
    (now : ℕ) (stage status : Value) (current : Quote) (p : QuoteStage × QuoteStatus × Option ℕ)
    → IsValid current
    → updated_place now stage status current ≡ ok p
    → Fits p
unfolding updated_place
updated_place-Fits now stage status current p v h =
    elim (Bool-cases (is_undefined stage && is_undefined status)) [
      | inl kept ↦ subst Fits (ok_inj (rw kept at h)) (v.placed, v.sent)
      | inr asked ↦
          elim (Result-cases
            (resolve_stage_status stage status (some (current.stage, current.status)))) [
              | inr (e, bad) ↦ absurd (err_ok (rw (asked, bad) at h))
              | inl (q, good) ↦ subst Fits (ok_inj (rw (asked, good) at h)) (
                resolve_stage_status-IsPlaced stage status (some (current.stage, current.status)) q
                    v.placed good,
                sent_at_after-sent now q.0 current.sent_at,
              )
            ]
    ]

pub updated_description-IsDescription :
    (v : Value) (current : Quote) (t : String)
    → IsValid current
    → updated_description v current ≡ ok t
    → IsDescription t
updated_description-IsDescription undefined current t v h =
    subst IsDescription (ok_inj h) v.described
updated_description-IsDescription null current t v h = assert_description-IsDescription null t h
updated_description-IsDescription Value.other current t v h =
    assert_description-IsDescription Value.other t h
updated_description-IsDescription (text x) current t v h =
    assert_description-IsDescription (text x) t h
updated_description-IsDescription (number n) current t v h =
    assert_description-IsDescription (number n) t h

pub updated_comment-IsComment :
    (v : Value) (current : Quote) (c : Option String)
    → IsValid current
    → updated_comment v current ≡ ok c
    → IsComment c
updated_comment-IsComment undefined current t v h = subst IsComment (ok_inj h) v.commented
updated_comment-IsComment null current t v h = parse_comment-IsComment null t h
updated_comment-IsComment Value.other current t v h = parse_comment-IsComment Value.other t h
updated_comment-IsComment (text x) current t v h = parse_comment-IsComment (text x) t h
updated_comment-IsComment (number n) current t v h = parse_comment-IsComment (number n) t h
