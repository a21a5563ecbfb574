-- ===== src/Quotes/Input/Accepted.antt =====
-- What the checks on a quote's fields let through.
use Prim.Native.String.{String}
use backend_emd.Prelude.{
  ℕ, ◌≤◌, ◌≡◌, refl, subst, inl, inr, arith, string_eq, ◌==◌, true, false, Option, none, some,
  Bool-cases, text_length,
}
use backend_emd.Http.{HttpError, Result, Result-cases, ok, err, bad_request}
use backend_emd.Quotes.{
  QuoteStage, por_enviar, enviada, QuoteStatus, same_stage, stage_of_status, default_quote_status,
  max_quote_client_name_length, max_quote_description_length, max_quote_comment_length,
}
use backend_emd.Quotes.Input.{
  Value, undefined, null, other, text, number, bounded_text, assert_client_name_shape,
  assert_description, parse_comment, Place, place, read_stage, read_status, resolve_stage_status,
}

bounded_text_le : (limit : ℕ) (s t : String) → bounded_text limit s ≡ ok t → text_length t ≤ limit
unfolding bounded_text
bounded_text_le limit s t h = ground arith

pub assert_client_name_shape_le :
    (v : Value) (t : String)
    → assert_client_name_shape v ≡ ok t
    → text_length t ≤ max_quote_client_name_length
unfolding assert_client_name_shape
assert_client_name_shape_le (text s) t h = bounded_text_le max_quote_client_name_length s t h
assert_client_name_shape_le undefined t h = cc
assert_client_name_shape_le null t h = cc
assert_client_name_shape_le other t h = cc
assert_client_name_shape_le (number n) t h = cc

-- A description: not empty and not too long.
abbrev pub IsDescription : String → Type 0
IsDescription t = ((t == "") ≡ false) × (text_length t ≤ max_quote_description_length)

pub assert_description-IsDescription :
    (v : Value) (t : String) → assert_description v ≡ ok t → IsDescription t
unfolding assert_description
assert_description-IsDescription (text s) t h =
    ground (arith, bounded_text_le max_quote_description_length s t)
assert_description-IsDescription undefined t h = cc
assert_description-IsDescription null t h = cc
assert_description-IsDescription other t h = cc
assert_description-IsDescription (number n) t h = cc

abbrev pub IsComment : Option String → Type 0
IsComment none = Unit {0}
IsComment (some t) = ((t == "") ≡ false) × (text_length t ≤ max_quote_comment_length)

pub parse_comment-IsComment : (v : Value) (c : Option String) → parse_comment v ≡ ok c → IsComment c
unfolding parse_comment
parse_comment-IsComment v none h = tt
parse_comment-IsComment (text s) (some t) h =
    ground (arith, bounded_text_le max_quote_comment_length s t)
parse_comment-IsComment undefined (some t) h = cc
parse_comment-IsComment null (some t) h = cc
parse_comment-IsComment other (some t) h = cc
parse_comment-IsComment (number n) (some t) h = cc

-- The status is one of the stage.
abbrev pub IsPlaced : Place → Type 0
IsPlaced (stage, status) = stage_of_status status ≡ stage

abbrev pub IsPlacedIf : Option Place → Type 0
IsPlacedIf none = Unit {0}
IsPlacedIf (some p) = IsPlaced p

default_of : (stage : QuoteStage) → stage_of_status (default_quote_status stage) ≡ stage
unfolding stage_of_status default_quote_status
default_of por_enviar = refl
default_of enviada = refl

same_stage_eq : (a b : QuoteStage) → same_stage a b ≡ true → a ≡ b
same_stage_eq por_enviar por_enviar h = refl
same_stage_eq por_enviar enviada h = cc
same_stage_eq enviada por_enviar h = cc
same_stage_eq enviada enviada h = refl

ok_inj : {A : Type 0} {a b : A} → ok a ≡ ok b → a ≡ b
ok_inj h = cc

place-IsPlaced :
    (x : Option QuoteStage) (y : Option QuoteStatus) (current : Option Place) (p : Place)
    → IsPlacedIf current
    → place x y current ≡ ok p
    → IsPlaced p
unfolding place
place-IsPlaced none none none p c h = subst IsPlaced (ok_inj h) (default_of por_enviar)
place-IsPlaced none none (some q) p c h = subst IsPlaced (ok_inj h) c
place-IsPlaced (some stage) none none p c h = subst IsPlaced (ok_inj h) (default_of stage)
place-IsPlaced (some stage) none (some (s, y)) p c h = elim (Bool-cases (same_stage s stage)) [
  | inl there ↦ subst IsPlaced (ok_inj (rw there at h)) c
  | inr moved ↦ subst IsPlaced (ok_inj (rw moved at h)) (default_of stage)
]
place-IsPlaced none (some status) current p c h = subst IsPlaced (ok_inj h) refl
place-IsPlaced (some stage) (some status) current p c h =
    elim (Bool-cases (same_stage (stage_of_status status) stage)) [
      | inl fits ↦
          subst IsPlaced (ok_inj (rw fits at h)) (same_stage_eq (stage_of_status status) stage fits)
      | inr differs ↦ absurd (impossible (rw differs at h))
    ]
  where
    impossible : ◌≡◌ {A = Result Place} (err bad_request) (ok p) → ⊥
    impossible e = cc

pub resolve_stage_status-IsPlaced :
    (stage status : Value) (current : Option Place) (p : Place)
    → IsPlacedIf current
    → resolve_stage_status stage status current ≡ ok p
    → IsPlaced p
unfolding resolve_stage_status
resolve_stage_status-IsPlaced stage status current p c h = elim (Result-cases (read_stage stage)) [
  | inr (e, bad) ↦ absurd (impossible (rw (bad, resolve_stage_status) at h))
  | inl (x, good) ↦ elim (Result-cases (read_status status)) [
    | inr (e, bad) ↦ absurd (impossible (rw (good, bad, resolve_stage_status) at h))
    | inl (y, fine) ↦ place-IsPlaced x y current p c (rw (good, fine, resolve_stage_status) at h)
  ]
]
  where
    impossible : {e : HttpError} → ◌≡◌ {A = Result Place} (err e) (ok p) → ⊥
    impossible e = cc
