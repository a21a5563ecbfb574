-- ===== src/Quotes/Input.antt =====
-- What a request may say of a quote: `assertNoNul`, `assertClientId`, `assertClientNameShape`,
-- `assertDescription`, `parseComment`, `parsePriorityDate` and `resolveStageStatus` of
-- src/quote/quote.service.ts. The service is also used without the framework's validation, so that a
-- field holds any value of the language.
pub mod Accepted
use Prim.Native.Char.{code}
use Prim.Native.String as String
use Prim.Native.String.{String}
use backend_emd.Prelude.{
  ℕ, nat_eq, string_eq, ◌==◌, ltb, leb, Bool, true, false, not, ◌||◌, Option, none, some,
  text_length, trim, if◌then◌else◌,
}
use backend_emd.Http.{Result, ok, err, bad_request}
use backend_emd.Quotes.Dates.{is_iso_date_only}
use backend_emd.Quotes.{
  QuoteStage, por_enviar, enviada, QuoteStatus, same_stage, quote_stage_of, quote_status_of,
  stage_of_status, default_quote_status, max_quote_client_name_length, max_quote_description_length,
  max_quote_comment_length,
}

-- A value of a field; `number` is a whole number that is not negative, and `other` all the rest.
pub data Value : Type 0 where
  undefined null other : Value
  text : String → Value
  number : ℕ → Value

-- `value.includes('\u0000')`
unfoldable pub has_nul : String → Bool
has_nul String.[] = false
has_nul (String.◌∷◌ c s) = code c == 0 || has_nul s

-- A text, trimmed, of at most `limit` units and without a NUL.
unfoldable pub bounded_text : ℕ → String → Result String
unfolding has_nul
bounded_text limit s =
    if has_nul s
    then err bad_request
    else if ltb limit (text_length (trim s))
    then err bad_request
    else ok (trim s)

unfoldable pub assert_client_id : Value → Result ℕ
assert_client_id (number n) = if n == 0 then err bad_request else ok n
assert_client_id _ = err bad_request

unfoldable pub assert_client_name_shape : Value → Result String
unfolding bounded_text
assert_client_name_shape (text s) = bounded_text max_quote_client_name_length s
assert_client_name_shape _ = err bad_request

unfoldable pub assert_description : Value → Result String
unfolding bounded_text
assert_description (text s) = elim (bounded_text max_quote_description_length s) [
  | err e ↦ err e
  | ok t ↦ if t == "" then err bad_request else ok t
]
assert_description _ = err bad_request

-- No text and an empty one are no comment.
unfoldable pub parse_comment : Value → Result (Option String)
unfolding bounded_text
parse_comment null = ok none
parse_comment (text s) = elim (bounded_text max_quote_comment_length s) [
  | err e ↦ err e
  | ok t ↦ ok (if t == "" then none else some t)
]
parse_comment _ = err bad_request

unfoldable pub parse_priority_date : Value → Result (Option String)
unfolding is_iso_date_only
parse_priority_date null = ok none
parse_priority_date (text s) = if is_iso_date_only s then ok (some s) else err bad_request
parse_priority_date _ = err bad_request

-- A stage or status that is given and is none is refused.
abbrev pub read_stage : Value → Result (Option QuoteStage)
read_stage undefined = ok none
read_stage (text s) = elim (quote_stage_of s) [ none ↦ err bad_request | some x ↦ ok (some x) ]
read_stage _ = err bad_request

abbrev pub read_status : Value → Result (Option QuoteStatus)
read_status undefined = ok none
read_status (text s) = elim (quote_status_of s) [ none ↦ err bad_request | some x ↦ ok (some x) ]
read_status _ = err bad_request

abbrev pub Place : Type 0
Place = QuoteStage × QuoteStatus

abbrev pub is_in_stage : QuoteStage → Option Place → Bool
is_in_stage stage none = false
is_in_stage stage (some (s, _)) = same_stage s stage

abbrev pub place_or : Option Place → Place → Place
place_or none p = p
place_or (some q) p = q

-- What is asked for, against where the quote is.
unfoldable pub place : Option QuoteStage → Option QuoteStatus → Option Place → Result Place
unfolding stage_of_status default_quote_status
place none none current = ok (place_or current (por_enviar, default_quote_status por_enviar))
place (some stage) none current = ok (
    if is_in_stage stage current
    then place_or current (stage, default_quote_status stage)
    else (stage, default_quote_status stage))
place none (some status) current = ok (stage_of_status status, status)
place (some stage) (some status) current =
    if same_stage (stage_of_status status) stage then ok (stage, status) else err bad_request

unfoldable pub resolve_stage_status : Value → Value → Option Place → Result Place
unfolding place
resolve_stage_status stage status current = elim (read_stage stage) [
  | err e ↦ err e
  | ok x ↦ elim (read_status status) [ err e ↦ err e | ok y ↦ place x y current ]
]
