-- ===== src/Quotes/Prepare.antt =====
-- What a request makes of a quote: `resolveClientNames`, `prepareCreate` and the fields of `update`
-- of src/quote/quote.service.ts. Nothing is written here.
pub mod Fields
pub mod Names
pub mod Valid
use Prim.Native.String as String
use backend_emd.Prelude.{
  trim, take_units, ℕ, nat_eq, string_eq, option_eq, ◌==◌, contains, is_empty, is_some, or_else,
  ltb, length, Bool, true, false, not, ◌&&◌, ◌||◌, Option, none, some, List, [], ◌∷◌, ◌++◌, String,
  map, if◌then◌else◌,
}
use backend_emd.Prelude.Table.{Table, row, put, drop_rows, rows}
use backend_emd.Http.{Result, ok, err, bad_request, not_found, conflict}
use backend_emd.Http.Checks.{◌>>=◌, ◌>>◌, refuse_if}
use backend_emd.Supply.Sheet.{next_key}
use backend_emd.Quotes.{
  QuoteStage, por_enviar, enviada, QuoteStatus, is_accepted, max_quote_bulk_items,
  max_quote_client_name_length,
}
use backend_emd.Quotes.Input.{
  Value, undefined, null, text, number, other, assert_client_id, assert_client_name_shape,
  assert_description, parse_comment, parse_priority_date, resolve_stage_status,
}

-- `Quote`
pub record Quote : Type 0 where
  pub client : Option ℕ
  pub client_name : String
  pub description : String
  pub stage : QuoteStage
  pub status : QuoteStatus
  pub comment : Option String
  pub priority_date : Option String
  pub sent_at : Option ℕ
  pub order : Option ℕ
  pub created_by : ℕ

-- `CreateQuoteDto` and `UpdateQuoteDto`
pub record QuoteDraft : Type 0 where
  pub client_id : Value
  pub client_name : Value
  pub description : Value
  pub stage : Value
  pub status : Value
  pub comment : Value
  pub priority_date : Value

-- What `resolveClientNames` selects of a registered client.
pub record ClientRow : Type 0 where
  pub first_name : Option String
  pub last_name : Option String

-- The quotes, the registered clients, and the orders' keys.
pub record Desk : Type 0 where
  pub quotes : Table Quote
  pub clients : Table ClientRow
  pub orders : List ℕ

abbrev pub is_absent : Value → Bool
is_absent undefined = true
is_absent null = true
is_absent _ = false

abbrev pub or_undefined : Value → Value
or_undefined null = undefined
or_undefined v = v

-- A client who is given is one that exists.
abbrev pub client_of : Value → Result (Option ℕ)
client_of v =
    if is_absent v
    then ok none
    else elim (assert_client_id v) [ err e ↦ err e | ok id ↦ ok (some id) ]

unfoldable pub client_ids : List QuoteDraft → Result (List (Option ℕ))
client_ids [] = ok []
client_ids (d ∷ drafts) = elim (client_of d.client_id) [
  | err e ↦ err e
  | ok id ↦ elim (client_ids drafts) [ err e ↦ err e | ok ids ↦ ok (id ∷ ids) ]
]

-- `part?.trim()`
abbrev pub trimmed_part : Option String → String
trimmed_part none = ""
trimmed_part (some part) = trim part

-- `filter(Boolean).join(' ')` of two parts.
unfoldable pub join_parts : String → String → String
join_parts first last =
    if first == ""
    then last
    else if last == ""
    then first
    else String.◌++◌ first (String.◌++◌ " " last)

-- The name to show of a client.
unfoldable pub shown_name : ClientRow → String
unfolding join_parts trim take_units
shown_name c =
    take_units max_quote_client_name_length
      (join_parts (trimmed_part c.first_name) (trimmed_part c.last_name))

-- `resolveClientNames`: the name of every client, and each of them is there.
unfoldable pub resolve_client_names : List (Option ℕ) → Desk → Result (Table String)
unfolding shown_name
resolve_client_names [] s = ok []
resolve_client_names (none ∷ ids) s = resolve_client_names ids s
resolve_client_names (some id ∷ ids) s = elim (row id s.clients) [
  | none ↦ err not_found
  | some c ↦ elim (resolve_client_names ids s) [
    | err e ↦ err e
    | ok names ↦ ok ((id, shown_name c) ∷ names)
  ]
]

-- `clientNames.get(clientId)`
abbrev pub name_of_client : Option ℕ → Table String → String
name_of_client none names = ""
name_of_client (some id) names = or_else (row id names) ""

abbrev pub typed_name : Value → Result String
typed_name v = if is_absent v then ok "" else assert_client_name_shape v

abbrev pub default_if_undefined : Value → Result (Option String) → Result (Option String)
default_if_undefined undefined r = ok none
default_if_undefined _ r = r

-- `sentAt: stage === 'enviada' ? now : null`
abbrev pub sent_at_of : QuoteStage → ℕ → Option ℕ
sent_at_of enviada now = some now
sent_at_of por_enviar now = none

-- The client a request gives, and the name.
unfoldable pub known_client : Value → Desk → Result (Option ℕ × Option String)
unfolding assert_client_id resolve_client_names
known_client v s = elim (assert_client_id v) [
  | err e ↦ err e
  | ok id ↦ elim (resolve_client_names (some id ∷ []) s) [
    | err e ↦ err e
    | ok names ↦ ok (some id, row id names)
  ]
]

-- The client after an update, and the name of one that the request gives.
unfoldable pub updated_client : Value → Quote → Desk → Result (Option ℕ × Option String)
unfolding known_client
updated_client undefined current s = ok (current.client, none)
updated_client null current s = ok (none, none)
updated_client v current s = known_client v s

-- A name that is left empty is the client's.
unfoldable pub name_if_empty : Option ℕ → Option String → Desk → Result String
unfolding resolve_client_names
name_if_empty none resolved s = err bad_request
name_if_empty (some id) (some name) s = ok name
name_if_empty (some id) none s = elim (resolve_client_names (some id ∷ []) s) [
  | err e ↦ err e
  | ok names ↦ ok (name_of_client (some id) names)
]

abbrev pub name_of_new_client : Option ℕ → Option String → Quote → String
name_of_new_client client none current = current.client_name
name_of_new_client client (some name) current =
    if client == current.client then current.client_name else name

-- A name that the request gives.
unfoldable pub given_name : Value → Option ℕ → Option String → Desk → Result String
unfolding assert_client_name_shape name_if_empty
given_name v client resolved s = elim (assert_client_name_shape v) [
  | err e ↦ err e
  | ok name ↦ if name == "" then name_if_empty client resolved s else ok name
]

unfoldable pub updated_name : Value → Option ℕ → Option String → Quote → Desk → Result String
unfolding given_name
updated_name undefined client resolved current s = ok (name_of_new_client client resolved current)
updated_name v client resolved current s = given_name v client resolved s

abbrev pub updated_description : Value → Quote → Result String
updated_description undefined current = ok current.description
updated_description v current = assert_description v

abbrev pub updated_comment : Value → Quote → Result (Option String)
updated_comment undefined current = ok current.comment
updated_comment v current = parse_comment v

abbrev pub updated_date : Value → Quote → Result (Option String)
updated_date undefined current = ok current.priority_date
updated_date v current = parse_priority_date v

-- A quote that is sent has a date, the first one; one that is not sent has none.
abbrev pub sent_at_after : ℕ → QuoteStage → Option ℕ → Option ℕ
sent_at_after now enviada none = some now
sent_at_after now enviada (some t) = some t
sent_at_after now por_enviar sent = none

abbrev pub is_undefined : Value → Bool
is_undefined undefined = true
is_undefined _ = false

-- The stage, the status and when it was sent.
unfoldable pub updated_place :
    ℕ → Value → Value → Quote → Result (QuoteStage × QuoteStatus × Option ℕ)
unfolding resolve_stage_status
updated_place now stage status current =
    if is_undefined stage && is_undefined status
    then ok (current.stage, current.status, current.sent_at)
    else elim (resolve_stage_status stage status (some (current.stage, current.status))) [
      | err e ↦ err e
      | ok (x, y) ↦ ok (x, y, sent_at_after now x current.sent_at)
    ]

module _ (now : ℕ) where
  -- One item of `prepareCreate`.
  unfoldable pub prepare_item : ℕ → Option ℕ → QuoteDraft → Table String → Result Quote
  prepare_item user client d names = do
    typed ← typed_name d.client_name
    let name = if typed == "" then name_of_client client names else typed
    refuse_if (name == "") bad_request
    place ← resolve_stage_status (or_undefined d.stage) (or_undefined d.status) none
    description ← assert_description d.description
    comment ← default_if_undefined d.comment (parse_comment d.comment)
    date ← default_if_undefined d.priority_date (parse_priority_date d.priority_date)
    ok (record {
      client = client;
      client_name = name;
      description = description;
      stage = place.0;
      status = place.1;
      comment = comment;
      priority_date = date;
      sent_at = sent_at_of place.0 now;
      order = none;
      created_by = user;
    })

  unfoldable pub prepare_items :
      ℕ → List (Option ℕ) → List QuoteDraft → Table String → Result (List Quote)
  unfolding prepare_item
  prepare_items user (client ∷ clients) (d ∷ drafts) names = do
    q ← prepare_item user client d names
    rest ← prepare_items user clients drafts names
    ok (q ∷ rest)
  prepare_items user [] drafts names = ok []
  prepare_items user (client ∷ clients) [] names = ok []

  unfoldable pub prepare_create : ℕ → List QuoteDraft → Desk → Result (List Quote)
  unfolding client_ids resolve_client_names prepare_items
  prepare_create user drafts s = do
    ids ← client_ids drafts
    names ← resolve_client_names ids s
    prepare_items user ids drafts names

  -- The new row of `update`.
  unfoldable pub updated : QuoteDraft → Quote → Desk → Result Quote
  updated d current s = do
    client ← updated_client d.client_id current s
    name ← updated_name d.client_name client.0 client.1 current s
    description ← updated_description d.description current
    place ← updated_place now d.stage d.status current
    date ← updated_date d.priority_date current
    comment ← updated_comment d.comment current
    ok (record current {
      client = client.0;
      client_name = name;
      description = description;
      stage = place.0;
      status = place.1;
      sent_at = place.2;
      priority_date = date;
      comment = comment;
    })
