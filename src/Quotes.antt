-- ===== src/Quotes.antt =====
-- The quotes of Reception: src/quote/quote.constants.ts and src/quote/quote.service.ts, whose search
-- and answers are left out. Quotes/Input is what a request says, Quotes/Prepare what
-- it makes of a quote, and Quotes/Service the operations.
pub mod Dates
pub mod Input
pub mod Prepare
pub mod Service
mod Tests
use backend_emd.Prelude.{
  ℕ, string_eq, ◌==◌, contains, Bool, true, false, Option, none, some, List, [], ◌∷◌, String,
  if◌then◌else◌,
}

-- QUOTE_STAGES
pub data QuoteStage : Type 0 where
  por_enviar enviada : QuoteStage

-- The states of QUOTE_STATUSES_BY_STAGE.
pub data QuoteStatus : Type 0 where
  lista pendiente_medidas info esperando_montaje : QuoteStatus
  esperando_respuesta aceptada no_aceptada comentarios : QuoteStatus

abbrev pub same_stage : QuoteStage → QuoteStage → Bool
same_stage por_enviar por_enviar = true
same_stage enviada enviada = true
same_stage _ _ = false

-- `isQuoteStage`, with the stage that the text names.
abbrev pub quote_stage_of : String → Option QuoteStage
quote_stage_of s =
    if s == "por_enviar" then some por_enviar else if s == "enviada" then some enviada else none

-- `isQuoteStatus`
abbrev pub quote_status_of : String → Option QuoteStatus
quote_status_of s =
    if s == "lista"
    then some lista
    else if s == "pendiente_medidas"
    then some pendiente_medidas
    else if s == "info"
    then some info
    else if s == "esperando_montaje"
    then some esperando_montaje
    else if s == "esperando_respuesta"
    then some esperando_respuesta
    else if s == "aceptada"
    then some aceptada
    else if s == "no_aceptada"
    then some no_aceptada
    else if s == "comentarios"
    then some comentarios
    else none

unfoldable pub stage_of_status : QuoteStatus → QuoteStage
stage_of_status lista = por_enviar
stage_of_status pendiente_medidas = por_enviar
stage_of_status info = por_enviar
stage_of_status esperando_montaje = por_enviar
stage_of_status _ = enviada

-- DEFAULT_QUOTE_STATUS
unfoldable pub default_quote_status : QuoteStage → QuoteStatus
default_quote_status por_enviar = lista
default_quote_status enviada = esperando_respuesta

-- QUOTE_ACCEPTED_STATUS
abbrev pub is_accepted : QuoteStatus → Bool
is_accepted aceptada = true
is_accepted _ = false

abbrev pub max_quote_client_name_length : ℕ
max_quote_client_name_length = 120

abbrev pub max_quote_description_length : ℕ
max_quote_description_length = 1000

abbrev pub max_quote_comment_length : ℕ
max_quote_comment_length = 1000

abbrev pub max_quote_bulk_items : ℕ
max_quote_bulk_items = 100
