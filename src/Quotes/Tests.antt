-- ===== src/Quotes/Tests.antt =====
-- A desk with a quote that is accepted, and two requests.
use backend_emd.Prelude.{◌≡◌, take_units, refl, arith, none, some, [], ◌∷◌, text_length}
use backend_emd.Quotes.{enviada, aceptada, stage_of_status}
use backend_emd.Quotes.Input.{text, number, undefined}
use backend_emd.Quotes.Prepare.{Quote, QuoteDraft, ClientRow, Desk, shown_name}
use backend_emd.Quotes.Prepare.Fields.{IsValid, IsTidy}
use backend_emd.Quotes.Service.{link_order}
use backend_emd.Quotes.Service.Keeps.{creates, run, run-IsTidy}
use backend_emd.Quotes.Service.Links.{HasOneQuote, link_order-HasOneQuote}

abbrev accepted_quote : Quote
accepted_quote = record {
  client = none;
  client_name = "Ana";
  description = "gorras";
  stage = enviada;
  status = aceptada;
  comment = none;
  priority_date = none;
  sent_at = some 800;
  order = none;
  created_by = 2;
}

abbrev ana : ClientRow
ana = record { first_name = some " Ana "; last_name = some "Ruiz" }

shows : shown_name ana ≡ "Ana Ruiz"
unfolding shown_name
shows = refl

-- A last name of white space is left out.
shows_first : shown_name (record ana { last_name = some " " }) ≡ "Ana"
unfolding shown_name
shows_first = refl

-- A character of two units does not fit into the one that is left.
cuts : take_units 3 "ab𝔸c" ≡ "ab"
unfolding take_units
cuts = refl

abbrev desk : Desk
desk = record { quotes = (1, accepted_quote) ∷ []; clients = (7, ana) ∷ []; orders = 40 ∷ [] }

abbrev draft : QuoteDraft
draft = record {
  client_id = number 7;
  client_name = undefined;
  description = text "playeras";
  stage = undefined;
  status = undefined;
  comment = undefined;
  priority_date = undefined;
}

accepted_quote-IsValid : IsValid accepted_quote
unfolding stage_of_status text_length
accepted_quote-IsValid = record {
  placed = refl;
  sent = refl;
  described = (refl, omega arith);
  commented = tt;
  named = omega arith;
}

run-IsTidy_example : IsTidy (run 900 (creates draft 2) desk).1
run-IsTidy_example = run-IsTidy 900 (creates draft 2) desk (accepted_quote-IsValid, tt)

desk-HasOneQuote : HasOneQuote desk.quotes
desk-HasOneQuote o j k p q ja kb po qo = ground arith

link_order-HasOneQuote_example : HasOneQuote (link_order 1 40 desk).1.quotes
link_order-HasOneQuote_example = link_order-HasOneQuote 1 40 desk (refl, tt) desk-HasOneQuote
