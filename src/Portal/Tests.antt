-- ===== src/Portal/Tests.antt =====
-- An order whose client has a link and answers a round.
use backend_emd.Prelude.{
  ◌≡◌, ◌≢◌, refl, arith, nat_eq, true, false, none, some, [], ◌∷◌, String, text_length, string_eq,
  false-or-true,
}
use backend_emd.Http.{err, not_found, ok}
use backend_emd.Store.{Order, DesignRevision, ClientResponse, ResponseStatus, Store}
use backend_emd.Portal.{Link, Portal, find_order_by_token}
use backend_emd.Portal.Service.{respond}
use backend_emd.Portal.Frame.{OnlyAnswers, respond-OnlyAnswers}
use backend_emd.Portal.Pending.{
  PortalRequest, responds, handle, HasOnePending, handle-HasOnePending,
}
use backend_emd.Portal.Links.{Cut, renews, cut, cut_closes, HasOwnTokens}

abbrev order : Order
order = record {
  status = 3;
  user = 2;
  attended_by = none;
  branch = none;
  assigned_user = none;
  area = some "diseno";
  production_area = none;
  requires_design = true;
  archived_at = none;
  design_started_at = none;
  design_started_by = none;
  materials_priority = none;
}

abbrev round : DesignRevision
round = record {
  order = 40;
  round = 1;
  sent_by = none;
  files = [];
  feedback_text = none;
  feedback_files = [];
  approved = false;
}

abbrev answer : ClientResponse
answer = record {
  order = 40;
  revision = 9;
  approves = false;
  status = ResponseStatus.pendiente;
  resolved_by = none;
}

abbrev store : Store
store = record {
  areas = [];
  stages = [];
  users = [];
  statuses = ("esperando autorización", 3) ∷ [];
  orders = (40, order) ∷ [];
  history = [];
  revisions = (9, round) ∷ [];
  tasks = [];
  supplies = [];
  lines = [];
  items = [];
  movements = [];
  notices = [];
  audit = [];
  responses = (1, answer) ∷ [];
}

abbrev link : Link
link = record {
  token = "abcdefghijklmnopqrstuvwx";
  created_by = some 2;
  created_at = 700;
  last_viewed_at = none;
  view_count = 0;
  ready_notified_at = none;
}

abbrev portal : Portal
portal = record { links = (40, link) ∷ []; subscriptions = []; deliveries = []; store = store }

abbrev same : String → String
same s = s

abbrev approves : PortalRequest
approves = responds "abcdefghijklmnopqrstuvwx" true none 900

-- The new answer takes the place of the one that waited.
replaces : (handle same approves portal).0 ≡ ok tt
unfolding handle text_length
replaces = refl

one_pending : HasOnePending store.responses
one_pending j k a b ja kb s wa wb = ground arith

handle-HasOnePending_example : HasOnePending (handle same approves portal).1.store.responses
handle-HasOnePending_example = handle-HasOnePending same approves portal one_pending

respond-OnlyAnswers_example :
    OnlyAnswers portal (respond same "abcdefghijklmnopqrstuvwx" true none 900 portal).1
respond-OnlyAnswers_example =
    respond-OnlyAnswers same "abcdefghijklmnopqrstuvwx" true none 900 portal

abbrev renewal : Cut
renewal = renews 2 "zyxwvutsrqponmlkjihgfedc" 800

own_tokens : HasOwnTokens portal.links
own_tokens j k a b ja kb e = ground arith

apart : "zyxwvutsrqponmlkjihgfedc" ≢ link.token
apart e = false-or-true refl ((string_eq.decides "zyxwvutsrqponmlkjihgfedc" link.token).1 e)

renewed_fine : (cut same 40 renewal portal).0 ≡ ok tt
unfolding cut
renewed_fine = refl

cut_closes_example :
    find_order_by_token same "abcdefghijklmnopqrstuvwx" 900 (cut same 40 renewal portal).1
    ≡ err not_found
cut_closes_example =
    cut_closes same 40 link renewal 900 portal (refl, tt) own_tokens refl apart renewed_fine
