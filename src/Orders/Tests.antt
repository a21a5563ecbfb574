-- ===== src/Orders/Tests.antt =====
-- An order of a branch that is with Design: a round that waits for its answer, and the theorems of
-- the design cycle at this store.
use backend_emd.Prelude.{
  ◌≡◌, ◌↔◌, ◌⊎◌, string_eq, contains, refl, Bool, true, false, none, some, List, [], ◌∷◌, String,
}
use backend_emd.Prelude.Table.{row}
use backend_emd.Http.{HttpError, Result, ok, err}
use backend_emd.Area.Access.{RequestingUser, member_of, areas_of}
use backend_emd.Store.{Order, DesignRevision, User, Store}
use backend_emd.Notification.{create_notification}
use backend_emd.Supply.Sheet.{next_key}
use backend_emd.Orders.Access.{assert_order_access, visible_orders}
use backend_emd.Orders.Access.Agree.{assert_order_access-visible_orders}
use backend_emd.Orders.Take.{take_design}
use backend_emd.Orders.Take.Design.{MayTake, IsTaken, take_design_cases}
use backend_emd.Orders.Rounds.{
  status_name_of, status_name_cambios_solicitados, create_design_revision,
}
use backend_emd.Orders.Rounds.Awaiting.{HasDistinctIds}
use backend_emd.Orders.Rounds.Opens.{Opens, create_design_revision-Opens}
use backend_emd.Orders.Access.Outcomes.{MaySee}
use backend_emd.Orders.Answers.Live.{words, IsRecorded, add_design_feedback-create_design_revision}
use backend_emd.Area.Config.{value_at}
use backend_emd.Orders.Answers.{add_design_feedback}
use backend_emd.Orders.Access.{is_refused}
use backend_emd.Orders.Answers.Once.{Answer, feedback, approval, answer, answer_again}

abbrev order : Order
order = record {
  status = 3;
  user = 2;
  attended_by = none;
  branch = some 1;
  assigned_user = some 5;
  area = some "diseno";
  production_area = none;
  requires_design = true;
  archived_at = none;
  design_started_at = none;
  design_started_by = none;
  materials_priority = none;
}

abbrev person : List String → Bool → User
person areas shared = record {
  areas = areas;
  roles = [];
  is_shared_account = shared;
  branch = some 1;
  notifications_muted = false;
  notify_mentions_only = false;
  notify_production_updates = true;
  notify_critical_alerts = true;
}

abbrev round : DesignRevision
round = record {
  order = 40;
  round = 1;
  sent_by = some 6;
  files = "montaje.png" ∷ [];
  feedback_text = none;
  feedback_files = [];
  approved = false;
}

-- The order is with the shared account of Design, whose designer sent a round.
abbrev store : Store
store = record {
  areas = [];
  stages = [];
  users =
      (2, person ("recepcion" ∷ []) false)
      ∷ (5, person ("diseno" ∷ []) true)
      ∷ (6, person ("diseno" ∷ []) false)
      ∷ [];
  statuses = ("esperando autorización", 3) ∷ ("autorizado", 4) ∷ ("cambios solicitados", 5) ∷ [];
  orders = (40, order) ∷ [];
  history = [];
  revisions = (9, round) ∷ [];
  tasks = [];
  supplies = [];
  lines = [];
  items = [];
  movements = [];
  notices = [];
  audit = [];
  responses = [];
}

abbrev receptionist : RequestingUser
receptionist = record { user_id = 2; roles = "recepcion" ∷ []; areas = some [] }

abbrev designer : RequestingUser
designer = record { user_id = 6; roles = []; areas = some ("diseno" ∷ []) }

abbrev changes : Answer
changes = feedback (record { text = "más grande"; files = []; file = none })

abbrev approves : Answer
approves = approval (record { production_area = none; production_areas = []; supplies = [] })

abbrev fine : List String → Result (Unit {0})
fine files = ok tt

abbrev same : String → String
same s = s

distinct : HasDistinctIds store.statuses
unfolding status_name_of
distinct = (refl, (refl, (refl, tt)))

answered : (answer same fine 40 9 changes receptionist 900 store).0 ≡ ok tt
unfolding answer create_notification assert_order_access
answered = refl

answer_again_example :
    let s' = (answer same fine 40 9 changes receptionist 900 store).1 in
    (e : HttpError) × (answer same fine 40 9 approves receptionist 901 s' ≡ (err e, s'))
answer_again_example =
    answer_again same fine 40 9 9 changes approves receptionist receptionist 900 901 store distinct
      refl refl answered

sent : (create_design_revision fine 40 ("otro.png" ∷ []) none designer store).0 ≡ ok tt
unfolding create_design_revision create_notification
sent = refl

create_design_revision-Opens_example :
    Opens same 40 6 10 (create_design_revision fine 40 ("otro.png" ∷ []) none designer store).1
unfolding next_key
create_design_revision-Opens_example =
    create_design_revision-Opens same fine 40 ("otro.png" ∷ []) none designer store distinct refl
      sent

abbrev sent_store : Store
sent_store = (create_design_revision fine 40 ("otro.png" ∷ []) none designer store).1

seen : MaySee 40 (some receptionist) sent_store order
unfolding is_refused create_design_revision create_notification
seen = (refl, refl)

known : value_at status_name_cambios_solicitados sent_store.statuses ≡ some 5
unfolding create_design_revision create_notification
known = refl

there : row 6 sent_store.users ≡ some (person ("diseno" ∷ []) false)
unfolding create_design_revision create_notification
there = refl

add_design_feedback-create_design_revision_example :
    let (r, s'') =
      add_design_feedback same fine 40
        (next_key store.revisions)
        (words "más grande")
        receptionist
        sent_store in
    (r ≡ ok tt) × IsRecorded 40 (next_key store.revisions) 5 designer.user_id "más grande" s''
add_design_feedback-create_design_revision_example =
    add_design_feedback-create_design_revision same 40 fine ("otro.png" ∷ []) none designer
      receptionist "más grande" 5 order (person ("diseno" ∷ []) false) store distinct refl sent seen
      known there

take_design_cases_example :
    ((o : Order) × (s' : Store) × MayTake 40 designer 900 store o
      × (take_design 40 designer 900 store ≡ (ok (row 40 s'.orders), s'))
      × IsTaken 40 designer 900 store o s')
    ⊎ ((e : HttpError) × (take_design 40 designer 900 store ≡ (err e, store))
        × ((o : Order) → ¬ (MayTake 40 designer 900 store o)))
take_design_cases_example = take_design_cases 40 designer 900 store

no_empty_area : contains (areas_of (member_of designer)) "" ≡ false
unfolding areas_of
no_empty_area = refl

assert_order_access-visible_orders_example :
    (assert_order_access 40 (some designer) store ≡ (ok order, store))
    ↔ (row 40 (visible_orders (some designer) store) ≡ some order)
assert_order_access-visible_orders_example =
    assert_order_access-visible_orders 40 (some designer) store no_empty_area (refl, tt) order
