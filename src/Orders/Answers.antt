-- ===== src/Orders/Answers.antt =====
-- What the client said of a round of design: `addDesignFeedback` and `approveDesignRevision` of
-- src/order/order.service.ts. A handler has three parts: its guards, which read; its transaction;
-- and its messages. The live events are left out.
pub mod Reads
pub mod Idle
pub mod Once
pub mod Live
use backend_emd.Prelude.{
  is_empty, ℕ, nat_eq, string_eq, option_eq, ◌==◌, any, contains, keep, map, Bool, true, false, not,
  ◌&&◌, ◌||◌, Option, none, some, List, [], ◌∷◌, ◌++◌, String, if◌then◌else◌, is_some, or_else,
}
use backend_emd.Prelude.Table.{Table, row, put, update_row}
use backend_emd.Http.{
  Result, ok, err, bad_request, not_found, Action, ◌>>=◌, ◌>>◌, pure, gets, modify, throw_if,
  or_throw, check, transaction,
}
use backend_emd.Area.Access.{RequestingUser, design_area}
use backend_emd.Area.Catalog.{assert_area, assert_areas, production}
use backend_emd.Store.{Task, Order, DesignRevision, Store}
use backend_emd.Notification.{create_notification, create_notification_for_users, user_ids_for_area}
use backend_emd.Supply.Sheet.{SupplyDraft, validate_supplies, save_supplies}
use backend_emd.Task.Create.{create_tasks_for_areas}
use backend_emd.Task.Sync.{id_for, tasks_of, status_name_autorizado}
use backend_emd.Orders.Take.{audit_entry, write_order}
use backend_emd.Orders.Rounds.{
  resolve_revision_files, revision_to_answer, apply_responses, status_name_cambios_solicitados,
}

-- `AddDesignFeedbackDto`
pub record Feedback : Type 0 where
  pub text : String
  pub files : List String
  pub file : Option String

-- `ApproveDesignRevisionDto`
pub record Approval : Type 0 where
  pub production_area : Option String
  pub production_areas : List String
  pub supplies : List SupplyDraft

-- The order goes back to Design, to who drew the round.
abbrev pub back_to_design : ℕ → Option ℕ → Order → Order
back_to_design status designer o = record o {
  area = some design_area;
  status = status;
  archived_at = none;
  assigned_user = elim designer [ none ↦ o.assigned_user | some id ↦ some id ];
}

-- The round, the order and a row of its audit.
abbrev pub write_answer : ℕ → ℕ → ℕ → DesignRevision → (Order → Order) → String → Store → Store
write_answer order id user r change action s = record s {
  revisions = put id r s.revisions;
  orders = update_row order change s.orders;
  audit = s.audit ++ audit_entry order action user ∷ [];
}

abbrev pub settle_responses : ℕ → ℕ → Store → Store
settle_responses order user s = record s { responses = apply_responses order user s.responses }

-- The transaction of `addDesignFeedback`.
unfoldable pub write_feedback :
    ℕ → ℕ → ℕ → Feedback → List String → ℕ → DesignRevision → Store → Store
write_feedback order id user dto files status r s = settle_responses order user (
    write_answer order id user
      (record r { feedback_text = some dto.text; feedback_files = r.feedback_files ++ files })
      (back_to_design status r.sent_by) "design_feedback_added" s)

-- To who drew the round, or else to all of Design.
unfoldable pub tell_design : ℕ → DesignRevision → Action Store (Unit {0})
tell_design order r = elim r.sent_by [
  | some id ↦ create_notification id "design_feedback_added" (some order)
  | none ↦ do
    ids ← gets (user_ids_for_area design_area)
    create_notification_for_users ids "design_feedback_added" (some order)
]

-- `feedbackFiles` are optional.
unfoldable pub feedback_files_of :
    (List String → Result (Unit {0})) → Feedback → Result (List String)
unfolding resolve_revision_files
feedback_files_of assert_files_valid dto = elim (resolve_revision_files dto.files dto.file) [
  | err e ↦ err e
  | ok files ↦
      if is_empty files
      then ok files
      else elim (assert_files_valid files) [ err e ↦ err e | ok _ ↦ ok files ]
]

-- What is present and not empty (`filter(Boolean)`).
abbrev pub one_area : Option String → List String
one_area none = []
one_area (some area) = if area == "" then [] else area ∷ []

-- Whom the order goes to: the areas of the request, or those that have a task, or the one area.
unfoldable pub resolved_areas : Approval → Table Task → Order → List String
resolved_areas dto planned o =
    if not (is_empty dto.production_areas)
    then dto.production_areas
    else if not (is_empty planned)
    then map (λ r. (r.1).area) planned
    else one_area (elim dto.production_area [ none ↦ o.production_area | some area ↦ some area ])

abbrev pub main_area : Approval → List String → Option String
main_area dto areas = elim dto.production_area [
  | some area ↦ some area
  | none ↦ elim areas [ [] ↦ none | area ∷ _ ↦ some area ]
]

-- Every area has a sheet, and every sheet an area.
unfoldable pub covers : List SupplyDraft → List String → Result (Unit {0})
covers supplies areas =
    if any (λ area. not (contains (map (λ (x : SupplyDraft). x.area) supplies) area)) areas
    then err bad_request
    else if any (λ (x : SupplyDraft). not (contains areas x.area)) supplies
    then err bad_request
    else ok tt

-- The order goes to production, and its designer is done.
abbrev pub to_production : ℕ → Option String → ℕ → Order → Order
to_production status area now o = record o {
  area = area;
  production_area = area;
  status = status;
  assigned_user = none;
  archived_at = some now;
}

-- What `approveDesignRevision` finds out before its transaction, but for the status.
pub record Plan : Type 0 where
  pub revision : DesignRevision
  pub areas : List String
  pub area : Option String

-- The first writes of the transaction of `approveDesignRevision`.
unfoldable pub write_approval : ℕ → ℕ → ℕ → ℕ → Plan → ℕ → Store → Store
write_approval order id user now p status =
    write_answer order id user (record p.revision { approved = true })
      (to_production status p.area now) "design_approved"

-- All of it or nothing: the order goes to production only with its tasks and its sheet.
unfoldable pub approve_in : ℕ → ℕ → ℕ → ℕ → Approval → Plan → ℕ → Action Store (List ℕ)
unfolding write_approval create_tasks_for_areas save_supplies
approve_in order id user now dto p status = do
  modify (write_approval order id user now p status)
  created ← create_tasks_for_areas order p.areas false
  warnings ← save_supplies order user dto.supplies
  modify (settle_responses order user)
  pure warnings

-- Each area hears of its own.
unfoldable pub tell_areas : ℕ → List String → Action Store (Unit {0})
tell_areas order [] = pure tt
tell_areas order (area ∷ areas) = do
  ids ← gets (user_ids_for_area area)
  create_notification_for_users ids "design_approved" (some order)
  tell_areas order areas

unfoldable pub tell_designer : ℕ → ℕ → DesignRevision → Action Store (Unit {0})
tell_designer order user r = elim r.sent_by [
  | none ↦ pure tt
  | some id ↦ if id == user then pure tt else create_notification id "design_approved" (some order)
]

-- What was found out, and the id of a status.
abbrev pub with_status : {A : Type 0} → String → Action Store A → Action Store (A × ℕ)
with_status name m = do found ← m; status ← id_for name; pure (found, status)

abbrev pub commit_feedback :
    ℕ → ℕ → ℕ → Feedback → (DesignRevision × List String) × ℕ → Action Store (Unit {0})
commit_feedback order id user dto ((r, files), status) =
    modify (write_feedback order id user dto files status r) >> tell_design order r

module _ (lower : String → String) (assert_files_valid : List String → Result (Unit {0})) where
  -- The guards of `addDesignFeedback`: the round and the files.
  unfoldable pub feedback_guards :
      ℕ → ℕ → Feedback → RequestingUser → Action Store (DesignRevision × List String)
  unfolding revision_to_answer feedback_files_of
  feedback_guards order id dto user = do
    r ← revision_to_answer lower order id user
    files ← check (feedback_files_of assert_files_valid dto)
    pure (r, files)

  unfoldable pub add_design_feedback : ℕ → ℕ → Feedback → RequestingUser → Action Store (Unit {0})
  unfolding feedback_guards id_for write_feedback tell_design
  add_design_feedback order id dto user =
      with_status status_name_cambios_solicitados (feedback_guards order id dto user)
      >>= commit_feedback order id user.user_id dto

-- The guards of `approveDesignRevision` after those on the round.
unfoldable pub approval_plan : ℕ → Approval → DesignRevision → Action Store Plan
unfolding resolved_areas validate_supplies covers assert_area assert_areas tasks_of
approval_plan order dto r = do
  one ← gets (λ s. assert_area s.areas dto.production_area production)
  check one
  several ← gets (λ s. assert_areas s.areas dto.production_areas production)
  check several
  found ← gets (λ s. row order s.orders)
  o ← or_throw found not_found
  planned ← gets (tasks_of order)
  let areas = resolved_areas dto planned o
  throw_if (is_empty areas) bad_request
  check (validate_supplies dto.supplies)
  check (covers dto.supplies areas)
  pure (record { revision = r; areas = areas; area = main_area dto areas })

abbrev pub commit_approval : ℕ → ℕ → ℕ → Approval → ℕ → Plan × ℕ → Action Store (List ℕ)
commit_approval order id user dto now (p, status) = do
  warnings ← transaction (approve_in order id user now dto p status)
  tell_areas order p.areas
  tell_designer order user p.revision
  pure warnings

module _ (lower : String → String) where
  unfoldable pub approval_guards : ℕ → ℕ → Approval → RequestingUser → Action Store Plan
  unfolding revision_to_answer approval_plan
  approval_guards order id dto user =
      revision_to_answer lower order id user >>= approval_plan order dto

  unfoldable pub approve_design_revision :
      ℕ → ℕ → Approval → RequestingUser → ℕ → Action Store (List ℕ)
  unfolding approval_guards id_for approve_in tell_areas tell_designer
  approve_design_revision order id dto user now =
      with_status status_name_autorizado (approval_guards order id dto user)
      >>= commit_approval order id user.user_id dto now
