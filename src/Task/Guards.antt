-- ===== src/Task/Guards.antt =====
-- Who may work on a task and when: `TASK_MANAGER_ROLES`, `ALLOWED_TASK_TRANSITIONS`,
-- `belongsToOrder`, `assertCanWorkArea`, `assertValidTransition`, `assertNotInStage`,
-- `assertRequiredFields`, `sharedAccountIdForArea`, `isUnclaimed` and `loadStageTask` of
-- src/order/order-area-task.service.ts.
pub mod Find
use backend_emd.Prelude.{
  is_empty, ℕ, nat_eq, string_eq, option_eq, ◌==◌, contains, any, Bool, true, false, not, ◌&&◌,
  ◌||◌, Option, none, some, List, [], ◌∷◌, String, if◌then◌else◌, is_some,
}
use backend_emd.Prelude.Table.{Table, row}
use backend_emd.Http.{
  Result, ok, err, bad_request, forbidden, not_found, Action, ◌>>=◌, ◌>>◌, pure, gets, throw_if,
  or_throw, guard, check,
}
use backend_emd.Area.Access.{
  RequestingUser, member_of, belongs_to_area, admin, recepcion, superuser,
}
use backend_emd.Area.Stages.{AreaStageView}
use backend_emd.Area.Config.{AreaFieldView, missing_required}
use backend_emd.Area.Catalog.{fields_of}
use backend_emd.Store.{AreaTaskStatus, pendiente, en_proceso, terminado, Task, User, Store}

-- TASK_MANAGER_ROLES
abbrev pub task_manager_roles : List String
task_manager_roles = recepcion ∷ admin ∷ superuser ∷ []

unfoldable pub is_manager : RequestingUser → Bool
is_manager user = any (λ r. contains task_manager_roles r) user.roles

abbrev pub same_status : AreaTaskStatus → AreaTaskStatus → Bool
same_status pendiente pendiente = true
same_status en_proceso en_proceso = true
same_status terminado terminado = true
same_status _ _ = false

-- ALLOWED_TASK_TRANSITIONS
unfoldable pub is_allowed : AreaTaskStatus → AreaTaskStatus → Bool
is_allowed pendiente en_proceso = true
is_allowed en_proceso terminado = true
is_allowed en_proceso pendiente = true
is_allowed terminado en_proceso = true
is_allowed _ _ = false

unfoldable pub assert_valid_transition : AreaTaskStatus → AreaTaskStatus → Result (Unit {0})
unfolding is_allowed
assert_valid_transition before after =
    if same_status before after
    then ok tt
    else (if is_allowed before after then ok tt else err bad_request)

-- Without an order to compare with, any will do.
unfoldable pub belongs_to_order : ℕ → Option ℕ → Bool
belongs_to_order task_order none = true
belongs_to_order task_order (some order) = task_order == order

unfoldable pub assert_can_work_area : String → RequestingUser → Result (Unit {0})
unfolding is_manager
assert_can_work_area area user =
    if is_manager user
    then ok tt
    else (if belongs_to_area (member_of user) (some area) then ok tt else err forbidden)

abbrev pub is_pendiente : AreaTaskStatus → Bool
is_pendiente pendiente = true
is_pendiente _ = false

-- The stage of the task, read with it.
abbrev pub stage_of : Task → Store → Option AreaStageView
stage_of task s = elim task.stage [ none ↦ none | some id ↦ row id s.stages ]

unfoldable pub assert_not_in_stage : Option AreaStageView → AreaTaskStatus → Result (Unit {0})
assert_not_in_stage stage status = guard (is_some stage && not (is_pendiente status)) bad_request

unfoldable pub assert_required_fields : Task → Store → Result (Unit {0})
unfolding fields_of missing_required
assert_required_fields task s =
    guard (not (is_empty (missing_required (fields_of s.areas task.area) task.field_values)))
      bad_request

-- The first shared account of the area.
unfoldable pub shared_account_in : String → Table User → Option ℕ
shared_account_in area [] = none
shared_account_in area ((id, u) ∷ users) =
    let rest = shared_account_in area users in
    if u.is_shared_account && contains u.areas area then some id else rest

unfoldable pub shared_account_id_for_area : String → Store → Option ℕ
unfolding shared_account_in
shared_account_id_for_area area s = shared_account_in area s.users

-- Nobody has taken the task: it has no one, or the account that stands for the whole area.
unfoldable pub is_unclaimed : String → Option ℕ → Store → Bool
unfolding shared_account_id_for_area
is_unclaimed area none s = true
is_unclaimed area (some assigned) s = shared_account_id_for_area area s == some assigned

-- `findUnique` of the task and the test of its order.
unfoldable pub find_task : ℕ → Option ℕ → Action Store Task
unfolding belongs_to_order
find_task task_id order s = elim (row task_id s.tasks) [
  | none ↦ (err not_found, s)
  | some t ↦ (if belongs_to_order t.order order then ok t else err not_found, s)
]

unfoldable pub load_stage_task : ℕ → RequestingUser → Option ℕ → Action Store Task
unfolding find_task assert_can_work_area
load_stage_task task_id user order = do
  task ← find_task task_id order
  check (assert_can_work_area task.area user)
  pure task
