-- ===== src/Task/Status.antt =====
-- A task changes its status: `updateStatus` of src/order/order-area-task.service.ts. The checks
-- read the task before the transaction does, so that another request can come between:
-- `begin_status` and `commit_status` are these two parts. `now` is the clock.
pub mod Checks
pub mod Commit
pub mod Once
pub mod Ready
use backend_emd.Prelude.{
  ℕ, nat_eq, string_eq, option_eq, ◌==◌, Bool, true, false, not, ◌&&◌, ◌||◌, Option, none, some,
  List, [], ◌∷◌, String, if◌then◌else◌,
}
use backend_emd.Prelude.Table.{Table, row, put}
use backend_emd.Http.{
  Result, ok, err, not_found, Action, ◌>>=◌, ◌>>◌, pure, gets, modify, or_throw, check, then_check,
  transaction,
}
use backend_emd.Area.Access.{RequestingUser, member_of, belongs_to_area}
use backend_emd.Store.{AreaTaskStatus, pendiente, en_proceso, terminado, Task, Store}
use backend_emd.Supply.Move.{
  SupplyInventoryResult, is_terminado, lock_task_status, apply_supply_inventory_for_status,
}
use backend_emd.Task.Guards.{
  same_status, assert_valid_transition, assert_can_work_area, assert_not_in_stage,
  assert_required_fields, find_task, stage_of, is_unclaimed,
}
use backend_emd.Task.Notify.{notify_supply_result, notify_reception_of_progress}
use backend_emd.Task.Sync.{sync_order_status_from_tasks}

abbrev pub is_en_proceso : AreaTaskStatus → Bool
is_en_proceso en_proceso = true
is_en_proceso _ = false

-- What the checks read: the task, and whether who starts it takes it.
pub record Reading : Type 0 where
  pub task : Task
  pub should_claim : Bool

abbrev pub required_when_starting : AreaTaskStatus → Task → Store → Result (Unit {0})
required_when_starting status task s =
    if is_en_proceso status then assert_required_fields task s else ok tt

-- The four checks, in order.
unfoldable pub check_status : AreaTaskStatus → RequestingUser → Task → Store → Result (Unit {0})
unfolding assert_can_work_area assert_valid_transition assert_not_in_stage assert_required_fields
check_status status user task s = then_check (assert_can_work_area task.area user) (
    then_check (assert_valid_transition task.status status) (
      then_check (assert_not_in_stage (stage_of task s) status)
        (required_when_starting status task s)))

unfoldable pub read_status : AreaTaskStatus → RequestingUser → Task → Action Store Reading
unfolding check_status is_unclaimed
read_status status user task = do
  verdict ← gets (check_status status user task)
  check verdict
  unclaimed ← gets (is_unclaimed task.area task.assigned_user)
  pure (record {
    task = task;
    should_claim =
        is_en_proceso status && (belongs_to_area (member_of user) (some task.area) && unclaimed);
  })

unfoldable pub begin_status : ℕ → AreaTaskStatus → RequestingUser → Option ℕ → Action Store Reading
unfolding find_task read_status
begin_status task_id status user order = find_task task_id order >>= read_status status user

-- The same change was made while this request waited for the lock.
abbrev pub is_raced : AreaTaskStatus → AreaTaskStatus → Task → Bool
is_raced status current task = same_status current status && not (same_status task.status status)

module _ (now task_id : ℕ) (status : AreaTaskStatus) (user : ℕ) where
  -- The columns that `update` writes.
  abbrev pub with_status : Bool → Task → Task
  with_status should_claim t = record t {
    status = status;
    assigned_user = if should_claim then some user else t.assigned_user;
    started_at = if is_en_proceso status then some now else t.started_at;
    completed_at = if is_terminado status then some now else t.completed_at;
  }

  abbrev pub write_status : Bool → Store → Store
  write_status should_claim s = elim (row task_id s.tasks) [
    | none ↦ s
    | some t ↦ record s { tasks = put task_id (with_status should_claim t) s.tasks }
  ]

  unfoldable pub change_status :
      Reading → AreaTaskStatus → Action Store (Option SupplyInventoryResult)
  unfolding apply_supply_inventory_for_status
  change_status r current = do
    result ← apply_supply_inventory_for_status now task_id r.task current status user
    modify (write_status r.should_claim)
    pure (some result)

  -- The transaction after the lock has been taken.
  unfoldable pub decide_status :
      Reading → AreaTaskStatus → Action Store (Option SupplyInventoryResult)
  unfolding assert_valid_transition change_status
  decide_status r current = do
    check (assert_valid_transition current status)
    if is_raced status current r.task then pure none else change_status r current

  -- The transaction; `none` when it was raced.
  unfoldable pub commit_status : Reading → Action Store (Option SupplyInventoryResult)
  unfolding decide_status
  commit_status r = transaction do
    locked ← lock_task_status task_id
    current ← or_throw locked not_found
    decide_status r current

abbrev pub progress_if_done : AreaTaskStatus → ℕ → ℕ → Action Store (Unit {0})
progress_if_done terminado order user = notify_reception_of_progress order (some user)
progress_if_done _ order user = pure tt

-- What follows the transaction.
unfoldable pub finish_status :
    AreaTaskStatus → ℕ → Task → Option SupplyInventoryResult → Action Store (Unit {0})
unfolding notify_supply_result sync_order_status_from_tasks notify_reception_of_progress
finish_status status user task none = pure tt
finish_status status user task (some result) = do
  notify_supply_result task.order result
  sync_order_status_from_tasks task.order (some user)
  progress_if_done status task.order user

-- The transaction and what follows it.
unfoldable pub carry_status : ℕ → ℕ → AreaTaskStatus → ℕ → Reading → Action Store (Unit {0})
unfolding commit_status finish_status
carry_status now task_id status user r =
    commit_status now task_id status user r >>= finish_status status user r.task

unfoldable pub update_status :
    ℕ → ℕ → AreaTaskStatus → RequestingUser → Option ℕ → Action Store (Unit {0})
unfolding begin_status carry_status
update_status now task_id status user order =
    begin_status task_id status user order >>= carry_status now task_id status user.user_id
