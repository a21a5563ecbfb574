-- ===== src/Task/Assign.antt =====
-- Who has a task, its machine and its data, and removing it: `assign`, `setMachine`,
-- `setFieldValues` and `remove` of src/order/order-area-task.service.ts. Deleting the photos of a
-- removed task from the storage is left out.
pub mod Holder
use backend_emd.Prelude.{
  ℕ, nat_eq, string_eq, option_eq, ◌==◌, contains, any, all, Bool, true, false, not, ◌&&◌, ◌||◌,
  Option, none, some, List, [], ◌∷◌, ◌++◌, String, if◌then◌else◌, is_some,
}
use backend_emd.Prelude.Table.{Table, row, put, drop_rows}
use backend_emd.Http.{
  Result, ok, err, bad_request, forbidden, not_found, Action, ◌>>=◌, ◌>>◌, pure, gets, modify,
  throw_if, check,
}
use backend_emd.Area.Access.{RequestingUser}
use backend_emd.Area.Config.{
  FieldValues, FieldValue, Raw, null, string, set_value, delete_value, validate_field_values,
  AreaMachineView,
}
use backend_emd.Area.Catalog.{machines_of, fields_of}
use backend_emd.Store.{Task, Line, User, Store}
use backend_emd.Task.Guards.{is_manager, assert_can_work_area, find_task, load_stage_task}
use backend_emd.Task.Stage.{change_task}
use backend_emd.Task.Sync.{sync_order_status_from_tasks}

-- The user to assign exists and works in the area.
unfoldable pub assert_member : String → Option ℕ → Store → Result (Unit {0})
assert_member area none s = ok tt
assert_member area (some id) s = elim (row id s.users) [
  | none ↦ err bad_request
  | some u ↦ if contains u.areas area then ok tt else err bad_request
]

-- What follows once the task has been found.
unfoldable pub assign_found : ℕ → Option ℕ → RequestingUser → Task → Action Store (Unit {0})
unfolding is_manager assert_can_work_area assert_member
assign_found task_id assigned user task = do
  throw_if (not (is_manager user) && not (assigned == some user.user_id)) forbidden
  check (assert_can_work_area task.area user)
  verdict ← gets (assert_member task.area assigned)
  check verdict
  modify (change_task task_id (λ t. record t { assigned_user = assigned }))

-- The task is given to somebody, or freed.
unfoldable pub assign : ℕ → Option ℕ → RequestingUser → Option ℕ → Action Store (Unit {0})
unfolding find_task assign_found
assign task_id assigned user order = find_task task_id order >>= assign_found task_id assigned user

unfoldable pub assert_machine : String → Option ℕ → Store → Result (Unit {0})
unfolding machines_of
assert_machine area none s = ok tt
assert_machine area (some machine) s =
    if any (λ m. m.id == machine) (machines_of s.areas area) then ok tt else err bad_request

unfoldable pub set_machine : ℕ → Option ℕ → RequestingUser → Option ℕ → Action Store (Unit {0})
unfolding load_stage_task assert_machine
set_machine task_id machine user order = do
  task ← load_stage_task task_id user order
  verdict ← gets (assert_machine task.area machine)
  check verdict
  modify (change_task task_id (λ t. record t { machine = machine }))

-- `{ ...current, ...clean }`
unfoldable pub merge : FieldValues → FieldValues → FieldValues
merge current [] = current
merge current ((key, v) ∷ clean) = merge (set_value key v current) clean

-- `raw === null || raw === ''`
abbrev pub erases : Raw → Bool
erases null = true
erases (string s) = s == ""
erases _ = false

unfoldable pub erase : List (String × Raw) → FieldValues → FieldValues
erase [] merged = merged
erase ((key, raw) ∷ values) merged =
    let after = if erases raw then delete_value key merged else merged in erase values after

unfoldable pub set_field_values :
    ℕ → List (String × Raw) → RequestingUser → Option ℕ → Action Store (Unit {0})
unfolding load_stage_task fields_of validate_field_values merge erase
set_field_values task_id values user order = do
  task ← load_stage_task task_id user order
  verdict ← gets (λ s. validate_field_values (fields_of s.areas task.area) values)
  clean ← check verdict
  modify (
      change_task task_id
        (λ t. record t { field_values = erase values (merge t.field_values clean) }))

-- The rows of the task go in cascade: its sheet and the lines of that.
abbrev pub delete_task : ℕ → Store → Store
delete_task task_id s = record s {
  tasks = drop_rows (λ k _. k == task_id) s.tasks;
  supplies = drop_rows (λ k _. k == task_id) s.supplies;
  lines = drop_rows (λ _ l. l.task == task_id) s.lines;
}

unfoldable pub remove : ℕ → RequestingUser → Option ℕ → Action Store (Unit {0})
unfolding is_manager find_task sync_order_status_from_tasks
remove task_id user order = do
  throw_if (not (is_manager user)) forbidden
  task ← find_task task_id order
  modify (delete_task task_id)
  sync_order_status_from_tasks task.order (some user.user_id)
