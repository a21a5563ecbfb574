-- ===== src/Task/Create.antt =====
-- The tasks of an order are created: `createTasksForAreas`, `assertProductionAreas` and
-- `notifyAreaOfNewTask` of src/order/order-area-task.service.ts, without the live event. The
-- inserts, which the code sends at once, follow one another.
pub mod Again
use backend_emd.Prelude.{
  ℕ, nat_eq, string_eq, ◌==◌, contains, is_empty, all, Bool, true, false, not, Option, none, some,
  List, [], ◌∷◌, ◌++◌, String, if◌then◌else◌,
}
use backend_emd.Prelude.Table.{Table}
use backend_emd.Http.{
  Result, ok, err, bad_request, Action, ◌>>=◌, ◌>>◌, pure, gets, modify, throw_if,
}
use backend_emd.Area.Catalog.{slugs, production, stages_of}
use backend_emd.Area.Stages.{AreaStageView}
use backend_emd.Store.{pendiente, Task, Store}
use backend_emd.Notification.{create_notification_for_users, user_ids_for_area}
use backend_emd.Supply.Sheet.{next_key}
use backend_emd.Task.Guards.{shared_account_id_for_area}

-- Every area is an active destination of production.
unfoldable pub are_production_areas : List String → Store → Bool
unfolding slugs
are_production_areas areas s = all (contains (slugs s.areas production)) areas

-- The areas that have a task in the order.
unfoldable pub existing_areas : ℕ → Table Task → List String
existing_areas order [] = []
existing_areas order ((id, t) ∷ tasks) =
    let rest = existing_areas order tasks in if t.order == order then t.area ∷ rest else rest

-- The areas that are not among `seen`, each once, in their order.
unfoldable pub to_create : List String → List String → List String
to_create seen [] = []
to_create seen (area ∷ areas) =
    let others = to_create seen areas in
    let fresh = area ∷ to_create (area ∷ seen) areas in if contains seen area then others else fresh

abbrev pub first_stage : List AreaStageView → Option ℕ
first_stage [] = none
first_stage (stage ∷ stages) = some stage.id

module _ (order : ℕ) where
  unfoldable pub new_task : String → Store → Task
  unfolding shared_account_id_for_area stages_of
  new_task area s = record {
    order = order;
    area = area;
    status = pendiente;
    assigned_user = shared_account_id_for_area area s;
    started_at = none;
    completed_at = none;
    stage = first_stage (stages_of s.areas area);
    machine = none;
    field_values = [];
    sample_tests = [];
  }

  unfoldable pub insert_tasks : List String → Store → Store
  unfolding new_task next_key
  insert_tasks [] s = s
  insert_tasks (area ∷ areas) s =
      insert_tasks areas (record s { tasks = s.tasks ++ (next_key s.tasks, new_task area s) ∷ [] })

  -- Only the area itself hears of its new task.
  unfoldable pub notify_area_of_new_task : String → Action Store (Unit {0})
  notify_area_of_new_task area = do
    ids ← gets (user_ids_for_area area)
    create_notification_for_users ids "area_task_created" (some order)

  unfoldable pub notify_areas : List String → Action Store (Unit {0})
  unfolding notify_area_of_new_task
  notify_areas [] = pure tt
  notify_areas (area ∷ areas) = notify_area_of_new_task area >> notify_areas areas

  abbrev pub notify_if : Bool → List String → Action Store (Unit {0})
  notify_if true areas = notify_areas areas
  notify_if false areas = pure tt

  abbrev pub create_new : List String → Bool → Action Store (List String)
  create_new areas notify = do modify (insert_tasks areas); notify_if notify areas; pure areas

  -- The areas for which a task was created.
  unfoldable pub create_tasks_for_areas : List String → Bool → Action Store (List String)
  unfolding are_production_areas existing_areas to_create insert_tasks notify_areas
  create_tasks_for_areas areas notify s =
      if are_production_areas areas s
      then create_new (to_create (existing_areas order s.tasks) areas) notify s
      else (err bad_request, s)
