-- ===== src/Task/Tests.antt =====
-- An order with two tasks, one done and one in progress; the theorems at this store.
mod Reviews
mod Holders
use backend_emd.Prelude.{
  All, ◌++◌, ◌<◌, zero, suc, ◌≡◌, ◌⊎◌, refl, nat_eq, string_eq, option_eq, true, false, none, some,
  List, [], ◌∷◌, String, arith,
}
use backend_emd.Prelude.Table.{row}
use backend_emd.Http.{HttpError, ok, err}
use backend_emd.Area.Access.{RequestingUser, belongs_to_area}
use backend_emd.Notification.{create_notification, create_notification_for_users, user_ids_for_area}
use backend_emd.Area.Stages.{AreaStageView, work, review}
use backend_emd.Area.Stages.Order.{HasDistinctIds, ReviewsFollowWork, kinds_of}
use backend_emd.Store.{
  AreaTaskStatus, pendiente, en_proceso, terminado, SampleTest, rechazada, Task, Order, User, Store,
}
use backend_emd.Supply.Move.{SupplyInventoryResult, nothing_moved}
use backend_emd.Task.Sync.{sync_order_status_from_tasks}
use backend_emd.Task.Sync.Agreement.{IsSeeded}
use backend_emd.Task.Sync.Follows.{
  Follows, sync_order_status_from_tasks-Follows, sync_order_status_from_tasks_again,
}
use backend_emd.Task.Status.{Reading, begin_status, commit_status, update_status, is_raced}
use backend_emd.Task.Status.Checks.{MayMove, reading, begin_status_cases}
use backend_emd.Task.Status.Once.{Commits, commit_status-Commits, commit_status_twice}
use backend_emd.Task.Status.Ready.{Updates, update_status-Updates}
use backend_emd.Task.Stage.{id_of, open_sample_test_round}
use backend_emd.Task.Decision.{target_of, close_round}
use backend_emd.Task.Decision.Rounds.{open_count}
use backend_emd.Notification.Others.{TellsOthers}
use backend_emd.Task.Notify.{notify_sample_test_result}
use backend_emd.Task.Notify.Own.{notify_sample_test_result-SparesActor}
use backend_emd.Area.Catalog.{AreaView}
use backend_emd.Task.Create.{are_production_areas, create_tasks_for_areas}
use backend_emd.Task.Create.Again.{create_tasks_for_areas_again}
use backend_emd.Task.Assign.{assign}
use backend_emd.Task.Assign.Holder.{HaveHolders, assign-HaveHolders}

abbrev pub task_in : String → AreaTaskStatus → Task
task_in area status = record {
  order = 40;
  area = area;
  status = status;
  assigned_user = none;
  started_at = none;
  completed_at = none;
  stage = none;
  machine = none;
  field_values = [];
  sample_tests = [];
}

abbrev order : Order
order = record {
  status = 4;
  user = 2;
  attended_by = none;
  branch = none;
  assigned_user = none;
  area = none;
  production_area = none;
  requires_design = false;
  archived_at = none;
  design_started_at = none;
  design_started_by = none;
  materials_priority = none;
}

abbrev person : List String → User
person areas = record {
  areas = areas;
  roles = [];
  is_shared_account = false;
  branch = none;
  notifications_muted = false;
  notify_mentions_only = false;
  notify_production_updates = true;
  notify_critical_alerts = true;
}

abbrev pub store : Store
store = record {
  areas = [];
  stages = [];
  users = (2, person ("recepcion" ∷ [])) ∷ (3, person ("bordado" ∷ [])) ∷ [];
  statuses = ("autorizado", 4) ∷ ("terminado", 6) ∷ ("entregado", 7) ∷ ("cancelado", 8) ∷ [];
  orders = (40, order) ∷ [];
  history = [];
  revisions = [];
  tasks = (7, task_in "bordado" en_proceso) ∷ (8, task_in "laser" terminado) ∷ [];
  supplies = [];
  lines = [];
  items = [];
  movements = [];
  notices = [];
  audit = [];
  responses = [];
}

abbrev pub embroiderer : RequestingUser
embroiderer = record { user_id = 3; roles = []; areas = some ("bordado" ∷ []) }

store-IsSeeded : IsSeeded store 6 4 7 8
store-IsSeeded = record {
  terminado = refl;
  autorizado = refl;
  entregado = refl;
  cancelado = refl;
  apart = λ e. omega arith;
}

-- The last task is done: the order becomes ready, and its creator in Reception hears of both.
finishing : (update_status 900 7 terminado embroiderer (some 40) store).0 ≡ ok tt
unfolding update_status belongs_to_area create_notification
finishing = refl

update_status-Updates_example :
    Updates 900 7 terminado embroiderer
      (some 40)
      6
      (task_in "bordado" en_proceso)
      store
      (update_status 900 7 terminado embroiderer (some 40) store).1
update_status-Updates_example =
    update_status-Updates 900 7 terminado embroiderer (some 40) 6 4 7 8 store
      (task_in "bordado" en_proceso) order store-IsSeeded refl refl refl finishing

begin_status_cases_example :
    ((t : Task) × (row 7 store.tasks ≡ some t)
      × MayMove terminado embroiderer (some 40) store t
      × (begin_status 7 terminado embroiderer (some 40) store
          ≡ (ok (reading 7 terminado embroiderer (some 40) store t), store)))
    ⊎ ((e : HttpError) × (begin_status 7 terminado embroiderer (some 40) store ≡ (err e, store))
        × ((t : Task)
            → row 7 store.tasks ≡ some t
            → ¬ (MayMove terminado embroiderer (some 40) store t)))
begin_status_cases_example = begin_status_cases 7 terminado embroiderer (some 40) store

abbrev reading_of : Task → Reading
reading_of t = record { task = t; should_claim = false }

abbrev read : Reading
read = reading_of (task_in "bordado" en_proceso)

commit_status-Commits_example :
    ((e : HttpError) × (commit_status 900 7 terminado 3 read store ≡ (err e, store)))
    ⊎ (((is_raced terminado en_proceso read.task ≡ true)
          × (commit_status 900 7 terminado 3 read store ≡ (ok none, store)))
        ⊎ ((result : SupplyInventoryResult) × ((commit_status 900 7 terminado 3 read store).0
              ≡ ok (some result))
            × Commits 900 7 terminado 3 false
                (task_in "bordado" en_proceso)
                store
                (commit_status 900 7 terminado 3 read store).1))
commit_status-Commits_example =
    commit_status-Commits 900 7 terminado 3 read store (task_in "bordado" en_proceso) refl

committed : (commit_status 900 7 terminado 3 read store).0 ≡ ok (some nothing_moved)
unfolding commit_status
committed = refl

commit_status_twice_example :
    let s' = (commit_status 900 7 terminado 3 read store).1 in
    commit_status 901 7 terminado 2 read s' ≡ (ok none, s')
commit_status_twice_example =
    commit_status_twice 900 901 7 terminado 3 2 read read store (task_in "bordado" en_proceso) refl
      committed refl

-- The same store with both tasks done.
abbrev done_store : Store
done_store = record store {
  tasks = (7, task_in "bordado" terminado) ∷ (8, task_in "laser" terminado) ∷ [];
}

done-IsSeeded : IsSeeded done_store 6 4 7 8
done-IsSeeded = record {
  terminado = refl;
  autorizado = refl;
  entregado = refl;
  cancelado = refl;
  apart = λ e. omega arith;
}

sync_order_status_from_tasks-Follows_example :
    Follows 40
      (some 3)
      6
      4
      7
      8
      order
      done_store
      (sync_order_status_from_tasks 40 (some 3) done_store).1
sync_order_status_from_tasks-Follows_example =
    sync_order_status_from_tasks-Follows 40 (some 3) 6 4 7 8 done_store order done-IsSeeded refl
      refl

sync_order_status_from_tasks_again_example :
    sync_order_status_from_tasks 40 none (sync_order_status_from_tasks 40 (some 3) done_store).1
    ≡ (ok tt, (sync_order_status_from_tasks 40 (some 3) done_store).1)
sync_order_status_from_tasks_again_example =
    sync_order_status_from_tasks_again 40 (some 3) none 6 4 7 8 done_store order done-IsSeeded refl
      refl
