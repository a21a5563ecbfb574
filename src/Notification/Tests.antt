-- ===== src/Notification/Tests.antt =====
-- A branch's account, a muted user and an embroiderer; the theorems at this store.
use backend_emd.Prelude.{◌≡◌, ◌⊎◌, refl, Bool, true, false, none, some, List, [], ◌∷◌, String}
use backend_emd.Http.{HttpError, ok, err}
use backend_emd.Store.{User, Order, Notice, Store}
use backend_emd.Notification.{create_notification_for_users}
use backend_emd.Notification.Reach.Several.{Reaches, create_notification_for_users-Reaches}

abbrev person : List String → List String → Bool → User
person areas roles muted = record {
  areas = areas;
  roles = roles;
  is_shared_account = false;
  branch = some 9;
  notifications_muted = muted;
  notify_mentions_only = false;
  notify_production_updates = true;
  notify_critical_alerts = false;
}

abbrev order : Order
order = record {
  status = 4;
  user = 2;
  attended_by = none;
  branch = some 5;
  assigned_user = none;
  area = none;
  production_area = none;
  requires_design = false;
  archived_at = none;
  design_started_at = none;
  design_started_by = none;
  materials_priority = none;
}

abbrev store : Store
store = record {
  areas = [];
  stages = [];
  users =
      (1, person [] ("sucursal" ∷ []) false)
      ∷ (2, person ("bordado" ∷ []) [] true)
      ∷ (3, person ("bordado" ∷ []) [] false)
      ∷ [];
  statuses = [];
  orders = (40, order) ∷ [];
  history = [];
  revisions = [];
  tasks = [];
  supplies = [];
  lines = [];
  items = [];
  movements = [];
  notices = [];
  audit = [];
  responses = [];
}

abbrev told : List Notice
told = record { user = 3; type = "area_task_created"; order = some 40 } ∷ []

-- The order is of another branch, and the second user is muted.
reaches_one :
    create_notification_for_users (1 ∷ 2 ∷ 3 ∷ []) "area_task_created" (some 40) store
    ≡ (ok tt, record store { notices = told })
unfolding create_notification_for_users
reaches_one = refl

create_notification_for_users-Reaches_example :
    let m = create_notification_for_users (1 ∷ 2 ∷ 3 ∷ []) "area_task_created" (some 40) in
    ((e : HttpError) × (m store ≡ (err e, store)))
    ⊎ (((m store).0 ≡ ok tt)
        × Reaches (1 ∷ 2 ∷ 3 ∷ []) "area_task_created" (some 40) store (m store).1)
create_notification_for_users-Reaches_example =
    create_notification_for_users-Reaches (1 ∷ 2 ∷ 3 ∷ []) "area_task_created" (some 40) store
      (refl, (refl, (refl, tt)))
