-- ===== src/Task/Tests/Holders.antt =====
-- Tasks that are created and assigned; the theorems at these stores.
use backend_emd.Prelude.{
  ◌≡◌, refl, nat_eq, string_eq, option_eq, true, false, none, some, [], ◌∷◌, arith,
}
use backend_emd.Http.{ok}
use backend_emd.Notification.{create_notification_for_users, user_ids_for_area}
use backend_emd.Store.{Store}
use backend_emd.Area.Catalog.{AreaView}
use backend_emd.Task.Create.{are_production_areas, create_tasks_for_areas}
use backend_emd.Task.Create.Again.{create_tasks_for_areas_again}
use backend_emd.Task.Assign.{assign}
use backend_emd.Task.Assign.Holder.{HaveHolders, assign-HaveHolders}
use backend_emd.Task.Tests.{store, embroiderer}

store-HaveHolders : HaveHolders store
store-HaveHolders = ((λ id e u f. ground arith), ((λ id e u f. ground arith), tt))

assign-HaveHolders_example : HaveHolders (assign 7 (some 3) embroiderer none store).1
assign-HaveHolders_example = assign-HaveHolders 7 (some 3) embroiderer store none store-HaveHolders

abbrev laser : AreaView
laser = record {
  slug = "laser";
  name = "Láser";
  is_design = false;
  is_production_destination = true;
  has_inventory = true;
  active = true;
  stages = [];
  machines = [];
  fields = [];
}

abbrev laser_store : Store
laser_store = record store { areas = laser ∷ []; tasks = [] }

laser_production : are_production_areas ("laser" ∷ "laser" ∷ []) laser_store ≡ true
unfolding are_production_areas
laser_production = refl

-- The area is asked for twice and gets one task.
creates_one :
    (create_tasks_for_areas 40 ("laser" ∷ "laser" ∷ []) true laser_store).0 ≡ ok ("laser" ∷ [])
unfolding create_tasks_for_areas create_notification_for_users user_ids_for_area
creates_one = refl

create_tasks_for_areas_again_example :
    let s' = (create_tasks_for_areas 40 ("laser" ∷ "laser" ∷ []) true laser_store).1 in
    create_tasks_for_areas 40 ("laser" ∷ "laser" ∷ []) true s' ≡ (ok [], s')
create_tasks_for_areas_again_example =
    create_tasks_for_areas_again 40 ("laser" ∷ "laser" ∷ []) true true laser_store laser_production
