-- ===== src/Inventory/Tests.antt =====
-- A cone of thread, an entry of Reception and a consumption of the area; the theorem at this store.
use backend_emd.Prelude.{◌⊎◌, ◌≡◌, refl, true, false, none, some, [], ◌∷◌, arith}
use backend_emd.Prelude.Int.{pos, ◌+ℤ◌, ◌-ℤ◌}
use backend_emd.Http.{HttpError, ok, err, bad_request, forbidden}
use backend_emd.Area.Access.{RequestingUser}
use backend_emd.Area.Catalog.{AreaView}
use backend_emd.Store.{salida, ajuste, Item, Store}
use backend_emd.Inventory.{MovementDraft, register_movement}
use backend_emd.Inventory.Effect.{Registers}
use backend_emd.Inventory.Allowed.{MayRegister, register_movement_cases}
use backend_emd.Inventory.Movements.{Books, register_movement-Books}

abbrev thread : Item
thread = record {
  name = "Hilo";
  unit = "cono";
  area = "bordado";
  quantity = pos 5000;
  min_stock = some (pos 2000);
  unit_cost = none;
}

abbrev embroidery : AreaView
embroidery = record {
  slug = "bordado";
  name = "Bordado";
  is_design = false;
  is_production_destination = true;
  has_inventory = true;
  active = true;
  stages = [];
  machines = [];
  fields = [];
}

abbrev store : Store
store = record {
  areas = embroidery ∷ [];
  stages = [];
  users = [];
  statuses = [];
  orders = [];
  history = [];
  revisions = [];
  tasks = [];
  supplies = [];
  lines = [];
  items = (3, thread) ∷ [];
  movements = [];
  notices = [];
  audit = [];
  responses = [];
}

abbrev embroiderer : RequestingUser
embroiderer = record { user_id = 3; roles = []; areas = some ("bordado" ∷ []) }

abbrev consumption : MovementDraft
consumption = record { type = salida; quantity = pos 4000; unit_cost = none; order = none }

abbrev excess : MovementDraft
excess = record { type = salida; quantity = pos 6000; unit_cost = none; order = none }

abbrev count : MovementDraft
count = record { type = ajuste; quantity = pos 4000; unit_cost = none; order = none }

consumes : (register_movement 3 consumption embroiderer none store).0 ≡ ok tt
unfolding register_movement ◌+ℤ◌ ◌-ℤ◌
consumes = refl

refuses_excess : register_movement 3 excess embroiderer none store ≡ (err bad_request, store)
unfolding register_movement ◌+ℤ◌ ◌-ℤ◌
refuses_excess = refl

-- A count is Reception's.
refuses_count : register_movement 3 count embroiderer none store ≡ (err forbidden, store)
unfolding register_movement
refuses_count = refl

register_movement-Books_example :
    Books store (register_movement 3 consumption embroiderer none store).1
register_movement-Books_example =
    register_movement-Books 3 consumption (omega arith) embroiderer none store

register_movement_cases_example :
    ((m : MayRegister 3 consumption embroiderer store) × ((register_movement 3 consumption
          embroiderer none store).0
        ≡ ok tt)
      × Registers 3 consumption embroiderer.user_id m.checked.item store
          (register_movement 3 consumption embroiderer none store).1)
    ⊎ (¬ (MayRegister 3 consumption embroiderer store)
        × ((e : HttpError) × (register_movement 3 consumption embroiderer none store
              ≡ (err e, store))))
register_movement_cases_example = register_movement_cases 3 consumption embroiderer store none
