-- ===== src/Supply/Tests.antt =====
-- A sheet of two lines over one item, run forwards and back; the theorems at this store.
use backend_emd.Prelude.{
  ◌↔◌, All, ℕ, ◌≡◌, refl, true, false, Option, none, some, List, [], ◌∷◌, arith,
}
use backend_emd.Prelude.Int.{pos, ◌+ℤ◌, ◌-ℤ◌}
use backend_emd.Prelude.Table.{row, HasDistinctKeys}
use backend_emd.Http.{ok, err, bad_request, internal}
use backend_emd.Store.{SupplySource, cliente, nosotros, en_proceso, Item, Line, Task, Store}
use backend_emd.Supply.Move.{SupplyInventoryResult, is_due, move_supply_lines, nothing_moved}
use backend_emd.Supply.Move.Conserve.{Conserves, stock, move_supply_lines-Conserves}
use backend_emd.Supply.Move.NonNegative.{HasStock, move_supply_lines-HasStock}
use backend_emd.Supply.Move.Once.{IsUntaken, move_supply_lines-settles, move_supply_lines_again}
use backend_emd.Supply.Sheet.{SupplyDraft, null, inventory, save_supplies, validate_supplies}
use backend_emd.Supply.Sheet.Valid.{HasDistinctAreas, IsSheet, validate_supplies_iff}
use backend_emd.Supply.Sheet.Keeps.{KeepsInventory, save_supplies-KeepsInventory}
use backend_emd.Supply.Move.Restore.{finish_then_reopen}

abbrev thread : Item
thread = record {
  name = "Hilo";
  unit = "cono";
  area = "bordado";
  quantity = pos 5000;
  min_stock = some (pos 2000);
  unit_cost = none;
}

abbrev line_of : ℕ → Option ℕ → ℕ → Line
line_of task item quantity = record {
  task = task;
  item = item;
  description = "";
  quantity = pos quantity;
  discounted_at = none;
}

abbrev task : Task
task = record {
  order = 40;
  area = "bordado";
  status = en_proceso;
  assigned_user = none;
  started_at = none;
  completed_at = none;
  stage = none;
  machine = none;
  field_values = [];
  sample_tests = [];
}

abbrev store : Store
store = record {
  areas = [];
  stages = [];
  users = [];
  statuses = [];
  orders = [];
  history = [];
  revisions = [];
  tasks = (7, task) ∷ [];
  supplies = (7, record { source = nosotros; created_by = 1 }) ∷ [];
  lines =
      (1, line_of 7 (some 3) 1000)
      ∷ (2, line_of 7 none 9000)
      ∷ (3, line_of 7 (some 3) 2500)
      ∷ (4, line_of 8 (some 3) 700)
      ∷ [];
  items = (3, thread) ∷ [];
  movements = [];
  notices = [];
  audit = [];
  responses = [];
}

abbrev after : Store
after = (move_supply_lines 100 7 task true 1 store).1

-- 5.000 - 1.000 - 2.500, which crosses the reorder point of 2.000.
finish_stock : stock 3 after ≡ pos 1500
unfolding move_supply_lines ◌+ℤ◌ ◌-ℤ◌
finish_stock = refl

abbrev crossed : SupplyInventoryResult
crossed = record {
  pending = [];
  low_stock = record { item = 3; min_stock = some (pos 2000); after = pos 1500 } ∷ [];
}

finish_result : (move_supply_lines 100 7 task true 1 store).0 ≡ ok crossed
unfolding move_supply_lines ◌+ℤ◌ ◌-ℤ◌
finish_result = refl

store-HasDistinctKeys : HasDistinctKeys store.lines
store-HasDistinctKeys = (refl, (refl, (refl, (refl, tt))))

move_supply_lines-Conserves_example : Conserves 3 store after
move_supply_lines-Conserves_example =
    move_supply_lines-Conserves 100 7 task true 1 3 store store-HasDistinctKeys

move_supply_lines-HasStock_example : HasStock after
move_supply_lines-HasStock_example =
    move_supply_lines-HasStock 100 7 task true 1 store store-HasDistinctKeys (omega arith)

move_supply_lines_again_example :
    move_supply_lines 200 7 task true 2 after ≡ (ok nothing_moved, after)
move_supply_lines_again_example =
    move_supply_lines_again 100 200 7 task true 1 2 store store-HasDistinctKeys finish_result refl

abbrev third : Line
third = record (line_of 7 (some 3) 2500) { discounted_at = some 100 }

third_line : row 3 after.lines ≡ some third
unfolding move_supply_lines ◌+ℤ◌ ◌-ℤ◌
third_line = refl

move_supply_lines-settles_example : is_due true third.discounted_at ≡ false
move_supply_lines-settles_example =
    move_supply_lines-settles 100 7 task true 1 store 3 third store-HasDistinctKeys refl
      finish_result refl third_line refl refl

store-IsUntaken : IsUntaken 7 store
store-IsUntaken id l at t i = grind arith

reopen_result : (move_supply_lines 200 7 task false 2 after).0 ≡ ok nothing_moved
unfolding move_supply_lines ◌+ℤ◌ ◌-ℤ◌
reopen_result = refl

finish_then_reopen_example :
    let back = (move_supply_lines 200 7 task false 2 after).1 in
    (back.lines ≡ store.lines) × ((i : ℕ) → stock i back ≡ stock i store)
finish_then_reopen_example =
    finish_then_reopen 100 200 7 task 1 2 store nothing_moved store-HasDistinctKeys store-IsUntaken
      reopen_result

abbrev sheet : List SupplyDraft
sheet =
    record {
      area = "bordado";
      source = nosotros;
      lines = record { item = inventory 3; description = none; quantity = pos 1500 } ∷ [];
    }
    ∷ []

-- The sheet of the task is replaced by one line, which is not discounted.
saving : (save_supplies 40 1 sheet store).0 ≡ ok []
unfolding save_supplies ◌+ℤ◌
saving = refl

save_supplies-KeepsInventory_example : KeepsInventory 3 store (save_supplies 40 1 sheet store).1
save_supplies-KeepsInventory_example = save_supplies-KeepsInventory 40 1 3 sheet store

validate_supplies_iff_example :
    (validate_supplies sheet ≡ ok tt) ↔ (HasDistinctAreas sheet × All IsSheet sheet)
validate_supplies_iff_example = validate_supplies_iff sheet

-- A line of the client that says `null` is refused, and one of ours passes the checks.
abbrev null_line : SupplySource → List SupplyDraft
null_line source =
    record {
      area = "bordado";
      source = source;
      lines = record { item = null; description = none; quantity = pos 1 } ∷ [];
    }
    ∷ []

refuses_null : validate_supplies (null_line cliente) ≡ err bad_request
unfolding validate_supplies
refuses_null = refl

passes_null : validate_supplies (null_line nosotros) ≡ ok tt
unfolding validate_supplies
passes_null = refl

fails_on_null : save_supplies 40 1 (null_line nosotros) store ≡ (err internal, store)
unfolding save_supplies
fails_on_null = refl
