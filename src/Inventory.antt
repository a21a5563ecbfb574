-- ===== src/Inventory.antt =====
-- Stock by department: `areasFor`, `assertArea`, `registerMovement`, `managerRecipients`,
-- `notifyAreaMovement` and `notifyLowStock` of src/inventory/inventory.service.ts. The note, the
-- reason and the unit cost of a movement's row are left out, and so is the answer.
pub mod Movements
pub mod Allowed
pub mod Effect
mod Tests
use backend_emd.Prelude.{
  ℕ, nat_eq, string_eq, option_eq, ◌==◌, contains, keep, Bool, true, false, not, ◌&&◌, ◌||◌, Option,
  none, some, List, [], ◌∷◌, ◌++◌, String, if◌then◌else◌, is_some, or_else,
}
use backend_emd.Prelude.Int.{ℤ, pos, ◌+ℤ◌, ◌-ℤ◌, ltb_ℤ, leb_ℤ}
use backend_emd.Prelude.Table.{Table, row, put}
use backend_emd.Http.{
  Result, ok, err, bad_request, forbidden, not_found, Action, ◌>>=◌, ◌>>◌, pure, gets, modify,
  check, or_throw, transaction, throw, then_check, guard,
}
use backend_emd.Area.Access.{
  RequestingUser, member_of, belongs_to_area, is_full_visibility_role, reception_inventory_area,
}
use backend_emd.Area.Catalog.{inventory_slugs}
use backend_emd.Store.{MovementType, entrada, salida, ajuste, Item, Movement, Store}
use backend_emd.Notification.{create_notification_for_users, user_ids_for_area}
use backend_emd.Supply.Move.{stock_level, is_in_stock}
use backend_emd.Supply.Sheet.{distinct}
use backend_emd.Task.Notify.{attempt}

-- `CreateInventoryMovementDto`
pub record MovementDraft : Type 0 where
  pub type : MovementType
  pub quantity : ℤ
  pub unit_cost : Option ℤ
  pub order : Option ℕ

-- The departments of the user: the areas with an inventory and Reception, or those of them that
-- the user works in.
unfoldable pub areas_for : RequestingUser → Store → List String
unfolding inventory_slugs is_full_visibility_role belongs_to_area
areas_for actor s =
    let every = inventory_slugs s.areas ++ reception_inventory_area ∷ [] in
    if is_full_visibility_role (some actor.roles)
    then every
    else keep (λ area. belongs_to_area (member_of actor) (some area)) every

abbrev pub is_ajuste : MovementType → Bool
is_ajuste ajuste = true
is_ajuste _ = false

abbrev pub is_entrada : MovementType → Bool
is_entrada entrada = true
is_entrada _ = false

-- The order that a movement names exists.
abbrev pub lacks_order : Option ℕ → Store → Bool
lacks_order none s = false
lacks_order (some order) s = not (is_some (row order s.orders))

-- What is refused before the transaction, in the order of the code.
unfoldable pub assert_may_register : ℕ → MovementDraft → RequestingUser → Store → Result (Unit {0})
unfolding areas_for
assert_may_register id dto actor s =
    if not (is_full_visibility_role (some actor.roles)) && is_ajuste dto.type
    then err forbidden
    else elim (row id s.items) [
      | none ↦ err not_found
      | some item ↦ then_check (guard (not (contains (areas_for actor s) item.area)) forbidden) (
          then_check (guard (not (is_ajuste dto.type) && leb_ℤ dto.quantity (pos 0)) bad_request)
            (guard (lacks_order dto.order s) bad_request))
    ]

-- The `switch (dto.type)`
unfoldable pub delta_for : MovementType → ℤ → ℤ → Result ℤ
delta_for entrada amount current = ok amount
delta_for salida amount current =
    if ltb_ℤ current amount then err bad_request else ok (pos 0 -ℤ amount)
delta_for ajuste amount current = ok (amount -ℤ current)

abbrev pub cost_after : MovementDraft → Item → Option ℤ
cost_after dto item =
    if is_entrada dto.type && is_some dto.unit_cost then dto.unit_cost else item.unit_cost

-- The balances, before and after.
pub record Balance : Type 0 where
  pub before : ℤ
  pub after : ℤ

module _ (id : ℕ) (dto : MovementDraft) (actor : ℕ) (source : String) where
  abbrev pub write_movement : Item → ℤ → Store → Store
  write_movement item delta s = record s {
    items =
        put id (record item { quantity = item.quantity +ℤ delta; unit_cost = cost_after dto item })
          s.items;
    movements =
        s.movements
        ++ record {
          item = id;
          type = dto.type;
          delta = delta;
          balance_before = item.quantity;
          balance_after = item.quantity +ℤ delta;
          area = item.area;
          source = source;
          order = dto.order;
          area_task = none;
          created_by = actor;
        }
          ∷ [];
  }

  -- The transaction: the item's row is locked, and the quantity that it has then counts.
  unfoldable pub move_stock : Action Store Balance
  unfolding delta_for
  move_stock s = elim (row id s.items) [
    | none ↦ (err not_found, s)
    | some item ↦ elim (delta_for dto.type dto.quantity item.quantity) [
      | err e ↦ (err e, s)
      | ok delta ↦ (
        ok (record { before = item.quantity; after = item.quantity +ℤ delta }),
        write_movement item delta s,
      )
    ]
  ]

-- Reception and the administrators, but for who does it.
unfoldable pub manager_recipients : ℕ → Store → List ℕ
unfolding distinct user_ids_for_area
manager_recipients actor s =
    keep (λ id. not (id == actor))
      (distinct [] (user_ids_for_area "recepcion" s ++ user_ids_for_area "admin" s))

unfoldable pub tell_managers : String → ℕ → Action Store (Unit {0})
unfolding manager_recipients
tell_managers type actor =
    attempt do ids ← gets (manager_recipients actor); create_notification_for_users ids type none

-- The stock has just run low.
abbrev pub runs_low : Option ℤ → Balance → Bool
runs_low min_stock b =
    is_in_stock (stock_level b.before min_stock)
    && not (is_in_stock (stock_level b.after min_stock))

abbrev pub tell_if : Bool → Action Store (Unit {0}) → Action Store (Unit {0})
tell_if true m = m
tell_if false m = pure tt

unfoldable pub tell_of_movement : RequestingUser → Option ℤ → Balance → Action Store (Unit {0})
unfolding tell_managers stock_level
tell_of_movement actor min_stock b = do
  tell_if (runs_low min_stock b) (tell_managers "inventory_low_stock" actor.user_id)
  tell_if (not (is_full_visibility_role (some actor.roles)))
      (tell_managers "inventory_area_movement" actor.user_id)

abbrev pub source_of : RequestingUser → Option String → String
source_of actor via =
    if is_full_visibility_role (some actor.roles) then or_else via "recepcion" else "area"

abbrev pub min_stock_of : ℕ → Store → Option ℤ
min_stock_of id s = elim (row id s.items) [ none ↦ none | some item ↦ item.min_stock ]

-- What follows the checks.
unfoldable pub register_checked :
    ℕ → MovementDraft → RequestingUser → Option String → Action Store (Unit {0})
unfolding move_stock tell_of_movement
register_checked id dto actor via s =
    (move_stock id dto actor.user_id (source_of actor via)
        >>= tell_of_movement actor (min_stock_of id s))
      s

unfoldable pub register_movement :
    ℕ → MovementDraft → RequestingUser → Option String → Action Store (Unit {0})
unfolding assert_may_register register_checked
register_movement id dto actor via = do
  verdict ← gets (assert_may_register id dto actor)
  check verdict
  register_checked id dto actor via
