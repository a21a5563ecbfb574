-- ===== src/Inventory/Effect.antt =====
-- What a movement that is carried out does to the item and to the log: `registerMovement` of
-- src/inventory/inventory.service.ts.
use backend_emd.Prelude.{
  ℕ, ◌≡◌, refl, sym, subst, string_eq, Bool, true, false, ◌&&◌, Option, none, some, is_some, [],
  ◌∷◌, ◌++◌, arith, String, if◌then◌else◌,
}
use backend_emd.Prelude.Int.{ℤ, pos, ◌+ℤ◌, ◌-ℤ◌, ltb_ℤ, int_laws}
use backend_emd.Prelude.Table.{put}
use backend_emd.Http.{ok, err, bad_request}
use backend_emd.Area.Access.{RequestingUser}
use backend_emd.Store.{MovementType, entrada, salida, ajuste, Item, Movement, Store}
use backend_emd.Notification.Frame.{Tells}
use backend_emd.Inventory.{MovementDraft, is_entrada, delta_for, cost_after, write_movement}

-- A consumption of more than there is.
abbrev pub is_excess : MovementType → ℤ → ℤ → Bool
is_excess salida amount current = ltb_ℤ current amount
is_excess entrada amount current = false
is_excess ajuste amount current = false

-- The stock after a movement: more, less, or what was counted.
abbrev pub quantity_after : MovementType → ℤ → ℤ → ℤ
quantity_after entrada amount current = current +ℤ amount
quantity_after salida amount current = current -ℤ amount
quantity_after ajuste amount current = amount

-- An entry that names its cost sets the item's.
abbrev pub paid : MovementType → Option ℤ → Option ℤ → Option ℤ
paid entrada (some cost) old = some cost
paid entrada none old = old
paid salida cost old = old
paid ajuste cost old = old

-- The movement that `dto` asks for of `item` has been made: the item has the new stock and cost, no
-- other column of it and no other item changed, and the log has one row more, which says so.
pub record Registers (id : ℕ) (dto : MovementDraft) (actor : ℕ) (item : Item) (s s' : Store)
    : Type 0 where
  pub after : Item
  pub quantity : after.quantity ≡ quantity_after dto.type dto.quantity item.quantity
  pub cost : after.unit_cost ≡ paid dto.type dto.unit_cost item.unit_cost
  pub rest : after ≡ record item { quantity = after.quantity; unit_cost = after.unit_cost }
  pub items : s'.items ≡ put id after s.items
  pub entry : Movement
  pub movements : s'.movements ≡ s.movements ++ entry ∷ []
  pub of_item : (entry.item ≡ id) × (entry.area ≡ item.area)
  pub kind : entry.type ≡ dto.type
  pub before_is : entry.balance_before ≡ item.quantity
  pub after_is : entry.balance_after ≡ after.quantity
  pub for_order : entry.order ≡ dto.order
  pub by_user : entry.created_by ≡ actor

pub delta_for-excess :
    (type : MovementType) (amount current : ℤ)
    → is_excess type amount current ≡ true
    → delta_for type amount current ≡ err bad_request
unfolding delta_for
delta_for-excess salida amount current h = rw h refl
delta_for-excess entrada amount current h = absurd (ground arith)
delta_for-excess ajuste amount current h = absurd (ground arith)

pub delta_for-covered :
    (type : MovementType) (amount current : ℤ)
    → is_excess type amount current ≡ false
    → (delta : ℤ) × (delta_for type amount current ≡ ok delta)
      × (current +ℤ delta ≡ quantity_after type amount current)
unfolding delta_for
delta_for-covered entrada amount current h = (amount, refl, refl)
delta_for-covered salida amount current h = (pos 0 -ℤ amount, rw h refl, grind int_laws)
delta_for-covered ajuste amount current h = (amount -ℤ current, refl, grind int_laws)

cost_after-paid :
    (dto : MovementDraft) (item : Item)
    → cost_after dto item ≡ paid dto.type dto.unit_cost item.unit_cost
cost_after-paid dto item = by_cases dto.type dto.unit_cost
  where
    by_cases :
        (type : MovementType) (cost : Option ℤ)
        → (if is_entrada type && is_some cost then cost else item.unit_cost)
          ≡ paid type cost item.unit_cost
    by_cases entrada none = refl
    by_cases entrada (some c) = refl
    by_cases salida cost = refl
    by_cases ajuste cost = refl

module _ (id : ℕ) (dto : MovementDraft) (actor : RequestingUser) (s : Store) where
  pub Registers-told :
      (item : Item) (m t : Store)
      → Tells m t
      → Registers id dto actor.user_id item s m
      → Registers id dto actor.user_id item s t
  Registers-told item m t same r =
      subst (Registers id dto actor.user_id item s) (sym same) (record {
        after = r.after;
        quantity = r.quantity;
        cost = r.cost;
        rest = r.rest;
        items = r.items;
        entry = r.entry;
        movements = r.movements;
        of_item = r.of_item;
        kind = r.kind;
        before_is = r.before_is;
        after_is = r.after_is;
        for_order = r.for_order;
        by_user = r.by_user;
      })

  pub write_movement-Registers :
      (source : String) (item : Item) (delta : ℤ)
      → item.quantity +ℤ delta ≡ quantity_after dto.type dto.quantity item.quantity
      → Registers id dto actor.user_id item s
          (write_movement id dto actor.user_id source item delta s)
  write_movement-Registers source item delta new = record {
    after = record item { quantity = item.quantity +ℤ delta; unit_cost = cost_after dto item };
    quantity = new;
    cost = cost_after-paid dto item;
    rest = refl;
    items = refl;
    entry = _;
    movements = refl;
    of_item = (refl, refl);
    kind = refl;
    before_is = refl;
    after_is = refl;
    for_order = refl;
    by_user = refl;
  }
