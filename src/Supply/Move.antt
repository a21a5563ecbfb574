-- ===== src/Supply/Move.antt =====
-- Discounting the lines of a task from the inventory, and returning them: `reservedByItem`,
-- `moveSupplyLinesTx`, `applySupplyInventoryForStatusTx` and `discountPendingSupplyTx`.
-- The caller's clock is the argument `now`.
pub mod Loop
pub mod Found
pub mod Conserve
pub mod NonNegative
pub mod Settle
pub mod Once
pub mod Restore
use backend_emd.Prelude.{
  ℕ, nat_eq, option_eq, ◌==◌, contains, ltb, leb, Bool, true, false, not, ◌&&◌, ◌||◌, Option, none,
  some, List, [], ◌∷◌, ◌++◌, String, if◌then◌else◌, is_some,
}
use backend_emd.Prelude.Int.{ℤ, pos, ◌+ℤ◌, ◌-ℤ◌, ltb_ℤ, leb_ℤ}
use backend_emd.Prelude.Table.{Table, row, put, total}
use backend_emd.Http.{
  Result, ok, err, not_found, conflict, Action, ◌>>=◌, ◌>>◌, pure, throw_if, or_throw, gets,
}
use backend_emd.Store.{
  AreaTaskStatus, pendiente, en_proceso, terminado, SupplySource, cliente, nosotros, MovementType,
  entrada, salida, Item, Movement, Supply, Line, Task, Store,
}

-- `PendingSupplyLine`, without the item's name and unit
pub record PendingLine : Type 0 where
  pub line : ℕ
  pub item : ℕ
  pub missing : ℤ

-- `SupplyLowStockCrossing`
pub record LowStock : Type 0 where
  pub item : ℕ
  pub min_stock : Option ℤ
  pub after : ℤ

pub record SupplyInventoryResult : Type 0 where
  pub pending : List PendingLine
  pub low_stock : List LowStock

abbrev pub nothing_moved : SupplyInventoryResult
nothing_moved = record { pending = []; low_stock = [] }

pub data StockStatus : Type 0 where
  in_stock low out : StockStatus

-- `stockLevel`
unfoldable pub stock_level : ℤ → Option ℤ → StockStatus
stock_level quantity min_stock =
    if leb_ℤ quantity (pos 0)
    then out
    else elim min_stock [ none ↦ in_stock | some m ↦ if leb_ℤ quantity m then low else in_stock ]

abbrev pub is_in_stock : StockStatus → Bool
is_in_stock in_stock = true
is_in_stock _ = false

abbrev pub is_ours : SupplySource → Bool
is_ours nosotros = true
is_ours cliente = false

-- The sheet of the task says that we bring the materials.
abbrev pub brings_ours : ℕ → Table Supply → Bool
brings_ours task supplies = elim (row task supplies) [ none ↦ false | some s ↦ is_ours s.source ]

-- `discountedAt: finishing ? null : { not: null }`
abbrev pub is_due : Bool → Option ℕ → Bool
is_due true discounted_at = not (is_some discounted_at)
is_due false discounted_at = is_some discounted_at

-- A line as `findMany` returns it.
pub record FoundLine : Type 0 where
  pub id : ℕ
  pub item : ℕ
  pub quantity : ℤ

-- The lines of the task that name an item and are still to be discounted (`finishing`), or were
-- discounted (not `finishing`).
unfoldable pub find_lines : ℕ → Bool → Table Line → List FoundLine
find_lines task finishing [] = []
find_lines task finishing ((id, l) ∷ lines) =
    let rest = find_lines task finishing lines in
    elim l.item [
      | none ↦ rest
      | some item ↦
          if l.task == task && is_due finishing l.discounted_at
          then record { id = id; item = item; quantity = l.quantity } ∷ rest
          else rest
    ]

-- `lines.sort`: by item, then by line.
abbrev pub comes_before : FoundLine → FoundLine → Bool
comes_before a b = ltb a.item b.item || (a.item == b.item && leb a.id b.id)

unfoldable pub insert_line : FoundLine → List FoundLine → List FoundLine
insert_line a [] = a ∷ []
insert_line a (b ∷ lines) =
    let rest = insert_line a lines in if comes_before a b then a ∷ b ∷ lines else b ∷ rest

unfoldable pub sort_lines : List FoundLine → List FoundLine
unfolding insert_line
sort_lines [] = []
sort_lines (a ∷ lines) = insert_line a (sort_lines lines)

-- `finishing ? amount.negated() : amount`
abbrev pub delta_of : Bool → ℤ → ℤ
delta_of finishing amount = if finishing then pos 0 -ℤ amount else amount

module _ (now : ℕ) (task_id : ℕ) (task : Task) (finishing : Bool) (user : ℕ) where
  abbrev pub movement_of : Item → FoundLine → Movement
  movement_of locked line = record {
    item = line.item;
    type = if finishing then salida else entrada;
    delta = delta_of finishing line.quantity;
    balance_before = locked.quantity;
    balance_after = locked.quantity +ℤ delta_of finishing line.quantity;
    area = locked.area;
    source = "orden";
    order = some task.order;
    area_task = some task_id;
    created_by = user;
  }

  -- The writes for a claimed line `l`.
  abbrev pub write_line : Item → FoundLine → Line → Store → Store
  write_line locked line l s = record s {
    lines = put line.id (record l { discounted_at = if finishing then some now else none }) s.lines;
    items =
        put line.item
          (record locked { quantity = locked.quantity +ℤ delta_of finishing line.quantity })
          s.items;
    movements = s.movements ++ movement_of locked line ∷ [];
  }

  -- The crossing of the reorder point, if this discount is one.
  abbrev pub crossing : Item → FoundLine → List LowStock
  crossing locked line =
      let after = locked.quantity +ℤ delta_of finishing line.quantity in
      if finishing
        && (is_in_stock (stock_level locked.quantity locked.min_stock)
            && not (is_in_stock (stock_level after locked.min_stock)))
      then record { item = line.item; min_stock = locked.min_stock; after = after } ∷ []
      else []

  -- The body of the loop. A line that is short of stock stays pending; a line that another
  -- transaction has claimed meanwhile (`count === 0`) is passed over.
  unfoldable pub move_line : FoundLine → SupplyInventoryResult → Action Store SupplyInventoryResult
  unfolding stock_level
  move_line line result s = elim (row line.item s.items) [
    | none ↦ (err not_found, s)
    | some locked ↦
        if finishing && ltb_ℤ locked.quantity line.quantity
        then (
          ok (record result {
            pending =
                result.pending
                ++ record {
                  line = line.id;
                  item = line.item;
                  missing = line.quantity -ℤ locked.quantity;
                }
                  ∷ [];
          }),
          s,
        )
        else elim (row line.id s.lines) [
          | none ↦ (ok result, s)
          | some l ↦
              if is_due finishing l.discounted_at
              then (
                ok (record result { low_stock = result.low_stock ++ crossing locked line }),
                write_line locked line l s,
              )
              else (ok result, s)
        ]
  ]

  unfoldable pub move_each :
      List FoundLine → SupplyInventoryResult → Action Store SupplyInventoryResult
  unfolding move_line
  move_each [] result = pure result
  move_each (line ∷ lines) result = move_line line result >>= λ r. move_each lines r

  unfoldable pub move_supply_lines : Action Store SupplyInventoryResult
  unfolding move_each find_lines sort_lines
  move_supply_lines s =
      let lines =
        if brings_ours task_id s.supplies then find_lines task_id finishing s.lines else [] in
      move_each (sort_lines lines) nothing_moved s

abbrev pub is_terminado : AreaTaskStatus → Bool
is_terminado terminado = true
is_terminado _ = false

unfoldable pub apply_supply_inventory_for_status :
    ℕ → ℕ → Task → AreaTaskStatus → AreaTaskStatus → ℕ → Action Store SupplyInventoryResult
unfolding move_supply_lines
apply_supply_inventory_for_status now task_id task previous next user =
    let finishing = is_terminado next && not (is_terminado previous) in
    let reopening = is_terminado previous && not (is_terminado next) in
    if not finishing && not reopening
    then pure nothing_moved
    else move_supply_lines now task_id task finishing user

-- `lockTaskStatusTx`: the status that the row has now.
abbrev pub lock_task_status : ℕ → Action Store (Option AreaTaskStatus)
lock_task_status task_id =
    gets λ s. elim (row task_id s.tasks) [ none ↦ none | some t ↦ some t.status ]

unfoldable pub discount_pending_supply : ℕ → ℕ → Task → ℕ → Action Store SupplyInventoryResult
unfolding move_supply_lines
discount_pending_supply now task_id task user = do
  locked ← lock_task_status task_id
  status ← or_throw locked not_found
  throw_if (not (is_terminado status)) conflict
  move_supply_lines now task_id task true user

-- What the lines of our sheets hold of an item without having discounted it.
unfoldable pub reserved_of : ℕ → Store → ℤ
reserved_of item s =
    total
      (λ _ l.
        if l.item == some item && (not (is_some l.discounted_at) && brings_ours l.task s.supplies)
        then l.quantity
        else pos 0)
      s.lines
