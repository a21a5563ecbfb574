-- ===== src/Supply/Sheet.antt =====
-- Saving the sheet of materials: `validateSupplies` and `saveSuppliesTx` of
-- src/order/order-area-supply.ts. It runs inside the transaction of its caller. A warning is the
-- item that it is about; its text is left out.
pub mod Keeps
pub mod Keys
pub mod Valid
use backend_emd.Prelude.{
  ℕ, zero, suc, ◌+◌, nat_eq, string_eq, option_eq, int_eq, ◌==◌, contains, any, all, length, leb,
  ltb, Bool, true, false, not, ◌&&◌, ◌||◌, Option, none, some, List, [], ◌∷◌, ◌++◌, map, String,
  if◌then◌else◌, is_some, is_empty_text, or_else,
}
use backend_emd.Prelude.Int.{ℤ, pos, ltb_ℤ}
use backend_emd.Prelude.Table.{Table, row, put, drop_rows, rows}
use backend_emd.Http.{
  HttpError, Result, ok, err, bad_request, conflict, internal, Action, ◌>>=◌, ◌>>◌, pure, throw,
  throw_if, or_throw, gets, modify, check, then_check, guard,
}
use backend_emd.Store.{
  AreaTaskStatus, terminado, SupplySource, cliente, nosotros, Item, Supply, Line, Task, Store,
}
use backend_emd.Supply.Move.{is_ours, is_terminado, reserved_of}

-- `inventoryItemId` of a line: `@IsOptional` lets it be left out or be `null`.
pub data ItemRef : Type 0 where
  undefined : ItemRef
  null : ItemRef
  inventory : ℕ → ItemRef

-- `AreaSupplyLineDto`
pub record LineDraft : Type 0 where
  pub item : ItemRef
  pub description : Option String
  pub quantity : ℤ

-- `AreaSupplyDto`
pub record SupplyDraft : Type 0 where
  pub area : String
  pub source : SupplySource
  pub lines : List LineDraft

-- `!line.description`
abbrev pub lacks_text : Option String → Bool
lacks_text none = true
lacks_text (some s) = is_empty_text s

-- `line.inventoryItemId !== undefined`
abbrev pub is_given : ItemRef → Bool
is_given undefined = false
is_given null = true
is_given (inventory _) = true

-- `line.inventoryItemId ?? null`
abbrev pub item_or_null : ItemRef → Option ℕ
item_or_null undefined = none
item_or_null null = none
item_or_null (inventory id) = some id

-- What the inner loop of `validateSupplies` refuses.
unfoldable pub is_bad_line : SupplySource → LineDraft → Bool
is_bad_line source line =
    (not (is_ours source) && is_given line.item)
    || (not (is_given line.item) && lacks_text line.description)

unfoldable pub is_bad_supply : List String → SupplyDraft → Bool
unfolding is_bad_line
is_bad_supply seen supply =
    contains seen supply.area
    || ((is_ours supply.source && length supply.lines == 0)
        || any (is_bad_line supply.source) supply.lines)

unfoldable pub validate_from : List String → List SupplyDraft → Result (Unit {0})
unfolding is_bad_supply
validate_from seen [] = ok tt
validate_from seen (supply ∷ supplies) =
    let rest = validate_from (supply.area ∷ seen) supplies in
    if is_bad_supply seen supply then err bad_request else rest

unfoldable pub validate_supplies : List SupplyDraft → Result (Unit {0})
unfolding validate_from
validate_supplies supplies = validate_from [] supplies

-- The task of the order in the area; the schema lets an area stand in an order once.
unfoldable pub task_of : ℕ → String → Table Task → Option (ℕ × Task)
task_of order area [] = none
task_of order area ((id, t) ∷ tasks) =
    let rest = task_of order area tasks in
    if t.order == order && t.area == area then some (id, t) else rest

abbrev pub item_ids : List LineDraft → List ℕ
item_ids [] = []
item_ids (line ∷ lines) = elim (item_or_null line.item) [
  | none ↦ item_ids lines
  | some item ↦ item ∷ item_ids lines
]

abbrev pub all_item_ids : List SupplyDraft → List ℕ
all_item_ids [] = []
all_item_ids (supply ∷ supplies) = item_ids supply.lines ++ all_item_ids supplies

abbrev pub is_null : ItemRef → Bool
is_null null = true
is_null _ = false

-- A line whose item is `null` puts `null` among the ids that are asked for.
abbrev pub asks_null : List SupplyDraft → Bool
asks_null supplies = any (λ supply. any (λ line. is_null line.item) supply.lines) supplies

-- `[...new Set(xs)]`
unfoldable pub distinct : List ℕ → List ℕ → List ℕ
distinct seen [] = []
distinct seen (x ∷ xs) =
    let again = distinct seen xs in
    let fresh = x ∷ distinct (x ∷ seen) xs in if contains seen x then again else fresh

abbrev pub item_name : Table Item → Option ℕ → String
item_name items none = ""
item_name items (some id) = elim (row id items) [ none ↦ "" | some item ↦ item.name ]

-- The lines to create for a task: nothing of them is discounted.
unfoldable pub new_line : ℕ → Table Item → LineDraft → Line
new_line task items line = record {
  task = task;
  item = item_or_null line.item;
  description = or_else line.description (item_name items (item_or_null line.item));
  quantity = line.quantity;
  discounted_at = none;
}

abbrev pub lines_of : ℕ → Table Line → Table Line
lines_of task lines = rows (λ _ l. l.task == task) lines

abbrev same_line : Line → Line → Bool
same_line old new =
    old.item == new.item && (old.description == new.description && old.quantity == new.quantity)

-- `lines.length === … && lines.every(…)`
unfoldable pub same_lines : Table Line → List Line → Bool
same_lines [] [] = true
same_lines ((_, old) ∷ olds) (new ∷ news) = same_line old new && same_lines olds news
same_lines [] (_ ∷ _) = false
same_lines (_ ∷ _) [] = false

abbrev pub same_source : SupplySource → SupplySource → Bool
same_source cliente cliente = true
same_source nosotros nosotros = true
same_source _ _ = false

-- A key that no row has: the database gives out the next number.
unfoldable pub next_key {ℓ} : {V : Type ℓ} → Table V → ℕ
next_key [] = 1
next_key ((k, _) ∷ t) = let rest = next_key t in if ltb k rest then rest else suc k

unfoldable pub create_lines : List Line → Table Line → Table Line
unfolding next_key
create_lines [] lines = lines
create_lines (l ∷ news) lines = create_lines news (lines ++ (next_key lines, l) ∷ [])

module _ (order user : ℕ) where
  -- `unchanged`
  abbrev pub is_unchanged : ℕ → SupplyDraft → List Line → Store → Bool
  is_unchanged id supply lines s = elim (row id s.supplies) [
    | none ↦ false
    | some old ↦ same_source old.source supply.source && same_lines (lines_of id s.lines) lines
  ]

  abbrev pub has_discounted : ℕ → Store → Bool
  has_discounted id s =
      is_some (row id s.supplies) && any (λ r. is_some (r.1).discounted_at) (lines_of id s.lines)

  -- The sheet of the task is replaced, or created.
  abbrev pub write_sheet : ℕ → SupplyDraft → List Line → Store → Store
  write_sheet id supply lines s =
      let kept =
        if is_some (row id s.supplies) then drop_rows (λ _ l. l.task == id) s.lines else s.lines in
      let creator : ℕ = elim (row id s.supplies) [ none ↦ user | some old ↦ old.created_by ] in
      record s {
        supplies = put id (record { source = supply.source; created_by = creator }) s.supplies;
        lines = create_lines lines kept;
      }

  -- The body of the loop over the areas.
  unfoldable pub save_area : SupplyDraft → Action Store (Unit {0})
  unfolding task_of new_line same_lines create_lines
  save_area supply s = elim (task_of order supply.area s.tasks) [
    | none ↦ (err bad_request, s)
    | some (id, t) ↦
        let lines = map (new_line id s.items) supply.lines in
        if is_terminado t.status
        then (if is_unchanged id supply lines s then ok tt else err conflict, s)
        else if has_discounted id s
        then (err conflict, s)
        else (ok tt, write_sheet id supply lines s)
  ]

  unfoldable pub save_areas : List SupplyDraft → Action Store (Unit {0})
  unfolding save_area
  save_areas [] = pure tt
  save_areas (supply ∷ supplies) = save_area supply >> save_areas supplies

  -- The items of which more is held back than there is.
  unfoldable pub warnings : List ℕ → Store → List ℕ
  unfolding reserved_of
  warnings [] s = []
  warnings (id ∷ ids) s = elim (row id s.items) [
    | none ↦ warnings ids s
    | some item ↦
        let rest = warnings ids s in
        if ltb_ℤ item.quantity (reserved_of id s) then id ∷ rest else rest
  ]

  -- The database refuses to look for an item of key `null`, and nothing answers for that error.
  unfoldable pub save_supplies : List SupplyDraft → Action Store (List ℕ)
  unfolding validate_supplies distinct save_areas warnings
  save_supplies supplies = do
    check (validate_supplies supplies)
    throw_if (asks_null supplies) internal
    let ids = distinct [] (all_item_ids supplies)
    missing ← gets (λ s. any (λ id. not (is_some (row id s.items))) ids)
    throw_if missing bad_request
    save_areas supplies
    gets (warnings ids)
