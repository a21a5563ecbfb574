-- ===== src/Supply/Sheet/Keeps.antt =====
-- Saving a sheet leaves what has been discounted alone.
use backend_emd.Prelude.{
  ℕ, ◌≡◌, inl, inr, refl, ◌∙◌, nat_eq, option_eq, ◌==◌, any, false, not, List, [], ◌∷◌, ◌++◌, map,
  arith, Bool-cases, Option-cases, is_some,
}
use backend_emd.Prelude.Int.{◌+ℤ◌, int_laws}
use backend_emd.Prelude.Table.{Table, row, total, drop_rows}
use backend_emd.Http.{◌>>=◌, >>=-eq-of-ok, >>=-eq-of-err, Result-cases}
use backend_emd.Store.{Item, Line, Store}
use backend_emd.Supply.Move.{is_terminado}
use backend_emd.Supply.Move.Conserve.{taken, taken_by}
use backend_emd.Supply.Sheet.{
  SupplyDraft, LineDraft, lines_of, has_discounted, create_lines, new_line, next_key, task_of,
  write_sheet, save_area, save_areas, save_supplies, validate_supplies, distinct, all_item_ids,
  asks_null,
}

module _ (i : ℕ) where
  total-append :
      (xs ys : Table Line)
      → total (taken_by i) (xs ++ ys) ≡ total (taken_by i) xs +ℤ total (taken_by i) ys
  total-append [] ys = omega int_laws
  total-append ((j, l) ∷ xs) ys = grind (int_laws, total-append xs ys)

  -- New lines are not discounted.
  create_lines-taken :
      (task : ℕ) (items : Table Item) (drafts : List LineDraft) (lines : Table Line)
      → total (taken_by i) (create_lines (map (new_line task items) drafts) lines)
        ≡ total (taken_by i) lines
  unfolding create_lines new_line
  create_lines-taken task items [] lines = refl
  create_lines-taken task items (d ∷ drafts) lines =
      create_lines-taken task items drafts (lines ++ (next_key lines, new_line task items d) ∷ [])
      ∙ grind (int_laws, total-append lines ((next_key lines, new_line task items d) ∷ []))

  drop_rows-taken :
      (task : ℕ) (lines : Table Line)
      → any (λ r. is_some (r.1).discounted_at) (lines_of task lines) ≡ false
      → total (taken_by i) (drop_rows (λ _ l. l.task == task) lines) ≡ total (taken_by i) lines
  drop_rows-taken task [] h = refl
  drop_rows-taken task ((j, l) ∷ lines) h = grind (int_laws, drop_rows-taken task lines)

-- The discounted lines hold as much of the item as before, and the stock, the log and the tasks
-- are as before.
pub record KeepsInventory (i : ℕ) (s s' : Store) : Type 0 where
  pub held : taken i s' ≡ taken i s
  pub items : s'.items ≡ s.items
  pub movements : s'.movements ≡ s.movements
  pub tasks : s'.tasks ≡ s.tasks

module _ (order user : ℕ) (i : ℕ) where
  KeepsInventory-refl : (s : Store) → KeepsInventory i s s
  KeepsInventory-refl s = record { held = refl; items = refl; movements = refl; tasks = refl }

  write_sheet-taken :
      (id : ℕ) (supply : SupplyDraft) (s : Store)
      → has_discounted order user id s ≡ false
      → taken i (write_sheet order user id supply (map (new_line id s.items) supply.lines) s)
        ≡ taken i s
  write_sheet-taken id supply s h = elim (Option-cases (row id s.supplies)) [
    | inl none_there ↦ rw none_there (create_lines-taken i id s.items supply.lines s.lines)
    | inr (old, there) ↦ rw there (
        create_lines-taken i id s.items supply.lines (drop_rows (λ _ l. l.task == id) s.lines)
        ∙ drop_rows-taken i id s.lines (ground arith))
  ]

  save_area-KeepsInventory :
      (supply : SupplyDraft) (s : Store) → KeepsInventory i s (save_area order user supply s).1
  unfolding save_area
  save_area-KeepsInventory supply s = elim (Option-cases (task_of order supply.area s.tasks)) [
    | inl missing ↦ rw (missing, save_area) (KeepsInventory-refl s)
    | inr ((id, t), there) ↦ elim (Bool-cases (is_terminado t.status)) [
      | inl finished ↦ rw (there, finished, save_area) (KeepsInventory-refl s)
      | inr open_task ↦ elim (Bool-cases (has_discounted order user id s)) [
        | inl discounted ↦ rw (there, open_task, discounted, save_area) (KeepsInventory-refl s)
        | inr free ↦
            rw (there, open_task, free, save_area)
              (record {
                held = write_sheet-taken id supply s free;
                items = refl;
                movements = refl;
                tasks = refl;
              })
      ]
    ]
  ]

  save_areas-KeepsInventory :
      (supplies : List SupplyDraft) (s : Store)
      → KeepsInventory i s (save_areas order user supplies s).1
  unfolding save_areas
  save_areas-KeepsInventory [] s = KeepsInventory-refl s
  save_areas-KeepsInventory (supply ∷ supplies) s =
      let first = save_area-KeepsInventory supply s in
      let rest = save_areas-KeepsInventory supplies (save_area order user supply s).1 in
      elim (Result-cases (save_area order user supply s).0) [
        | inr (e, failed) ↦ rw (>>=-eq-of-err (save_area order user supply) _ s failed) first
        | inl (u, done) ↦ rw (>>=-eq-of-ok (save_area order user supply) _ s done) (record {
          held = rest.held ∙ first.held;
          items = rest.items ∙ first.items;
          movements = rest.movements ∙ first.movements;
          tasks = rest.tasks ∙ first.tasks;
        })
      ]

  -- Saving sheets of materials never touches the inventory: however it ends, the stock and the log
  -- of movements are as before, and the discounted lines still hold as much of every item, since a
  -- sheet with a discounted line is refused and a new line is not discounted.
  pub save_supplies-KeepsInventory :
      (supplies : List SupplyDraft) (s : Store)
      → KeepsInventory i s (save_supplies order user supplies s).1
  unfolding save_supplies
  save_supplies-KeepsInventory supplies s = elim (Result-cases (validate_supplies supplies)) [
    | inr (e, refused) ↦ rw (refused, ◌>>=◌) (KeepsInventory-refl s)
    | inl (u, valid) ↦
        let ids = distinct [] (all_item_ids supplies) in
        elim (Bool-cases (asks_null supplies)) [
          | inl asked ↦ rw (valid, asked, ◌>>=◌) (KeepsInventory-refl s)
          | inr real ↦ elim (Bool-cases (any (λ id. not (is_some (row id s.items))) ids)) [
            | inl missing ↦ rw (valid, real, missing, ◌>>=◌) (KeepsInventory-refl s)
            | inr there ↦ elim (Result-cases (save_areas order user supplies s).0) [
              | inl (v, saved) ↦
                  rw (valid, real, there, saved, ◌>>=◌) (save_areas-KeepsInventory supplies s)
              | inr (e, failed) ↦
                  rw (valid, real, there, failed, ◌>>=◌) (save_areas-KeepsInventory supplies s)
            ]
          ]
        ]
  ]
