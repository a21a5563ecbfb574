-- ===== src/Supply/Move/NonNegative.antt =====
-- Inventory never goes below zero by a sheet of materials.
use backend_emd.Prelude.{ℕ, ◌≡◌, Bool, true, false, ◌&&◌}
use backend_emd.Prelude.Int.{ℤ, pos, ◌+ℤ◌, ◌≤ℤ◌, ltb_ℤ, int_laws}
use backend_emd.Prelude.Table.{Each, Each-put, Each-row, HasDistinctKeys}
use backend_emd.Store.{Task, Store}
use backend_emd.Supply.Move.{FoundLine, delta_of, brings_ours, nothing_moved, move_supply_lines}
use backend_emd.Supply.Move.Loop.{Agrees, Writes, move_each-R}
use backend_emd.Supply.Move.Found.{found_lines-Agree}

-- No stock and no line has a negative quantity.
pub record HasStock (s : Store) : Type 0 where
  pub items : Each (λ _ item. pos 0 ≤ℤ item.quantity) s.items
  pub lines : Each (λ _ l. pos 0 ≤ℤ l.quantity) s.lines

abbrev Keeps : Store → Store → Type 0
Keeps s s' = HasStock s → HasStock s'

balance_nonneg :
    (finishing : Bool) (current amount : ℤ)
    → pos 0 ≤ℤ current
    → pos 0 ≤ℤ amount
    → (finishing && ltb_ℤ current amount) ≡ false
    → pos 0 ≤ℤ current +ℤ delta_of finishing amount
balance_nonneg true current amount h k e = grind int_laws
balance_nonneg false current amount h k e = omega int_laws

module _ (now task_id : ℕ) (task : Task) (finishing : Bool) (user : ℕ) where
  write_line-Keeps :
      (line : FoundLine) (s s' : Store)
      → Agrees task_id line s.lines
      → Writes now task_id task finishing user line s s'
      → Keeps s s'
  write_line-Keeps line s s' agrees w h =
      let (_, same_quantity, _) = agrees w.l w.claimed in
      let amount = Each-row (λ _ l. pos 0 ≤ℤ l.quantity) line.id w.l s.lines h.lines w.claimed in
      let current =
        Each-row (λ _ item. pos 0 ≤ℤ item.quantity) line.item w.locked s.items h.items w.found in
      rw w.written (record {
        items =
            Each-put (λ _ item. pos 0 ≤ℤ item.quantity) line.item _ s.items h.items
              (balance_nonneg finishing w.locked.quantity line.quantity current
                (rw same_quantity at amount) w.enough);
        lines = Each-put (λ _ l. pos 0 ≤ℤ l.quantity) line.id _ s.lines h.lines amount;
      })

  -- Finishing or reopening a task never makes the stock of an item negative, however it ends.
  pub move_supply_lines-HasStock :
      (s : Store)
      → HasDistinctKeys s.lines
      → HasStock s
      → HasStock (move_supply_lines now task_id task finishing user s).1
  unfolding move_supply_lines
  move_supply_lines-HasStock s d =
      move_each-R now task_id task finishing user Keeps (λ t h. h) (λ t u v p q h. q (p h))
        write_line-Keeps _ nothing_moved s
        (found_lines-Agree task_id finishing (brings_ours task_id s.supplies) s.lines d)
