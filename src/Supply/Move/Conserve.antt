-- ===== src/Supply/Move/Conserve.antt =====
-- Moving lines conserves every item: what leaves the stock is what the discounted lines hold.
use backend_emd.Prelude.{
  ℕ, ◌≡◌, refl, ◌∙◌, nat_eq, option_eq, ◌==◌, Bool, true, ◌&&◌, none, some, List, [], ◌∷◌, ◌++◌,
  is_some, if◌then◌else◌,
}
use backend_emd.Prelude.Int.{ℤ, pos, ◌+ℤ◌, int_laws, balance_trans, balance_shift, balance_record}
use backend_emd.Prelude.Table.{row, total, HasDistinctKeys, row-put, total-put}
use backend_emd.Store.{Item, Movement, Line, Task, Store}
use backend_emd.Supply.Move.Loop.{Agrees, Writes, move_each-R}
use backend_emd.Supply.Move.Found.{found_lines-Agree}
use backend_emd.Supply.Move.{
  brings_ours, nothing_moved, move_supply_lines, FoundLine, is_due, delta_of, movement_of,
  write_line,
}

-- The stock of an item (0 where there is no such item).
abbrev pub stock : ℕ → Store → ℤ
stock i s = elim (row i s.items) [ none ↦ pos 0 | some item ↦ item.quantity ]

abbrev pub taken_by : ℕ → ℕ → Line → ℤ
taken_by i _ l = if l.item == some i && is_some l.discounted_at then l.quantity else pos 0

-- What the discounted lines hold of an item.
abbrev pub taken : ℕ → Store → ℤ
taken i s = total (taken_by i) s.lines

-- What the log of movements adds up to for an item.
abbrev pub logged : ℕ → List Movement → ℤ
logged i [] = pos 0
logged i (m ∷ movements) = (if m.item == i then m.delta else pos 0) +ℤ logged i movements

pub logged-append :
    (i : ℕ) (xs ys : List Movement) → logged i (xs ++ ys) ≡ logged i xs +ℤ logged i ys
logged-append i [] ys = omega int_laws
logged-append i (m ∷ xs) ys = grind (int_laws, logged-append i xs ys)

module _ (now task_id : ℕ) (task : Task) (finishing : Bool) (user : ℕ) (i : ℕ) where
  stock-write_line :
      (locked : Item) (line : FoundLine) (l : Line) (s : Store)
      → row line.item s.items ≡ some locked
      → stock i (write_line now task_id task finishing user locked line l s)
        ≡ stock i s +ℤ (if line.item == i then delta_of finishing line.quantity else pos 0)
  stock-write_line locked line l s e = grind (
    int_laws,
    row-put i line.item
        (record locked { quantity = locked.quantity +ℤ delta_of finishing line.quantity }) s.items,
  )

  taken-write_line :
      (locked : Item) (line : FoundLine) (l : Line) (s : Store)
      → row line.id s.lines ≡ some l
      → l.item ≡ some line.item
      → l.quantity ≡ line.quantity
      → is_due finishing l.discounted_at ≡ true
      → taken i (write_line now task_id task finishing user locked line l s)
          +ℤ (if line.item == i then delta_of finishing line.quantity else pos 0)
        ≡ taken i s
  taken-write_line locked line l s e it q due = grind (
    int_laws,
    total-put (taken_by i) line.id
        (record l { discounted_at = if finishing then some now else none }) l s.lines e,
  )

-- From `s` to `s'` stock and discounted lines together hold as much of the item as before, and the
-- stock moves by what is logged.
pub record Conserves (i : ℕ) (s s' : Store) : Type 0 where
  pub held : stock i s' +ℤ taken i s' ≡ stock i s +ℤ taken i s
  pub recorded : stock i s' +ℤ logged i s.movements ≡ stock i s +ℤ logged i s'.movements

pub Conserves-refl : (i : ℕ) (s : Store) → Conserves i s s
Conserves-refl i s = record { held = refl; recorded = refl }

pub Conserves-trans : (i : ℕ) (s t u : Store) → Conserves i s t → Conserves i t u → Conserves i s u
Conserves-trans i s t u p q = record {
  held = q.held ∙ p.held;
  recorded = balance_trans (stock i s) (stock i t) (stock i u) _ _ _ p.recorded q.recorded;
}

module _ (now task_id : ℕ) (task : Task) (finishing : Bool) (user : ℕ) (i : ℕ) where
  write_line-Conserves :
      (line : FoundLine) (s s' : Store)
      → Agrees task_id line s.lines
      → Writes now task_id task finishing user line s s'
      → Conserves i s s'
  write_line-Conserves line s s' agrees w =
      let (same_item, same_quantity, _) = agrees w.l w.claimed in
      let st = stock-write_line now task_id task finishing user i w.locked line w.l s w.found in
      rw w.written (record {
        held = balance_shift (stock i s) _ _ _ _ st (
            taken-write_line now task_id task finishing user i w.locked line w.l s w.claimed
              same_item same_quantity w.due);
        recorded = rw st (
            balance_record (stock i s) _ _ _ (
              logged-append i s.movements
                (movement_of now task_id task finishing user w.locked line ∷ [])));
      })

  -- Discounting the lines of a task, or returning them, conserves every item: stock and discounted
  -- lines together hold as much of it as before, and the stock changes by exactly what the new
  -- movements in the log add up to. This holds however the loop over the lines ends, where no two
  -- lines have one key.
  pub move_supply_lines-Conserves :
      (s : Store)
      → HasDistinctKeys s.lines
      → Conserves i s (move_supply_lines now task_id task finishing user s).1
  unfolding move_supply_lines
  move_supply_lines-Conserves s d =
      move_each-R now task_id task finishing user (Conserves i) (Conserves-refl i)
        (Conserves-trans i) write_line-Conserves _ nothing_moved s
        (found_lines-Agree task_id finishing (brings_ours task_id s.supplies) s.lines d)
