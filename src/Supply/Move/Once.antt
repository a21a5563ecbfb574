-- ===== src/Supply/Move/Once.antt =====
-- Inventory moves once: what a second run and a run back do.
use backend_emd.Prelude.{
  ℕ, ◌≡◌, ◌⊎◌, inl, inr, refl, ◌∙◌, nat_eq, ◌==◌, Bool, true, false, ◌&&◌, Option, none, some, [],
  ◌∷◌, arith, Bool-cases, Option-cases, is_some, if◌then◌else◌,
}
use backend_emd.Prelude.Table.{Table, row, put, row-put, HasDistinctKeys, HasDistinctKeys-put, Each}
use backend_emd.Http.{ok}
use backend_emd.Store.{Line, Task, Store}
use backend_emd.Supply.Move.{
  FoundLine, SupplyInventoryResult, is_due, find_lines, sort_lines, brings_ours, move_supply_lines,
  nothing_moved,
}
use backend_emd.Supply.Move.Loop.{Agrees, Writes, move_each-R}
use backend_emd.Supply.Move.Found.{found_lines-Agree}
use backend_emd.Supply.Move.Settle.{
  sort_lines-Lists, find_lines-Lists, find_lines-eq-nil, move_each-settles, move_each-IsSettled,
}

abbrev shape : Option Line → Option (ℕ × Option ℕ)
shape none = none
shape (some l) = some (l.task, l.item)

-- What a run leaves alone: whose line it is and of what item, the sheets, and the keys.
pub record Frames (s s' : Store) : Type 0 where
  pub shapes : (id : ℕ) → shape (row id s'.lines) ≡ shape (row id s.lines)
  pub supplies : s'.supplies ≡ s.supplies
  pub tasks : s'.tasks ≡ s.tasks
  pub keys : HasDistinctKeys s.lines → HasDistinctKeys s'.lines

module _ (now task_id : ℕ) (task : Task) (finishing : Bool) (user : ℕ) where
  write_line-Frames :
      (line : FoundLine) (s s' : Store)
      → Agrees task_id line s.lines
      → Writes now task_id task finishing user line s s'
      → Frames s s'
  write_line-Frames line s s' a w = rw w.written (record {
    shapes = λ id. ground (
      arith,
      row-put id line.id (record w.l { discounted_at = if finishing then some now else none })
          s.lines,
      w.claimed,
    );
    supplies = refl;
    tasks = refl;
    keys = HasDistinctKeys-put line.id _ s.lines;
  })

  pub move_supply_lines-Frames :
      (s : Store)
      → HasDistinctKeys s.lines
      → Frames s (move_supply_lines now task_id task finishing user s).1
  unfolding move_supply_lines
  move_supply_lines-Frames s d =
      move_each-R now task_id task finishing user Frames
        (λ t. record { shapes = λ id. refl; supplies = refl; tasks = refl; keys = λ k. k })
        (λ t u v p q. record {
          shapes = λ id. q.shapes id ∙ p.shapes id;
          supplies = q.supplies ∙ p.supplies;
          tasks = q.tasks ∙ p.tasks;
          keys = λ k. q.keys (p.keys k);
        })
        write_line-Frames _ nothing_moved s
        (found_lines-Agree task_id finishing (brings_ours task_id s.supplies) s.lines d)

  -- After a successful run without shortages no line of our sheet of the task that names an item
  -- is due: on finishing each of them is discounted, on reopening none of them is.
  pub move_supply_lines-settles :
      (s : Store) (id : ℕ) (l : Line) {r : SupplyInventoryResult}
      → HasDistinctKeys s.lines
      → brings_ours task_id s.supplies ≡ true
      → (move_supply_lines now task_id task finishing user s).0 ≡ ok r
      → r.pending ≡ []
      → row id (move_supply_lines now task_id task finishing user s).1.lines ≡ some l
      → l.task ≡ task_id
      → is_some l.item ≡ true
      → is_due finishing l.discounted_at ≡ false
  unfolding move_supply_lines
  move_supply_lines-settles s id l d ours e h at t i =
      let run = move_supply_lines now task_id task finishing user s in
      let found =
        if brings_ours task_id s.supplies then find_lines task_id finishing s.lines else [] in
      let agree = found_lines-Agree task_id finishing (brings_ours task_id s.supplies) s.lines d in
      let same_shape = (move_supply_lines-Frames s d).shapes id in
      elim (Option-cases (row id s.lines)) [
        | inl none_there ↦ ground arith
        | inr (l₀, there) ↦ elim (Bool-cases (is_due finishing l₀.discounted_at)) [
          | inl due ↦
              move_each-settles now task_id task finishing user (sort_lines found) nothing_moved s
                agree e h id
                (sort_lines-Lists id found (
                  rw ours (
                    find_lines-Lists task_id finishing s.lines id l₀ there (ground arith)
                      (ground arith) due)))
                l at
          | inr settled ↦
              move_each-IsSettled now task_id task finishing user id (sort_lines found)
                nothing_moved s agree (λ k k_at. ground arith) l at
        ]
      ]

-- With no sheet of ours, or nothing found, a run does nothing.
pub idle :
    (now task_id : ℕ) (task : Task) (finishing : Bool) (user : ℕ) (s : Store)
    → (brings_ours task_id s.supplies ≡ false) ⊎ (find_lines task_id finishing s.lines ≡ [])
    → move_supply_lines now task_id task finishing user s ≡ (ok nothing_moved, s)
unfolding move_supply_lines
idle now task_id task finishing user s (inl h) = rw (h, move_supply_lines)
idle now task_id task finishing user s (inr h) =
    elim (Bool-cases (brings_ours task_id s.supplies)) [
      | inl ours ↦ rw (ours, h, move_supply_lines)
      | inr theirs ↦ rw (theirs, move_supply_lines)
    ]

-- A run that ended without shortages has done everything: another run after it, at any later time
-- and by anybody, finds nothing to move and changes nothing. So two requests that finish the same
-- task discount its materials once.
pub move_supply_lines_again :
    (now later task_id : ℕ) (task : Task) (finishing : Bool) (user other : ℕ) (s : Store)
    {r : SupplyInventoryResult}
    → HasDistinctKeys s.lines
    → (move_supply_lines now task_id task finishing user s).0 ≡ ok r
    → r.pending ≡ []
    → let s' = (move_supply_lines now task_id task finishing user s).1 in
      move_supply_lines later task_id task finishing other s' ≡ (ok nothing_moved, s')
move_supply_lines_again now later task_id task finishing user other s d e h =
    let s' = (move_supply_lines now task_id task finishing user s).1 in
    let frame = move_supply_lines-Frames now task_id task finishing user s d in
    elim (Bool-cases (brings_ours task_id s.supplies)) [
      | inr theirs ↦ idle later task_id task finishing other s' (inl (rw frame.supplies theirs))
      | inl ours ↦ idle later task_id task finishing other s' (
          inr (
            find_lines-eq-nil task_id finishing s'.lines (frame.keys d) (λ id l.
              move_supply_lines-settles now task_id task finishing user s id l d ours e h)))
    ]

abbrev pub unset : Line → Line
unset l = record l { discounted_at = none }

-- The lines with every mark on the task's own lines taken off.
abbrev pub wiped : ℕ → Table Line → Table Line
wiped task [] = []
wiped task ((j, l) ∷ lines) =
    (j, if l.task == task && is_some l.item then unset l else l) ∷ wiped task lines

wiped-put :
    (task id : ℕ) (l : Line) (mark : Option ℕ) (lines : Table Line)
    → row id lines ≡ some l
    → l.task ≡ task
    → is_some l.item ≡ true
    → wiped task (put id (record l { discounted_at = mark }) lines) ≡ wiped task lines
wiped-put task id l mark [] e t i = cc
wiped-put task id l mark ((j, k) ∷ lines) e t i = ground (arith, wiped-put task id l mark lines)

-- No line of the task that names an item is discounted.
abbrev pub IsUntaken : ℕ → Store → Type 0
IsUntaken task s =
    (id : ℕ) (l : Line)
    → row id s.lines ≡ some l
    → l.task ≡ task
    → is_some l.item ≡ true
    → l.discounted_at ≡ none

pub wiped_of_IsUntaken :
    (task : ℕ) (lines : Table Line)
    → Each (λ _ l. l.task ≡ task → is_some l.item ≡ true → l.discounted_at ≡ none) lines
    → wiped task lines ≡ lines
wiped_of_IsUntaken task [] h = refl
wiped_of_IsUntaken task ((j, l) ∷ lines) h = ground (arith, wiped_of_IsUntaken task lines h.1)

module _ (now task_id : ℕ) (task : Task) (finishing : Bool) (user : ℕ) where
  pub move_supply_lines-wiped :
      (s : Store)
      → HasDistinctKeys s.lines
      → wiped task_id (move_supply_lines now task_id task finishing user s).1.lines
        ≡ wiped task_id s.lines
  unfolding move_supply_lines
  move_supply_lines-wiped s d =
      move_each-R now task_id task finishing user
        (λ t u. wiped task_id u.lines ≡ wiped task_id t.lines) (λ t. refl) (λ t u v p q. q ∙ p)
        (λ line t u a w. rw w.written (
          wiped-put task_id line.id w.l (if finishing then some now else none) t.lines w.claimed
            (a w.l w.claimed).2 (ground (arith, (a w.l w.claimed).0))))
        _ nothing_moved s
        (found_lines-Agree task_id finishing (brings_ours task_id s.supplies) s.lines d)
