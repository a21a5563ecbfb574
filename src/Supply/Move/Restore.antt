-- ===== src/Supply/Move/Restore.antt =====
-- Reopening a task gives back exactly what finishing it took.
use backend_emd.Prelude.{
  ℕ, ◌≡◌, inl, inr, refl, sym, ap, ◌∙◌, true, false, Option, none, some, List, [], ◌∷◌, arith,
  Bool-cases, is_some,
}
use backend_emd.Prelude.Int.{balance_cancel}
use backend_emd.Prelude.Table.{total, HasDistinctKeys, Each-of_row}
use backend_emd.Http.{ok, >>=-inv}
use backend_emd.Store.{Task, Store}
use backend_emd.Supply.Move.{
  FoundLine, SupplyInventoryResult, brings_ours, move_line, move_each, move_supply_lines,
  nothing_moved,
}
use backend_emd.Supply.Move.Conserve.{move_supply_lines-Conserves, stock, taken_by}
use backend_emd.Supply.Move.Once.{
  IsUntaken, wiped_of_IsUntaken, move_supply_lines-Frames, move_supply_lines-settles,
  move_supply_lines-wiped, idle,
}

module _ (now task_id : ℕ) (task : Task) (user : ℕ) where
  move_line-pending_back :
      (line : FoundLine) (result : SupplyInventoryResult) (s : Store) (r : SupplyInventoryResult)
      → (move_line now task_id task false user line result s).0 ≡ ok r
      → r.pending ≡ result.pending
  unfolding move_line
  move_line-pending_back line result s r e = ground arith

  move_each-pending_back :
      (lines : List FoundLine) (result : SupplyInventoryResult) (s : Store)
      (r : SupplyInventoryResult)
      → (move_each now task_id task false user lines result s).0 ≡ ok r
      → r.pending ≡ result.pending
  unfolding move_each
  move_each-pending_back [] result s r e = ground arith
  move_each-pending_back (line ∷ lines) result s r e =
      let (r', done, rest, _) =
        >>=-inv (move_line now task_id task false user line result)
          (λ x. move_each now task_id task false user lines x) s e in
      move_each-pending_back lines r' _ r rest ∙ move_line-pending_back line result s r' done

  -- After reopening no line of the task is discounted.
  move_supply_lines-IsUntaken :
      (s : Store) (r : SupplyInventoryResult)
      → HasDistinctKeys s.lines
      → brings_ours task_id s.supplies ≡ true
      → (move_supply_lines now task_id task false user s).0 ≡ ok r
      → IsUntaken task_id (move_supply_lines now task_id task false user s).1
  unfolding move_supply_lines
  move_supply_lines-IsUntaken s r d ours e id l at t i = not_taken l.discounted_at (
      move_supply_lines-settles now task_id task false user s id l d ours e
        (move_each-pending_back _ nothing_moved s r e) at t i)
    where
      not_taken : (o : Option ℕ) → is_some o ≡ false → o ≡ none
      not_taken none h = refl
      not_taken (some n) h = cc

-- Finish a task none of whose materials are discounted, with or without shortages, and reopen it:
-- if the reopening succeeds, the lines are again as they were, and the stock of every item is what
-- it was before.
pub finish_then_reopen :
    (now later task_id : ℕ) (task : Task) (user other : ℕ) (s : Store) (r : SupplyInventoryResult)
    → HasDistinctKeys s.lines
    → IsUntaken task_id s
    → let s' = (move_supply_lines now task_id task true user s).1 in
      let s'' = (move_supply_lines later task_id task false other s').1 in
      (move_supply_lines later task_id task false other s').0 ≡ ok r
      → (s''.lines ≡ s.lines) × ((i : ℕ) → stock i s'' ≡ stock i s)
finish_then_reopen now later task_id task user other s r d untaken e =
    let s' = (move_supply_lines now task_id task true user s).1 in
    let s'' = (move_supply_lines later task_id task false other s').1 in
    let f' = move_supply_lines-Frames now task_id task true user s d in
    let f'' = move_supply_lines-Frames later task_id task false other s' (f'.keys d) in
    let same_lines : s''.lines ≡ s.lines = elim (Bool-cases (brings_ours task_id s.supplies)) [
      | inr theirs ↦
          ap (λ p. p.1.lines) (idle later task_id task false other s' (inl (rw f'.supplies theirs)))
          ∙ ap (λ p. p.1.lines) (idle now task_id task true user s (inl theirs))
      | inl ours ↦
          sym (
            wiped_of_IsUntaken task_id s''.lines (
              Each-of_row _ s''.lines (f''.keys (f'.keys d)) (
                move_supply_lines-IsUntaken later task_id task other s' r (f'.keys d)
                  (rw f'.supplies ours) e)))
          ∙ move_supply_lines-wiped later task_id task false other s' (f'.keys d)
          ∙ move_supply_lines-wiped now task_id task true user s d
          ∙ wiped_of_IsUntaken task_id s.lines (Each-of_row _ s.lines d untaken)
    ] in
    (
      same_lines,
      λ i. balance_cancel (stock i s'') (stock i s) _ _ (ap (total (taken_by i)) same_lines) (
          (move_supply_lines-Conserves later task_id task false other i s' (f'.keys d)).held
          ∙ (move_supply_lines-Conserves now task_id task true user i s d).held),
    )
