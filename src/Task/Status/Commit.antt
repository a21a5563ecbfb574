-- ===== src/Task/Status/Commit.antt =====
-- What the transaction of a change of status writes, and what becomes of a second request that
-- read the task before the first one wrote.
use backend_emd.Prelude.{
  ℕ, ◌≡◌, ◌⊎◌, inl, inr, refl, sym, ap, ◌∙◌, nat_eq, Bool, true, false, none, some, List, [], ◌∷◌,
  Bool-cases,
}
use backend_emd.Prelude.Table.{row}
use backend_emd.Http.{
  HttpError, ok, err, Result-cases, ◌>>=◌, >>=-eq, >>=-eq-of-ok, >>=-eq-of-err, not_found, settle,
  settle-err, or_throw, transaction,
}
use backend_emd.Store.{AreaTaskStatus, pendiente, en_proceso, terminado, Task, Store}
use backend_emd.Supply.Move.{
  FoundLine, SupplyInventoryResult, move_line, move_each, move_supply_lines,
  apply_supply_inventory_for_status, lock_task_status, nothing_moved,
}
use backend_emd.Supply.Move.Loop.{move_line_cases}
use backend_emd.Task.Guards.{assert_valid_transition}
use backend_emd.Task.Status.{
  Reading, write_status, is_raced, change_status, decide_status, commit_status,
}

-- Nothing but the lines, the stock and its log has changed.
abbrev pub MovesMaterials : Store → Store → Type 0
MovesMaterials s s' = s' ≡ record s { lines = s'.lines; items = s'.items; movements = s'.movements }

MovesMaterials-trans :
    (s t u : Store) → MovesMaterials s t → MovesMaterials t u → MovesMaterials s u
MovesMaterials-trans s t u p q =
    q
    ∙ ap {A = Store} (λ x. record x { lines = u.lines; items = u.items; movements = u.movements }) p

module _ (now task_id : ℕ) (task : Task) (finishing : Bool) (user : ℕ) where
  move_line-MovesMaterials :
      (line : FoundLine) (result : SupplyInventoryResult) (s : Store)
      → MovesMaterials s (move_line now task_id task finishing user line result s).1
  move_line-MovesMaterials line result s =
      elim (move_line_cases now task_id task finishing user line result s) [
        | inl p ↦ rw p.same refl
        | inr w ↦ rw w.written refl
      ]

  move_each-MovesMaterials :
      (lines : List FoundLine) (result : SupplyInventoryResult) (s : Store)
      → MovesMaterials s (move_each now task_id task finishing user lines result s).1
  unfolding move_each
  move_each-MovesMaterials [] result s = refl
  move_each-MovesMaterials (line ∷ lines) result s =
      let first = move_line-MovesMaterials line result s in
      elim (Result-cases (move_line now task_id task finishing user line result s).0) [
        | inr (e, failed) ↦
            rw (>>=-eq-of-err (move_line now task_id task finishing user line result) _ s failed)
              first
        | inl (r, moved) ↦
            rw (>>=-eq-of-ok (move_line now task_id task finishing user line result) _ s moved)
              (MovesMaterials-trans s _ _ first (move_each-MovesMaterials lines r _))
      ]

  pub move_supply_lines-MovesMaterials :
      (s : Store) → MovesMaterials s (move_supply_lines now task_id task finishing user s).1
  unfolding move_supply_lines
  move_supply_lines-MovesMaterials s = move_each-MovesMaterials _ nothing_moved s

pub apply-MovesMaterials :
    (now task_id : ℕ) (task : Task) (previous next : AreaTaskStatus) (user : ℕ) (s : Store)
    → MovesMaterials s (apply_supply_inventory_for_status now task_id task previous next user s).1
unfolding apply_supply_inventory_for_status
apply-MovesMaterials now task_id task pendiente pendiente user s = refl
apply-MovesMaterials now task_id task pendiente en_proceso user s = refl
apply-MovesMaterials now task_id task pendiente terminado user s =
    move_supply_lines-MovesMaterials now task_id task true user s
apply-MovesMaterials now task_id task en_proceso pendiente user s = refl
apply-MovesMaterials now task_id task en_proceso en_proceso user s = refl
apply-MovesMaterials now task_id task en_proceso terminado user s =
    move_supply_lines-MovesMaterials now task_id task true user s
apply-MovesMaterials now task_id task terminado pendiente user s =
    move_supply_lines-MovesMaterials now task_id task false user s
apply-MovesMaterials now task_id task terminado en_proceso user s =
    move_supply_lines-MovesMaterials now task_id task false user s
apply-MovesMaterials now task_id task terminado terminado user s = refl

module _ (now task_id : ℕ) (status : AreaTaskStatus) (user : ℕ) (r : Reading) (s : Store) where
  pub commit_status-eq :
      (t : Task)
      → row task_id s.tasks ≡ some t
      → commit_status now task_id status user r s
        ≡ transaction (decide_status now task_id status user r t.status) s
  unfolding commit_status
  commit_status-eq t there =
      let read : lock_task_status task_id s ≡ (ok (some t.status), s) = rw there refl in
      ap (settle s) (
        >>=-eq (lock_task_status task_id)
          (λ locked. or_throw locked not_found >>= λ current.
            decide_status now task_id status user r current)
          s read)

  -- The change was made: the step is one of the cycle, and the materials moved first.
  pub record Changes (current : AreaTaskStatus) (result : SupplyInventoryResult) : Type 0 where
    pub step : assert_valid_transition current status ≡ ok tt
    pub first : is_raced status current r.task ≡ false
    pub moved :
        (apply_supply_inventory_for_status now task_id r.task current status user s).0 ≡ ok result
    pub written : decide_status now task_id status user r current s ≡ (
      ok (some result),
      write_status now task_id status user r.should_claim
          (apply_supply_inventory_for_status now task_id r.task current status user s).1,
    )

  change_status-cases :
      (current : AreaTaskStatus)
      → ((e : HttpError) × ((change_status now task_id status user r current s).0 ≡ err e))
        ⊎ ((result : SupplyInventoryResult) × ((apply_supply_inventory_for_status now task_id r.task
                current status user s).0
              ≡ ok result)
            × (change_status now task_id status user r current s ≡ (
              ok (some result),
              write_status now task_id status user r.should_claim
                  (apply_supply_inventory_for_status now task_id r.task current status user s).1,
            )))
  unfolding change_status
  change_status-cases current =
      elim (Result-cases
        (apply_supply_inventory_for_status now task_id r.task current status user s).0) [
          | inr (e, failed) ↦ inl (e, rw (failed, change_status, ◌>>=◌) refl)
          | inl (result, moved) ↦ inr (result, moved, rw (moved, change_status, ◌>>=◌) refl)
        ]

  decide_status-cases :
      (current : AreaTaskStatus)
      → ((e : HttpError) × ((decide_status now task_id status user r current s).0 ≡ err e))
        ⊎ (((is_raced status current r.task ≡ true)
              × (decide_status now task_id status user r current s ≡ (ok none, s)))
            ⊎ ((result : SupplyInventoryResult) × Changes current result))
  unfolding decide_status
  decide_status-cases current = elim (Result-cases (assert_valid_transition current status)) [
    | inr (e, refused) ↦ inl (e, rw (refused, decide_status, ◌>>=◌) refl)
    | inl (u, step) ↦ elim (Bool-cases (is_raced status current r.task)) [
      | inl raced ↦ inr (inl (raced, rw (step, raced, decide_status, ◌>>=◌) refl))
      | inr first ↦ elim (change_status-cases current) [
        | inl (e, failed) ↦ inl (e, rw (step, first, decide_status, ◌>>=◌) failed)
        | inr (result, moved, written) ↦ inr (
            inr (
              result,
              record {
                step = step;
                first = first;
                moved = moved;
                written = rw (step, first, decide_status, ◌>>=◌) written;
              },
            ))
      ]
    ]
  ]

  -- The transaction: it fails and undoes everything, or it was raced and does nothing, or it
  -- changes the status.
  pub commit_status-cases :
      (t : Task)
      → row task_id s.tasks ≡ some t
      → ((e : HttpError) × (commit_status now task_id status user r s ≡ (err e, s)))
        ⊎ (((is_raced status t.status r.task ≡ true)
              × (commit_status now task_id status user r s ≡ (ok none, s)))
            ⊎ ((result : SupplyInventoryResult) × Changes t.status result
                × (commit_status now task_id status user r s
                    ≡ decide_status now task_id status user r t.status s)))
  commit_status-cases t there = elim (decide_status-cases t.status) [
    | inl (e, failed) ↦ inl (e, commit_status-eq t there ∙ settle-err s _ failed)
    | inr (inl (raced, idle)) ↦ inr (inl (raced, commit_status-eq t there ∙ ap (settle s) idle))
    | inr (inr (result, c)) ↦
        inr (inr (result, c, commit_status-eq t there ∙ ap (settle s) c.written ∙ sym c.written))
  ]
