-- ===== src/Task/Guards/Find.antt =====
-- Finding a task reads only.
use backend_emd.Prelude.{ℕ, ◌≡◌, ◌⊎◌, inl, inr, refl, true, Option, some, Bool-cases, Option-cases}
use backend_emd.Prelude.Table.{row}
use backend_emd.Http.{ok, err, not_found, Action, ◌>>=◌, >>=-eq, >>=-eq_err}
use backend_emd.Store.{Task, Store}
use backend_emd.Task.Guards.{find_task, belongs_to_order}

module _ (task_id : ℕ) (order : Option ℕ) (s : Store) where
  pub find_task-cases :
      ((t : Task) × (row task_id s.tasks ≡ some t)
        × (belongs_to_order t.order order ≡ true)
        × (find_task task_id order s ≡ (ok t, s)))
      ⊎ (find_task task_id order s ≡ (err not_found, s))
  unfolding find_task
  find_task-cases = elim (Option-cases (row task_id s.tasks)) [
    | inl missing ↦ inr (rw (missing, find_task) refl)
    | inr (t, there) ↦ elim (Bool-cases (belongs_to_order t.order order)) [
      | inr strange ↦ inr (rw (there, strange, find_task) refl)
      | inl own ↦ inl (t, there, own, rw (there, own, find_task) refl)
    ]
  ]

  -- What an action that first finds the task keeps.
  pub after_find :
      {B : Type 0} (f : Task → Action Store B) (P : Store → Type 0)
      → P s
      → ((t : Task) → row task_id s.tasks ≡ some t → P (f t s).1)
      → P ((find_task task_id order >>= f) s).1
  after_find f P h k = elim find_task-cases [
    | inl (t, there, own, found) ↦ rw (>>=-eq (find_task task_id order) f s found) (k t there)
    | inr lost ↦ rw (>>=-eq_err (find_task task_id order) f s lost) h
  ]
