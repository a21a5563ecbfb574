-- ===== src/Task/Stage/Rows.antt =====
-- The two updates of a task's row.
use backend_emd.Prelude.{ℕ, ◌≡◌, refl, nat_eq, option_eq, ◌==◌, true, Option, some, arith}
use backend_emd.Prelude.Table.{row, put}
use backend_emd.Http.{ok}
use backend_emd.Store.{Task, Store}
use backend_emd.Task.Stage.{claim_stage, change_task}

module _ (task_id : ℕ) (s : Store) (t : Task) (there : row task_id s.tasks ≡ some t) where
  pub change_task-eq :
      (f : Task → Task) → change_task task_id f s ≡ record s { tasks = put task_id (f t) s.tasks }
  change_task-eq f = rw (there, change_task) refl

  pub claim_stage-eq :
      (before : ℕ) (after : Option ℕ)
      → t.stage ≡ some before
      → claim_stage task_id before after s
        ≡ (ok true, record s { tasks = put task_id (record t { stage = after }) s.tasks })
  unfolding claim_stage
  claim_stage-eq before after in_stage =
      let same : (t.stage == some before) ≡ true = ground (arith, in_stage) in
      rw (there, same, claim_stage) refl
