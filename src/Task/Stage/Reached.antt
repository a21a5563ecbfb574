-- ===== src/Task/Stage/Reached.antt =====
-- A request on a task in a stage: what `loadStageTask` of src/order/order-area-task.service.ts lets
-- through.
use backend_emd.Prelude.{ap, String, ℕ, ◌≡◌, ◌∙◌, refl, get_elem?, true, Option, some}
use backend_emd.Prelude.Table.{row}
use backend_emd.Http.{ok, Action, ◌>>=◌, pure, gets, check, >>=-eq, ◌>>◌}
use backend_emd.Notification.Frame.{OnlyTells}
use backend_emd.Area.Access.{RequestingUser}
use backend_emd.Area.Stages.{AreaStageView}
use backend_emd.Area.Stages.Order.{HasDistinctIds, ReviewsFollowWork, kinds_of}
use backend_emd.Area.Catalog.{stages_of}
use backend_emd.Store.{Task, Store}
use backend_emd.Task.Stage.{record_sample_audit}
use backend_emd.Task.Guards.{
  find_task, belongs_to_order, assert_can_work_area, load_stage_task, stage_of,
}

-- The task is there and of the order that the request names, the user may work in its area, and it
-- is in the stage `stage`, the `i`-th of its area. The area's stages have distinct ids, and its
-- reviews follow work.
pub record IsReached (task_id : ℕ) (user : RequestingUser) (order : Option ℕ) (t : Task) (i : ℕ)
    (stage : AreaStageView) (s : Store) : Type 0 where
  pub there : row task_id s.tasks ≡ some t
  pub own : belongs_to_order t.order order ≡ true
  pub may : assert_can_work_area t.area user ≡ ok tt
  pub in_stage : t.stage ≡ some stage.id
  pub known : row stage.id s.stages ≡ some stage
  pub at : get_elem? (stages_of s.areas t.area) i ≡ some stage
  pub distinct : HasDistinctIds (stages_of s.areas t.area)
  pub follows : ReviewsFollowWork (kinds_of (stages_of s.areas t.area))

module _ (task_id : ℕ) (user : RequestingUser) (order : Option ℕ) (t : Task) (i : ℕ)
    (stage : AreaStageView) (s : Store) (h : IsReached task_id user order t i stage s) where
  load_stage_task-eq : load_stage_task task_id user order s ≡ (ok t, s)
  unfolding load_stage_task
  load_stage_task-eq =
      >>=-eq (find_task task_id order)
        (λ task. check (assert_can_work_area task.area user) >>= λ _. pure task) s found
      ∙ rw h.may refl
    where
      found : find_task task_id order s ≡ (ok t, s)
      found = rw (h.there, h.own, find_task) refl

  stage_found : stage_of t s ≡ some stage
  stage_found = rw (h.in_stage, h.known) refl

  -- The rest of a request that loads the task and its stage.
  pub after_load :
      {A : Type 0} (f : Task → Option AreaStageView → Action Store A)
      → (load_stage_task task_id user order >>= λ task. gets (stage_of task) >>= f task) s
        ≡ f t (some stage) s
  after_load f =
      >>=-eq (load_stage_task task_id user order) (λ task. gets (stage_of task) >>= f task) s
        load_stage_task-eq
      ∙ >>=-eq (gets (stage_of t)) (f t) s (rw stage_found refl)

-- The row of the audit and the message at the end of a request leave the tasks as they are.
pub audited :
    (action : String) (order user : ℕ) (note : Action Store (Unit {0}))
    → OnlyTells note
    → ((x : Store) → (note x).0 ≡ ok tt)
    → (s : Store)
    → let (r, s') = (record_sample_audit action order user >> note) s in
      (r ≡ ok tt) × (s'.tasks ≡ s.tasks)
unfolding record_sample_audit
audited action order user note tells done s =
    let x = (record_sample_audit action order user s).1 in
    (done x, ap {A = Store} (λ y. y.tasks) (tells x))
