-- ===== src/Task/Stage.antt =====
-- The way through the stages before production: `advanceStage`, `moveToStage`,
-- `openSampleTestRound`, `assertOrderAuthorized` and `recordSampleAudit` of
-- src/order/order-area-task.service.ts. Storing the photo and the metadata of the audit entries
-- are left out.
pub mod Rows
pub mod Reached
use backend_emd.Prelude.{
  ℕ, suc, nat_eq, string_eq, option_eq, ◌==◌, contains, ltb, Bool, true, false, not, Option, none,
  some, List, [], ◌∷◌, ◌++◌, String, if◌then◌else◌, is_some, trim, is_empty_text,
}
use backend_emd.Prelude.Table.{row, put}
use backend_emd.Http.{
  ok, err, bad_request, Action, ◌>>=◌, ◌>>◌, gets, modify, throw_if, transaction,
}
use backend_emd.Area.Access.{RequestingUser}
use backend_emd.Area.Stages.{AreaStageView, is_review, next_stage}
use backend_emd.Area.Catalog.{stages_of}
use backend_emd.Store.{SampleTest, Task, Store}
use backend_emd.Task.Guards.{load_stage_task, stage_of}
use backend_emd.Task.Notify.{notify_reception_of_sample_sent}

-- The photo: its name, and whether `assertBase64FileValid` accepts it.
pub record Photo : Type 0 where
  pub name : String
  pub is_valid : Bool

-- `notes?.trim() || null`
unfoldable pub trimmed : Option String → Option String
unfolding trim
trimmed none = none
trimmed (some s) = let t = trim s in if is_empty_text t then none else some t

-- The name of a status, `none` if it is not there.
unfoldable pub name_of : ℕ → List (String × ℕ) → Option String
name_of id [] = none
name_of id ((name, k) ∷ statuses) =
    let rest = name_of id statuses in if k == id then some name else rest

abbrev pub names_in_design : List String
names_in_design = "en diseño" ∷ "esperando autorización" ∷ "cambios solicitados" ∷ []

unfoldable pub record_sample_audit : String → ℕ → ℕ → Action Store (Unit {0})
record_sample_audit action order user =
    modify λ s. record s {
      audit = s.audit ++ record { user = user; action = action; order = order } ∷ [];
    }

-- `updateMany({ where: { id, stageId: from }, data: { stageId: to } })`, and whether a row matched.
unfoldable pub claim_stage : ℕ → ℕ → Option ℕ → Action Store Bool
claim_stage task_id before after s = elim (row task_id s.tasks) [
  | none ↦ (ok false, s)
  | some t ↦
      if t.stage == some before
      then (ok true, record s { tasks = put task_id (record t { stage = after }) s.tasks })
      else (ok false, s)
]

abbrev pub id_of : Option AreaStageView → Option ℕ
id_of none = none
id_of (some v) = some v.id

abbrev pub is_review_stage : Option AreaStageView → Bool
is_review_stage none = false
is_review_stage (some v) = is_review v.kind

-- `_max: { round: true }`, 0 if there is none.
unfoldable pub last_round : List SampleTest → ℕ
last_round [] = 0
last_round (t ∷ tests) = let rest = last_round tests in if ltb rest t.round then t.round else rest

abbrev pub is_open : SampleTest → Bool
is_open t = not (is_some t.result)

-- Change the row of the task; it is there.
abbrev pub change_task : ℕ → (Task → Task) → Store → Store
change_task task_id f s = elim (row task_id s.tasks) [
  | none ↦ s
  | some t ↦ record s { tasks = put task_id (f t) s.tasks }
]

unfoldable pub move_to_stage : ℕ → Task → ℕ → Option AreaStageView → ℕ → Action Store (Unit {0})
unfolding claim_stage record_sample_audit
move_to_stage task_id task before after user = do
  claimed ← claim_stage task_id before (id_of after)
  throw_if (not claimed) bad_request
  record_sample_audit "area_stage_advanced" task.order user

abbrev pub with_round : Option String → Option String → ℕ → Task → Task
with_round notes photo user t = record t {
  sample_tests =
      t.sample_tests
      ++ record {
        round = suc (last_round t.sample_tests);
        sent_by = user;
        sent_notes = notes;
        photo = photo;
        result = none;
        result_notes = none;
        decided_by = none;
      }
        ∷ [];
}

-- What follows the update that claims the stage.
unfoldable pub open_claimed : ℕ → Option String → ℕ → Option String → Bool → Action Store (Unit {0})
unfolding last_round
open_claimed task_id notes user photo claimed = do
  throw_if (not claimed) bad_request
  modify (change_task task_id (with_round notes photo user))

unfoldable pub open_sample_test_round :
    ℕ → ℕ → ℕ → Option String → ℕ → Option String → Action Store (Unit {0})
unfolding claim_stage open_claimed
open_sample_test_round task_id before after notes user photo =
    transaction (claim_stage task_id before (some after) >>= open_claimed task_id notes user photo)

abbrev pub photo_name : Option Photo → Option String
photo_name none = none
photo_name (some p) = some p.name

abbrev pub is_bad_photo : Option Photo → Bool
is_bad_photo none = false
is_bad_photo (some p) = not p.is_valid

module _ (to_lower_case : String → String) where
  unfoldable pub is_in_design : ℕ → Store → Bool
  unfolding name_of
  is_in_design order s = elim (row order s.orders) [
    | none ↦ false
    | some o ↦ elim (name_of o.status s.statuses) [
      | none ↦ false
      | some name ↦ contains names_in_design (to_lower_case name)
    ]
  ]

  unfoldable pub assert_order_authorized : ℕ → Action Store (Unit {0})
  unfolding is_in_design
  assert_order_authorized order = do
    in_design ← gets (is_in_design order)
    throw_if in_design bad_request

  -- From a stage of work into the review `next`.
  unfoldable pub send_to_review :
      ℕ
      → Task
      → AreaStageView
      → AreaStageView
      → Option String
      → ℕ
      → Option Photo
      → Action Store (Unit {0})
  unfolding trimmed assert_order_authorized open_sample_test_round record_sample_audit
      notify_reception_of_sample_sent
  send_to_review task_id task stage next notes user photo = do
    assert_order_authorized task.order
    throw_if (is_bad_photo photo) bad_request
    open_sample_test_round task_id stage.id next.id (trimmed notes) user (photo_name photo)
    record_sample_audit "embroidery_test_sent" task.order user
    notify_reception_of_sample_sent task.order user

  -- From the stage `stage`, which is not a review, to what follows it.
  unfoldable pub leave_stage :
      ℕ
      → Task
      → AreaStageView
      → Option AreaStageView
      → Option String
      → ℕ
      → Option Photo
      → Action Store (Unit {0})
  unfolding move_to_stage send_to_review
  leave_stage task_id task stage none notes user photo =
      throw_if (is_some photo) bad_request >> move_to_stage task_id task stage.id none user
  leave_stage task_id task stage (some next) notes user photo =
      if is_review next.kind
      then send_to_review task_id task stage next notes user photo
      else throw_if (is_some photo) bad_request
        >> move_to_stage task_id task stage.id (some next) user

  abbrev pub advance_from :
      ℕ → Task → Option AreaStageView → Option String → ℕ → Option Photo → Action Store (Unit {0})
  advance_from task_id task none notes user photo s = (err bad_request, s)
  advance_from task_id task (some stage) notes user photo s =
      if is_review stage.kind
      then (err bad_request, s)
      else leave_stage task_id task stage (next_stage (stages_of s.areas task.area) (some stage.id))
          notes user photo s

  unfoldable pub advance_stage :
      ℕ → Option String → RequestingUser → Option ℕ → Option Photo → Action Store (Unit {0})
  unfolding load_stage_task leave_stage next_stage stages_of
  advance_stage task_id notes user order photo = do
    task ← load_stage_task task_id user order
    stage ← gets (stage_of task)
    advance_from task_id task stage notes user.user_id photo
