-- ===== src/Task/Decision.antt =====
-- The decision on a review: `decideStage` of src/order/order-area-task.service.ts. A round is
-- known by its number, which is unique in its task (`@@unique([areaTaskId, round])`).
pub mod Rounds
pub mod Reviews
pub mod Opens
use backend_emd.Prelude.{
  ℕ, nat_eq, string_eq, option_eq, ◌==◌, ltb, Bool, true, false, not, ◌&&◌, Option, none, some,
  List, [], ◌∷◌, String, if◌then◌else◌, is_some,
}
use backend_emd.Prelude.Table.{Table, row, put}
use backend_emd.Http.{
  Result, ok, err, bad_request, Action, ◌>>=◌, ◌>>◌, pure, gets, modify, throw_if, or_throw,
  transaction, throw,
}
use backend_emd.Area.Access.{RequestingUser}
use backend_emd.Area.Stages.{AreaStageView, is_review, next_stage, previous_stage}
use backend_emd.Area.Catalog.{stages_of}
use backend_emd.Store.{SampleTestResult, aprobada, rechazada, SampleTest, Task, Store}
use backend_emd.Task.Guards.{load_stage_task, stage_of}
use backend_emd.Task.Notify.{notify_sample_test_result}
use backend_emd.Task.Stage.{is_open, claim_stage, change_task, id_of, trimmed, record_sample_audit}

-- The open round with the highest number, `none` if there is none.
unfoldable pub open_round : List SampleTest → Option ℕ
open_round [] = none
open_round (t ∷ tests) =
    let rest = open_round tests in
    if is_open t
    then elim rest [ none ↦ some t.round | some r ↦ if ltb r t.round then some t.round else some r ]
    else rest

-- Where a decision sends the task.
abbrev pub target_of : SampleTestResult → List AreaStageView → ℕ → Option AreaStageView
target_of aprobada stages stage = next_stage stages (some stage)
target_of rechazada stages stage = previous_stage stages stage

-- The update of the round that was found open.
abbrev pub decide_in : ℕ → SampleTestResult → Option String → ℕ → List SampleTest → List SampleTest
decide_in round result notes user [] = []
decide_in round result notes user (t ∷ tests) =
    let rest = decide_in round result notes user tests in
    if is_open t && t.round == round
    then record t { result = some result; result_notes = notes; decided_by = some user } ∷ rest
    else t ∷ rest

abbrev pub tests_of : ℕ → Store → List SampleTest
tests_of task_id s = elim (row task_id s.tasks) [ none ↦ [] | some t ↦ t.sample_tests ]

-- What follows the update that claims the stage.
unfoldable pub close_claimed :
    ℕ → SampleTestResult → Option String → ℕ → Bool → Action Store (Unit {0})
unfolding open_round
close_claimed task_id result notes user claimed = do
  throw_if (not claimed) bad_request
  found ← gets (λ s. open_round (tests_of task_id s))
  round ← or_throw found bad_request
  modify (
      change_task task_id
        (λ t. record t { sample_tests = decide_in round result notes user t.sample_tests }))

unfoldable pub close_round :
    ℕ → ℕ → Option AreaStageView → SampleTestResult → Option String → ℕ → Action Store (Unit {0})
unfolding claim_stage close_claimed
close_round task_id stage target result notes user =
    transaction
      (claim_stage task_id stage (id_of target) >>= close_claimed task_id result notes user)

abbrev pub lacks_reason : SampleTestResult → Option String → Bool
lacks_reason aprobada notes = false
lacks_reason rechazada notes = not (is_some notes)

abbrev pub result_action : SampleTestResult → String
result_action aprobada = "embroidery_test_approved"
result_action rechazada = "embroidery_test_rejected"

abbrev pub decide_from :
    ℕ → Task → Option AreaStageView → SampleTestResult → Option String → ℕ → Action Store (Unit {0})
decide_from task_id task none result notes user = throw bad_request
decide_from task_id task (some stage) result notes user =
    if is_review stage.kind
    then (do
      throw_if (lacks_reason result notes) bad_request
      stages ← gets (λ s. stages_of s.areas task.area)
      close_round task_id stage.id (target_of result stages stage.id) result notes user
      record_sample_audit (result_action result) task.order user
      notify_sample_test_result task.order task.area result user)
    else throw bad_request

unfoldable pub decide_stage :
    ℕ → SampleTestResult → Option String → RequestingUser → Option ℕ → Action Store (Unit {0})
unfolding trimmed load_stage_task previous_stage next_stage stages_of close_round
    record_sample_audit notify_sample_test_result
decide_stage task_id result notes user order = do
  task ← load_stage_task task_id user order
  stage ← gets (stage_of task)
  decide_from task_id task stage result (trimmed notes) user.user_id
