-- ===== src/Task/Tests/Reviews.antt =====
-- A task on its way through the stages of embroidery; the theorems at these stores.
use backend_emd.Prelude.{
  zero, suc, ◌≡◌, refl, nat_eq, string_eq, option_eq, none, some, List, [], ◌∷◌, arith, false, true,
  get_elem?,
}
use backend_emd.Http.{ok}
use backend_emd.Area.Access.{belongs_to_area}
use backend_emd.Area.Stages.{AreaStageView, work, review}
use backend_emd.Area.Stages.Order.{HasDistinctIds, ReviewsFollowWork, kinds_of}
use backend_emd.Area.Catalog.{AreaView, stages_of}
use backend_emd.Store.{pendiente, SampleTest, rechazada, Task, Store}
use backend_emd.Task.Guards.{belongs_to_order, assert_can_work_area}
use backend_emd.Task.Stage.{trimmed, is_in_design, advance_stage}
use backend_emd.Task.Stage.Reached.{IsReached}
use backend_emd.Task.Decision.Opens.{IsOpened, advance_stage-opens}
use backend_emd.Task.Decision.{target_of, lacks_reason, decide_stage}
use backend_emd.Task.Decision.Rounds.{open_count}
use backend_emd.Task.Decision.Reviews.{HasItsRound, IsDecided, decide_stage-HasItsRound}
use backend_emd.Notification.Others.{TellsOthers}
use backend_emd.Task.Notify.{notify_sample_test_result}
use backend_emd.Task.Notify.Own.{notify_sample_test_result-SparesActor}
use backend_emd.Task.Tests.{task_in, store, embroiderer}

abbrev digitizing : AreaStageView
digitizing = record { id = 5; key = "digitalizado"; name = "Digitalizado"; kind = work }

abbrev sample_test : AreaStageView
sample_test = record { id = 6; key = "pruebas"; name = "Pruebas"; kind = review }

abbrev embroidery : List AreaStageView
embroidery = digitizing ∷ sample_test ∷ []

embroidery-HasDistinctIds : HasDistinctIds embroidery
embroidery-HasDistinctIds = (((λ e. omega arith), tt), (tt, tt))

embroidery-ReviewsFollowWork : ReviewsFollowWork (kinds_of embroidery)
embroidery-ReviewsFollowWork zero e = ground arith
embroidery-ReviewsFollowWork (suc zero) e = (0, refl, refl)
embroidery-ReviewsFollowWork (suc (suc i)) e = ground arith

abbrev first_round : SampleTest
first_round = record {
  round = 1;
  sent_by = 3;
  sent_notes = none;
  photo = none;
  result = none;
  result_notes = none;
  decided_by = none;
}

abbrev tested : Task
tested = record (task_in "bordado" pendiente) { stage = some 6; sample_tests = first_round ∷ [] }

abbrev bordado : AreaView
bordado = record {
  slug = "bordado";
  name = "Bordado";
  is_design = false;
  is_production_destination = true;
  has_inventory = true;
  active = true;
  stages = embroidery;
  machines = [];
  fields = [];
}

abbrev shop : Store
shop = record store { areas = bordado ∷ []; stages = (5, digitizing) ∷ (6, sample_test) ∷ [] }

abbrev review_store : Store
review_store = record shop { tasks = (7, tested) ∷ [] }

tested-IsReached : IsReached 7 embroiderer (some 40) tested 1 sample_test review_store
unfolding belongs_to_order assert_can_work_area belongs_to_area stages_of
tested-IsReached = record {
  there = refl;
  own = refl;
  may = refl;
  in_stage = refl;
  known = refl;
  at = refl;
  distinct = embroidery-HasDistinctIds;
  follows = embroidery-ReviewsFollowWork;
}

tested-HasItsRound : HasItsRound (some sample_test) tested
unfolding open_count
tested-HasItsRound = refl

gives_reason : lacks_reason rechazada (trimmed (some "hilo flojo")) ≡ false
unfolding trimmed
gives_reason = refl

decide_stage-HasItsRound_example :
    let (r, s') = decide_stage 7 rechazada (some "hilo flojo") embroiderer (some 40) review_store in
    (r ≡ ok tt) × IsDecided 7 (target_of rechazada (stages_of review_store.areas "bordado") 6) s'
decide_stage-HasItsRound_example =
    decide_stage-HasItsRound 7 rechazada (some "hilo flojo") embroiderer (some 40) tested 1
      sample_test review_store tested-IsReached refl gives_reason tested-HasItsRound

abbrev digitized : Task
digitized = record (task_in "bordado" pendiente) { stage = some 5 }

abbrev digitized_store : Store
digitized_store = record shop { tasks = (7, digitized) ∷ [] }

digitized-closed : open_count digitized.sample_tests ≡ 0
unfolding open_count
digitized-closed = refl

digitized-IsReached : IsReached 7 embroiderer (some 40) digitized 0 digitizing digitized_store
unfolding belongs_to_order assert_can_work_area belongs_to_area stages_of
digitized-IsReached = record {
  there = refl;
  own = refl;
  may = refl;
  in_stage = refl;
  known = refl;
  at = refl;
  distinct = embroidery-HasDistinctIds;
  follows = embroidery-ReviewsFollowWork;
}

tests_follow : get_elem? (stages_of digitized_store.areas "bordado") 1 ≡ some sample_test
unfolding stages_of
tests_follow = refl

out_of_design : is_in_design (λ s. s) 40 digitized_store ≡ false
unfolding is_in_design
out_of_design = refl

advance_stage-opens_example :
    let (r, s') =
      advance_stage (λ s. s) 7 (some "listo") embroiderer (some 40) none digitized_store in
    (r ≡ ok tt) × IsOpened 7 6 digitized s'
advance_stage-opens_example =
    advance_stage-opens (λ s. s) 7 (some "listo") embroiderer (some 40) none digitized 0 digitizing
      sample_test digitized_store digitized-IsReached refl tests_follow refl out_of_design refl
      digitized-closed

notify_sample_test_result-SparesActor_example :
    TellsOthers 2 store (notify_sample_test_result 40 "bordado" rechazada 2 store).1
notify_sample_test_result-SparesActor_example =
    notify_sample_test_result-SparesActor 2 40 "bordado" rechazada store
