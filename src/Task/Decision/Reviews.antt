-- ===== src/Task/Decision/Reviews.antt =====
-- A task in review has one open round, and no other task has one: a decision keeps that.
use backend_emd.Prelude.{
  ℕ, suc, ◌≡◌, inl, inr, refl, ap, ◌∙◌, nat_eq, option_eq, get_elem?, true, false, Option, some,
  List, String, arith, Option-cases, if◌then◌else◌,
}
use backend_emd.Prelude.Table.{row, put, row-put_self}
use backend_emd.Http.{ok, Action, ◌>>=◌, ◌>>◌, >>=-eq, >>=-eq-of-ok, settle}
use backend_emd.Area.Access.{RequestingUser}
use backend_emd.Area.Catalog.{stages_of}
use backend_emd.Area.Stages.{AreaStageView, StageKind, work, review, is_review}
use backend_emd.Area.Stages.Order.{
  HasDistinctIds, ReviewsFollowWork, kinds_of, get_elem?-kinds_of, previous_stage-next_stage,
  next_stage-get_elem?,
}
use backend_emd.Store.{SampleTestResult, aprobada, rechazada, Task, Store}
use backend_emd.Task.Stage.{id_of, is_review_stage, claim_stage, trimmed, record_sample_audit}
use backend_emd.Task.Stage.Reached.{IsReached, after_load, audited}
use backend_emd.Task.Notify.{notify_sample_test_result}
use backend_emd.Task.Notify.Frame.{
  notify_sample_test_result-OnlyTells, notify_sample_test_result-ok,
}
use backend_emd.Task.Stage.Rows.{change_task-eq, claim_stage-eq}
use backend_emd.Task.Decision.{
  open_round, target_of, decide_in, close_claimed, close_round, lacks_reason, result_action,
  decide_from, decide_stage,
}
use backend_emd.Task.Decision.Rounds.{open_count, open_round-some, open_count-decide_in}

-- One round is open in a review and none elsewhere.
abbrev pub HasItsRound : Option AreaStageView → Task → Type 0
HasItsRound stage t = open_count t.sample_tests ≡ (if is_review_stage stage then 1 else 0)

module _ (stages : List AreaStageView) (i : ℕ) (stage : AreaStageView)
    (distinct : HasDistinctIds stages) (follows : ReviewsFollowWork (kinds_of stages))
    (at : get_elem? stages i ≡ some stage) (is_rev : stage.kind ≡ review) where
  -- After a review comes work or production, and before it there is work.
  pub target_of-work :
      (result : SampleTestResult) → is_review_stage (target_of result stages stage.id) ≡ false
  target_of-work rechazada =
      let (w, before, is_work, _) =
        previous_stage-next_stage stages i stage distinct follows at is_rev in
      rw (before, is_work) refl
  target_of-work aprobada =
      rw (next_stage-get_elem? stages i stage distinct at)
        (elim (Option-cases (get_elem? stages (suc i))) [
          | inl last ↦ rw last refl
          | inr (v, next) ↦ rw next (by_kind v next v.kind refl)
        ])
    where
      by_kind :
          (v : AreaStageView)
          → get_elem? stages (suc i) ≡ some v
          → (k : StageKind) → v.kind ≡ k
          → is_review v.kind ≡ false
      by_kind v next work e = rw e refl
      by_kind v next review e =
          let (j, same, is_work) =
            follows (suc i) (get_elem?-kinds_of stages (suc i) v next ∙ ap some e) in
          ground (arith, get_elem?-kinds_of stages i stage at, same, is_work, is_rev)

module _ (task_id stage : ℕ) (target : Option AreaStageView) (result : SampleTestResult)
    (notes : Option String) (user : ℕ) where
  -- The task after the decision on the round.
  abbrev pub decided : ℕ → Task → Task
  decided round t = record t {
    stage = id_of target;
    sample_tests = decide_in round result notes user t.sample_tests;
  }

  close_claimed-eq :
      (s : Store) (t : Task) (round : ℕ)
      → row task_id s.tasks ≡ some t
      → open_round t.sample_tests ≡ some round
      → close_claimed task_id result notes user true s ≡ (
        ok tt,
        record s {
          tasks =
              put task_id
                (record t { sample_tests = decide_in round result notes user t.sample_tests })
                s.tasks;
        },
      )
  unfolding close_claimed
  close_claimed-eq s t round there opened =
      rw (there, opened, close_claimed, ◌>>=◌)
        (ap (λ x. (ok tt, x))
          (change_task-eq task_id s t there
            (λ x. record x { sample_tests = decide_in round result notes user x.sample_tests })))

  close_round-eq :
      (s : Store) (t : Task) (round : ℕ)
      → row task_id s.tasks ≡ some t
      → t.stage ≡ some stage
      → open_round t.sample_tests ≡ some round
      → close_round task_id stage target result notes user s ≡ (
        ok tt,
        record s {
          tasks =
              put task_id
                (decided round t)
                (put task_id (record t { stage = id_of target }) s.tasks);
        },
      )
  unfolding close_round
  close_round-eq s t round there in_stage opened =
      let t1 = record t { stage = id_of target } in
      let s1 = record s { tasks = put task_id t1 s.tasks } in
      ap (settle s) (
        >>=-eq (claim_stage task_id stage (id_of target)) (close_claimed task_id result notes user)
          s (claim_stage-eq task_id s t there stage (id_of target) in_stage)
        ∙ close_claimed-eq s1 t1 round (row-put_self task_id t1 s.tasks) opened)

  close_round-closes :
      (s : Store) (t : Task)
      → row task_id s.tasks ≡ some t
      → t.stage ≡ some stage
      → open_count t.sample_tests ≡ 1
      → let (r, s') = close_round task_id stage target result notes user s in
        (r ≡ ok tt)
        × (t' : Task) × (row task_id s'.tasks ≡ some t')
        × (t'.stage ≡ id_of target)
        × (open_count t'.sample_tests ≡ 0)
  close_round-closes s t there in_stage one =
      let (round, opened) = open_round-some t.sample_tests one in
      rw (close_round-eq s t round there in_stage opened) (
        refl,
        decided round t,
        row-put_self task_id (decided round t) _,
        refl,
        open_count-decide_in result notes user round t.sample_tests opened one,
      )

-- What a decision leaves of the task, which goes on to `target`.
abbrev pub IsDecided : ℕ → Option AreaStageView → Store → Type 0
IsDecided task_id target s' =
    (t' : Task) × (row task_id s'.tasks ≡ some t')
    × (t'.stage ≡ id_of target)
    × HasItsRound target t'

close_round-HasItsRound :
    (stages : List AreaStageView) (i : ℕ) (stage : AreaStageView)
    → HasDistinctIds stages
    → ReviewsFollowWork (kinds_of stages)
    → get_elem? stages i ≡ some stage
    → stage.kind ≡ review
    → (task_id : ℕ) (result : SampleTestResult) (notes : Option String) (user : ℕ) (s : Store)
      (t : Task)
    → row task_id s.tasks ≡ some t
    → t.stage ≡ some stage.id
    → HasItsRound (some stage) t
    → let target = target_of result stages stage.id in
      let (r, s') = close_round task_id stage.id target result notes user s in
      (r ≡ ok tt) × IsDecided task_id target s'
close_round-HasItsRound stages i stage distinct follows at is_rev task_id result notes user s t
      there in_stage has =
    let target = target_of result stages stage.id in
    let one : open_count t.sample_tests ≡ 1 = rw is_rev at has in
    let (done, t', found, goes, closed) =
      close_round-closes task_id stage.id target result notes user s t there in_stage one in
    (
      done,
      (
        t',
        found,
        goes,
        rw (target_of-work stages i stage distinct follows at is_rev result) closed,
      ),
    )

pub decide_stage-HasItsRound :
    (task_id : ℕ) (result : SampleTestResult) (notes : Option String) (user : RequestingUser)
    (order : Option ℕ) (t : Task) (i : ℕ) (stage : AreaStageView) (s : Store)
    → IsReached task_id user order t i stage s
    → stage.kind ≡ review
    → lacks_reason result (trimmed notes) ≡ false
    → HasItsRound (some stage) t
    → let (r, s') = decide_stage task_id result notes user order s in
      (r ≡ ok tt) × IsDecided task_id (target_of result (stages_of s.areas t.area) stage.id) s'
unfolding decide_stage
decide_stage-HasItsRound task_id result notes user order t i stage s h is_rev reason has =
    let (done, (t', found, goes, its)) =
      close_round-HasItsRound (stages_of s.areas t.area) i stage h.distinct h.follows h.at is_rev
        task_id result (trimmed notes) user.user_id s t h.there h.in_stage has in
    let s1 = (close s).1 in
    let (told, same) =
      audited (result_action result) t.order user.user_id note
        (notify_sample_test_result-OnlyTells t.order t.area result user.user_id)
        (notify_sample_test_result-ok t.order t.area result user.user_id) s1 in
    rw whole (
      rw (>>=-eq-of-ok close (λ _. tail) s done)
        (told, (t', ap (row task_id) same ∙ found, goes, its)))
  where
    close : Action Store (Unit {0})
    close =
        close_round task_id stage.id (target_of result (stages_of s.areas t.area) stage.id) result
          (trimmed notes) user.user_id

    note : Action Store (Unit {0})
    note = notify_sample_test_result t.order t.area result user.user_id

    tail : Action Store (Unit {0})
    tail = record_sample_audit (result_action result) t.order user.user_id >> note

    opened :
        decide_from task_id t (some stage) result (trimmed notes) user.user_id s ≡ (close >> tail) s
    opened = rw (is_rev, reason) refl

    whole : decide_stage task_id result notes user order s ≡ (close >> tail) s
    whole =
        after_load task_id user order t i stage s h
          (λ task at. decide_from task_id task at result (trimmed notes) user.user_id)
        ∙ opened
