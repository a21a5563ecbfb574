-- ===== src/Task/Decision/Opens.antt =====
-- Sending a task to review opens its round.
use backend_emd.Prelude.{
  ℕ, suc, ◌≡◌, refl, ap, ◌∙◌, nat_eq, option_eq, true, false, ◌∙◌, get_elem?, Option, none, some,
  List, [], ◌∷◌, ◌++◌, String, arith, All, ◌<◌,
}
use backend_emd.Prelude.Table.{row, put, row-put_self}
use backend_emd.Http.{ok, bad_request, throw_if, Action, ◌>>◌, >>=-eq, >>=-eq-of-ok, settle}
use backend_emd.Area.Access.{RequestingUser}
use backend_emd.Area.Stages.{AreaStageView, work, review, next_stage}
use backend_emd.Area.Stages.Order.{next_stage-get_elem?}
use backend_emd.Area.Catalog.{stages_of}
use backend_emd.Task.Notify.{notify_reception_of_sample_sent}
use backend_emd.Task.Notify.Frame.{
  notify_reception_of_sample_sent-OnlyTells, notify_reception_of_sample_sent-ok,
}
use backend_emd.Task.Stage.Reached.{IsReached, after_load, audited}
use backend_emd.Store.{SampleTest, Task, Store}
use backend_emd.Task.Stage.{
  Photo, trimmed, photo_name, is_bad_photo, is_in_design, record_sample_audit, advance_from,
  advance_stage, leave_stage, send_to_review, assert_order_authorized, claim_stage, last_round,
  open_claimed, open_sample_test_round, with_round,
}
use backend_emd.Task.Decision.Rounds.{open_count, open_count-append}
use backend_emd.Task.Stage.Rows.{change_task-eq, claim_stage-eq}

last_round-covers :
    (n : ℕ) (tests : List SampleTest) → last_round tests < n → All (λ t. t.round < n) tests
unfolding last_round
last_round-covers n [] h = tt
last_round-covers n (t ∷ tests) h = (ground arith, last_round-covers n tests (ground arith))

one_more :
    (tests : List SampleTest) (new : SampleTest)
    → open_count tests ≡ 0
    → new.result ≡ none
    → open_count (tests ++ new ∷ []) ≡ 1
unfolding open_count
one_more tests new h e = ground (arith, open_count-append tests (new ∷ []))

-- In `s'` the task `t` is in the review `after`, with a new round that is the only open one.
abbrev pub IsOpened : ℕ → ℕ → Task → Store → Type 0
IsOpened task_id after t s' =
    (t' : Task) × (row task_id s'.tasks ≡ some t')
    × (t'.stage ≡ some after)
    × (open_count t'.sample_tests ≡ 1)
    × (new : SampleTest) × (t'.sample_tests ≡ t.sample_tests ++ new ∷ [])
    × All (λ old. old.round < new.round) t.sample_tests

module _ (task_id before after : ℕ) (notes : Option String) (user : ℕ) (photo : Option String) where
  open_claimed-eq :
      (s : Store) (t : Task)
      → row task_id s.tasks ≡ some t
      → open_claimed task_id notes user photo true s
        ≡ (ok tt, record s { tasks = put task_id (with_round notes photo user t) s.tasks })
  unfolding open_claimed
  open_claimed-eq s t there =
      ap (λ x. (ok tt, x)) (change_task-eq task_id s t there (with_round notes photo user))

  open_sample_test_round-eq :
      (s : Store) (t : Task)
      → row task_id s.tasks ≡ some t
      → t.stage ≡ some before
      → let t1 = record t { stage = some after } in
        open_sample_test_round task_id before after notes user photo s ≡ (
          ok tt,
          record s {
            tasks = put task_id (with_round notes photo user t1) (put task_id t1 s.tasks);
          },
        )
  unfolding open_sample_test_round
  open_sample_test_round-eq s t there in_stage =
      let t1 = record t { stage = some after } in
      let s1 = record s { tasks = put task_id t1 s.tasks } in
      ap (settle s) (
        >>=-eq (claim_stage task_id before (some after)) (open_claimed task_id notes user photo) s
          (claim_stage-eq task_id s t there before (some after) in_stage)
        ∙ open_claimed-eq s1 t1 (row-put_self task_id t1 s.tasks))

  open_sample_test_round-opens :
      (s : Store) (t : Task)
      → row task_id s.tasks ≡ some t
      → t.stage ≡ some before
      → open_count t.sample_tests ≡ 0
      → let (r, s') = open_sample_test_round task_id before after notes user photo s in
        (r ≡ ok tt) × IsOpened task_id after t s'
  open_sample_test_round-opens s t there in_stage closed =
      let t1 = record t { stage = some after } in
      let t2 = with_round notes photo user t1 in
      rw (open_sample_test_round-eq s t there in_stage) (
        refl,
        (
          t2,
          row-put_self task_id t2 _,
          refl,
          one_more t.sample_tests _ closed refl,
          _,
          refl,
          last_round-covers (suc (last_round t.sample_tests)) t.sample_tests (omega arith),
        ),
      )

-- A request to advance a task without an open round, from a stage of work that a review follows,
-- succeeds: the task is in that review, and has one round more after all the others, which is the
-- only open one and has a higher number than each of them. The user may work in the area, the task
-- is of the order that the request names, the order has left Design, and a photo that comes with it
-- is valid; the area's stages have distinct ids, and its reviews follow work.
pub advance_stage-opens :
    (to_lower_case : String → String) (task_id : ℕ) (notes : Option String) (user : RequestingUser)
    (order : Option ℕ) (photo : Option Photo) (t : Task) (i : ℕ) (stage next : AreaStageView)
    (s : Store)
    → IsReached task_id user order t i stage s
    → stage.kind ≡ work
    → get_elem? (stages_of s.areas t.area) (suc i) ≡ some next
    → next.kind ≡ review
    → is_in_design to_lower_case t.order s ≡ false
    → is_bad_photo photo ≡ false
    → open_count t.sample_tests ≡ 0
    → let (r, s') = advance_stage to_lower_case task_id notes user order photo s in
      (r ≡ ok tt) × IsOpened task_id next.id t s'
unfolding advance_stage leave_stage send_to_review assert_order_authorized
advance_stage-opens to_lower_case task_id notes user order photo t i stage next s h is_work follows
      is_rev left fine closed =
    let (done, (t', found, goes, one, new, added, after)) =
      open_sample_test_round-opens task_id stage.id next.id (trimmed notes) user.user_id
        (photo_name photo) s t h.there h.in_stage closed in
    let s1 = (open_round s).1 in
    let (told, same) =
      audited "embroidery_test_sent" t.order user.user_id note
        (notify_reception_of_sample_sent-OnlyTells t.order user.user_id)
        (notify_reception_of_sample_sent-ok t.order user.user_id) s1 in
    rw whole (
      rw (>>=-eq-of-ok open_round (λ _. tail) s done)
        (told, (t', ap (row task_id) same ∙ found, goes, one, new, added, after)))
  where
    open_round : Action Store (Unit {0})
    open_round =
        open_sample_test_round task_id stage.id next.id (trimmed notes) user.user_id
          (photo_name photo)

    note : Action Store (Unit {0})
    note = notify_reception_of_sample_sent t.order user.user_id

    tail : Action Store (Unit {0})
    tail = record_sample_audit "embroidery_test_sent" t.order user.user_id >> note

    next_is : next_stage (stages_of s.areas t.area) (some stage.id) ≡ some next
    next_is = next_stage-get_elem? (stages_of s.areas t.area) i stage h.distinct h.at ∙ follows

    authorized : assert_order_authorized to_lower_case t.order s ≡ (ok tt, s)
    authorized = rw (left, assert_order_authorized) refl

    sent :
        (x y : AreaStageView)
        → send_to_review to_lower_case task_id t x y notes user.user_id photo s
          ≡ (open_sample_test_round task_id x.id y.id
                  (trimmed notes)
                  user.user_id
                  (photo_name photo)
                >> tail)
              s
    sent x y =
        >>=-eq (assert_order_authorized to_lower_case t.order)
          (λ _.
            throw_if (is_bad_photo photo) bad_request
            >> (open_sample_test_round task_id x.id y.id (trimmed notes) user.user_id
                  (photo_name photo)
                >> tail))
          s authorized
        ∙ rw fine refl

    opened :
        advance_from to_lower_case task_id t (some stage) notes user.user_id photo s
        ≡ (open_round >> tail) s
    opened =
        rw (is_work, next_is, is_rev)
          (sent (record stage { kind = work }) (record next { kind = review }))

    whole : advance_stage to_lower_case task_id notes user order photo s ≡ (open_round >> tail) s
    whole =
        after_load task_id user order t i stage s h
          (λ task at. advance_from to_lower_case task_id task at notes user.user_id photo)
        ∙ opened
