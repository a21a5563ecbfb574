-- ===== src/Task/Status/Checks.antt =====
-- When a change of status is let through.
use backend_emd.Prelude.{
  is_empty, ℕ, ◌≡◌, ◌⊎◌, inl, inr, refl, sym, ap, ◌∙◌, nat_eq, string_eq, option_eq, true, false,
  not, ◌&&◌, ◌||◌, Option, none, some, List, [], ◌∷◌, arith, Bool-cases, Option-cases, is_some,
  String,
}
use backend_emd.Prelude.Table.{row}
use backend_emd.Http.{
  HttpError, not_found, >>=-eq_err, Result, ok, err, bad_request, Result-cases, ◌>>=◌, >>=-eq,
  guard, then_check-inv,
}
use backend_emd.Area.Access.{RequestingUser, member_of, belongs_to_area}
use backend_emd.Area.Config.{missing_required, AreaFieldView}
use backend_emd.Area.Catalog.{fields_of}
use backend_emd.Store.{AreaTaskStatus, Task, Store}
use backend_emd.Task.Guards.{
  is_manager, same_status, is_allowed, belongs_to_order, assert_valid_transition,
  assert_can_work_area, assert_not_in_stage, assert_required_fields, find_task, stage_of,
  is_pendiente, is_unclaimed,
}
use backend_emd.Task.Status.{
  Reading, begin_status, read_status, check_status, is_en_proceso, required_when_starting,
}

-- The conditions of WORKFLOW.md: the task is of the order, the user is a manager or works in the
-- area, the step is one of the cycle, no stage is open unless the task goes (back) to pending,
-- and it starts only with the required data.
pub record MayMove (status : AreaTaskStatus) (user : RequestingUser) (order : Option ℕ) (s : Store)
    (t : Task) : Type 0 where
  pub of_order : belongs_to_order t.order order ≡ true
  pub may_work : (is_manager user || belongs_to_area (member_of user) (some t.area)) ≡ true
  pub step : (same_status t.status status || is_allowed t.status status) ≡ true
  pub free : (is_some (stage_of t s) && not (is_pendiente status)) ≡ false
  pub filled :
      is_en_proceso status ≡ true → missing_required (fields_of s.areas t.area) t.field_values ≡ []

module _ (task_id : ℕ) (status : AreaTaskStatus) (user : RequestingUser) (order : Option ℕ)
    (s : Store) where
  can_work :
      (area : String)
      → (is_manager user || belongs_to_area (member_of user) (some area)) ≡ true
      → assert_can_work_area area user ≡ ok tt
  unfolding assert_can_work_area
  can_work area h = ground arith

  can_work-inv :
      (area : String)
      → assert_can_work_area area user ≡ ok tt
      → (is_manager user || belongs_to_area (member_of user) (some area)) ≡ true
  unfolding assert_can_work_area
  can_work-inv area h = ground arith

  can_step :
      (before : AreaTaskStatus)
      → (same_status before status || is_allowed before status) ≡ true
      → assert_valid_transition before status ≡ ok tt
  unfolding assert_valid_transition
  can_step before h = ground arith

  can_step-inv :
      (before : AreaTaskStatus)
      → assert_valid_transition before status ≡ ok tt
      → (same_status before status || is_allowed before status) ≡ true
  unfolding assert_valid_transition
  can_step-inv before h = ground arith

  is_free :
      (t : Task)
      → (is_some (stage_of t s) && not (is_pendiente status)) ≡ false
      → assert_not_in_stage (stage_of t s) status ≡ ok tt
  unfolding assert_not_in_stage
  is_free t h = rw h refl

  is_free-inv :
      (t : Task)
      → assert_not_in_stage (stage_of t s) status ≡ ok tt
      → (is_some (stage_of t s) && not (is_pendiente status)) ≡ false
  unfolding assert_not_in_stage
  is_free-inv t h = ground arith

  is_filled :
      (t : Task)
      → (is_en_proceso status ≡ true
          → missing_required (fields_of s.areas t.area) t.field_values ≡ [])
      → required_when_starting status t s ≡ ok tt
  unfolding assert_required_fields
  is_filled t h = elim (Bool-cases (is_en_proceso status)) [
    | inl starts ↦ rw (starts, h starts) refl
    | inr other ↦ rw other refl
  ]

  is_filled-inv :
      (t : Task)
      → required_when_starting status t s ≡ ok tt
      → is_en_proceso status ≡ true
      → missing_required (fields_of s.areas t.area) t.field_values ≡ []
  unfolding assert_required_fields
  is_filled-inv t h starts =
      nothing (missing_required (fields_of s.areas t.area) t.field_values) (rw starts at h)
    where
      nothing : (fs : List AreaFieldView) → guard (not (is_empty fs)) bad_request ≡ ok tt → fs ≡ []
      nothing [] e = refl
      nothing (f ∷ fs) e = ground arith

  check_status-eq :
      (t : Task) → MayMove status user order s t → check_status status user t s ≡ ok tt
  unfolding check_status
  check_status-eq t m =
      rw
        (
          can_work t.area m.may_work,
          can_step t.status m.step,
          is_free t m.free,
          is_filled t m.filled,
        )
        refl

  check_status-inv :
      (t : Task)
      → belongs_to_order t.order order ≡ true
      → check_status status user t s ≡ ok tt
      → MayMove status user order s t
  unfolding check_status
  check_status-inv t own h =
      let p = then_check-inv (assert_can_work_area t.area user) _ h in
      let q = then_check-inv (assert_valid_transition t.status status) _ p.1 in
      let r = then_check-inv (assert_not_in_stage (stage_of t s) status) _ q.1 in
      record {
        of_order = own;
        may_work = can_work-inv t.area p.0;
        step = can_step-inv t.status q.0;
        free = is_free-inv t r.0;
        filled = is_filled-inv t r.1;
      }

  abbrev pub reading : Task → Reading
  reading t = record {
    task = t;
    should_claim =
        is_en_proceso status
        && (belongs_to_area (member_of user) (some t.area)
            && is_unclaimed t.area t.assigned_user s);
  }

  read_status-ok :
      (t : Task)
      → check_status status user t s ≡ ok tt
      → read_status status user t s ≡ (ok (reading t), s)
  unfolding read_status
  read_status-ok t h = rw (h, read_status, ◌>>=◌) refl

  read_status-err :
      (t : Task) (e : HttpError)
      → check_status status user t s ≡ err e
      → read_status status user t s ≡ (err e, s)
  unfolding read_status
  read_status-err t e h = rw (h, read_status, ◌>>=◌) refl

  -- The checks of a change of status let it through exactly when the task exists and the change is
  -- one that the user may make, and then say who takes the task: a person of the area who starts
  -- it while nobody has it. Whatever they say, they write nothing.
  pub begin_status_cases :
      ((t : Task) × (row task_id s.tasks ≡ some t)
        × MayMove status user order s t
        × (begin_status task_id status user order s ≡ (ok (reading t), s)))
      ⊎ ((e : HttpError) × (begin_status task_id status user order s ≡ (err e, s))
          × ((t : Task) → row task_id s.tasks ≡ some t → ¬ (MayMove status user order s t)))
  unfolding begin_status find_task
  begin_status_cases = elim (Option-cases (row task_id s.tasks)) [
    | inl missing ↦ inr (
      not_found,
      >>=-eq_err (find_task task_id order) (read_status status user) s
          (rw (missing, find_task) refl),
      λ t there m. absurd (differ missing there),
    )
    | inr (t, there) ↦ elim (Bool-cases (belongs_to_order t.order order)) [
      | inr strange ↦ inr (
        not_found,
        >>=-eq_err (find_task task_id order) (read_status status user) s
            (rw (there, strange, find_task) refl),
        λ u again m. clash (
            sym strange ∙ ap (λ x. belongs_to_order x.order order) (same there again) ∙ m.of_order),
      )
      | inl own ↦
          let found : find_task task_id order s ≡ (ok t, s) = rw (there, own, find_task) refl in
          let next = >>=-eq (find_task task_id order) (read_status status user) s found in
          elim (Result-cases (check_status status user t s)) [
            | inl (u, good) ↦
                inl (t, there, check_status-inv t own good, (next ∙ read_status-ok t good))
            | inr (e, bad) ↦ inr (
              e,
              (next ∙ read_status-err t e bad),
              λ u again m. refused e (
                  sym bad
                  ∙ ap (λ x. check_status status user x s) (same there again)
                  ∙ check_status-eq u m),
            )
          ]
    ]
  ]
    where
      differ : {t : Task} → row task_id s.tasks ≡ none → row task_id s.tasks ≡ some t → ⊥
      differ p q = cc

      clash : false ≡ true → ⊥
      clash e = cc

      refused : (e : HttpError) → ◌≡◌ {A = Result (Unit {0})} (err e) (ok tt) → ⊥
      refused e h = ground arith

      same : {t u : Task} → row task_id s.tasks ≡ some t → row task_id s.tasks ≡ some u → t ≡ u
      same p q = cc
