-- ===== src/Orders/Answers/Once.antt =====
-- A round is answered once: after an answer the order does not wait for one
-- (src/order/order.service.ts).
use backend_emd.Prelude.{
  ℕ, ◌≡◌, refl, ◌∙◌, inl, inr, nat_eq, string_eq, ◌==◌, true, false, some, List, String, Bool-cases,
  Option-cases,
}
use backend_emd.Prelude.Table.{row}
use backend_emd.Http.{
  HttpError, Result, ok, err, conflict, not_found, Action, ◌>>=◌, ◌>>◌, pure, check, >>=-eq,
  >>=-eq_err, >>=-inv,
}
use backend_emd.Area.Access.{RequestingUser}
use backend_emd.Store.{DesignRevision, Store}
use backend_emd.Orders.Access.{assert_order_access}
use backend_emd.Orders.Access.Outcomes.{assert_order_access_cases}
use backend_emd.Orders.Rounds.{
  is_awaiting, revision_to_answer, revision_awaiting, judged, assert_revision_awaiting_response,
  get_design_revision_or_throw, is_answered, has_newer, status_name_esperando_autorizacion,
  status_name_cambios_solicitados,
}
use backend_emd.Orders.Rounds.Awaiting.{HasDistinctIds}
use backend_emd.Task.Sync.{id_for, status_name_autorizado}
use backend_emd.Orders.Answers.Reads.{
  feedback_guards-ReadsOnly, approval_guards-ReadsOnly, with_status-ReadsOnly, with_status-inv,
}
use backend_emd.Orders.Answers.Idle.{commit_feedback-idle, commit_approval-idle}
use backend_emd.Orders.Answers.{
  feedback_files_of, Feedback, Approval, with_status, feedback_guards, commit_feedback,
  add_design_feedback, approve_design_revision, approval_guards, approval_plan, commit_approval,
}

module _ (lower : String → String) where
  stale :
      (order : ℕ) (r : DesignRevision) (s : Store)
      → is_awaiting lower order s ≡ false
      → assert_revision_awaiting_response lower order r s ≡ err conflict
  unfolding assert_revision_awaiting_response
  stale order r s idle = elim (Bool-cases (is_answered r)) [
    | inl old ↦ rw old refl
    | inr new ↦ elim (Bool-cases (has_newer order r.round s.revisions)) [
      | inl newer ↦ rw (new, newer) refl
      | inr last ↦ rw (new, last, idle) refl
    ]
  ]

  not_awaiting :
      (order id : ℕ) (s : Store)
      → is_awaiting lower order s ≡ false
      → (e : HttpError) × (revision_awaiting lower order id s ≡ (err e, s))
  unfolding revision_awaiting get_design_revision_or_throw
  not_awaiting order id s idle = elim (Option-cases (row id s.revisions)) [
    | inl missing ↦ (not_found, none_there (rw (missing, get_design_revision_or_throw) refl))
    | inr (r, there) ↦ elim (Bool-cases (r.order == order)) [
      | inl own ↦ (
        conflict,
        >>=-eq (get_design_revision_or_throw order id) (judged lower order) s (found r there own)
            ∙ rw (stale order r s idle) refl,
      )
      | inr strange ↦
          (not_found, none_there (rw (there, strange, get_design_revision_or_throw) refl))
    ]
  ]
    where
      found :
          (r : DesignRevision)
          → row id s.revisions ≡ some r
          → (r.order == order) ≡ true
          → get_design_revision_or_throw order id s ≡ (ok r, s)
      found r there own = rw (there, own, get_design_revision_or_throw) refl

      none_there :
          get_design_revision_or_throw order id s ≡ (err not_found, s)
          → revision_awaiting lower order id s ≡ (err not_found, s)
      none_there = >>=-eq_err (get_design_revision_or_throw order id) (judged lower order) s

  -- An order that does not wait for an answer gets none.
  refuses :
      (order id : ℕ) (user : RequestingUser) (s : Store)
      → is_awaiting lower order s ≡ false
      → (e : HttpError) × (revision_to_answer lower order id user s ≡ (err e, s))
  unfolding revision_to_answer
  refuses order id user s idle = elim (assert_order_access_cases order (some user) s) [
    | inr (e, failed, unseen) ↦ (
      e,
      >>=-eq_err (assert_order_access order (some user)) (λ _. revision_awaiting lower order id) s
          failed,
    )
    | inl (o, seen, fine) ↦
        let (e, failed) = not_awaiting order id s idle in
        (
          e,
          >>=-eq (assert_order_access order (some user)) (λ _. revision_awaiting lower order id) s
                fine
              ∙ failed,
        )
  ]

-- What the client said, and a request to record it.
pub data Answer : Type 0 where
  feedback : Feedback → Answer
  approval : Approval → Answer

module _ (lower : String → String) (assert_files_valid : List String → Result (Unit {0})) where
  unfoldable pub answer : ℕ → ℕ → Answer → RequestingUser → ℕ → Action Store (Unit {0})
  unfolding add_design_feedback approve_design_revision
  answer order id (feedback dto) user now =
      add_design_feedback lower assert_files_valid order id dto user
  answer order id (approval dto) user now =
      approve_design_revision lower order id dto user now >> pure tt

  stops :
      {A : Type 0} {e : HttpError} (name : String) (m : Action Store A) (s : Store)
      → m s ≡ (err e, s)
      → with_status name m s ≡ (err e, s)
  stops name m s = >>=-eq_err m (λ found. id_for name >>= λ status. pure (found, status)) s

  module _ (order : ℕ) where
    answer_refused :
        (id : ℕ) (a : Answer) (user : RequestingUser) (now : ℕ) (s : Store)
        → is_awaiting lower order s ≡ false
        → (e : HttpError) × (answer order id a user now s ≡ (err e, s))
    unfolding answer add_design_feedback approve_design_revision feedback_guards approval_guards
    answer_refused id (feedback dto) user now s idle =
        let (e, failed) = refuses lower order id user s idle in
        (
          e,
          >>=-eq_err
              (with_status status_name_cambios_solicitados
                (feedback_guards lower assert_files_valid order id dto user))
              (commit_feedback order id user.user_id dto) s
              (stops status_name_cambios_solicitados
                (feedback_guards lower assert_files_valid order id dto user) s
                (>>=-eq_err (revision_to_answer lower order id user)
                  (λ r.
                    check (feedback_files_of assert_files_valid dto) >>= λ files. pure (r, files))
                  s failed)),
        )
    answer_refused id (approval dto) user now s idle =
        let (e, failed) = refuses lower order id user s idle in
        (
          e,
          >>=-eq_err (approve_design_revision lower order id dto user now) (λ _. pure tt) s
              (>>=-eq_err
                (with_status status_name_autorizado (approval_guards lower order id dto user))
                (commit_approval order id user.user_id dto now) s
                (stops status_name_autorizado (approval_guards lower order id dto user) s (
                  >>=-eq_err (revision_to_answer lower order id user) (approval_plan order dto) s
                    failed))),
        )

    answer-idle :
        (id : ℕ) (a : Answer) (user : RequestingUser) (now : ℕ) (s : Store)
        → HasDistinctIds s.statuses
        → (lower status_name_cambios_solicitados == status_name_esperando_autorizacion) ≡ false
        → (lower status_name_autorizado == status_name_esperando_autorizacion) ≡ false
        → (answer order id a user now s).0 ≡ ok tt
        → is_awaiting lower order (answer order id a user now s).1 ≡ false
    unfolding answer add_design_feedback approve_design_revision
    answer-idle id (feedback dto) user now s distinct changes approved h =
        let m =
          with_status status_name_cambios_solicitados
            (feedback_guards lower assert_files_valid order id dto user) in
        let reads = feedback_guards-ReadsOnly lower assert_files_valid order id dto user in
        let (((r, files), status), found, _, whole) =
          >>=-inv m (commit_feedback order id user.user_id dto) s h in
        let known =
          with_status-inv status_name_cambios_solicitados
            (feedback_guards lower assert_files_valid order id dto user) reads s (r, files) status
            found in
        let same =
          with_status-ReadsOnly status_name_cambios_solicitados
            (feedback_guards lower assert_files_valid order id dto user) reads s in
        rw (whole, same)
          (commit_feedback-idle lower order s distinct id user.user_id status dto r files
            status_name_cambios_solicitados known changes)
    answer-idle id (approval dto) user now s distinct changes approved h =
        let g = approval_guards lower order id dto user in
        let m = with_status status_name_autorizado g in
        let reads = approval_guards-ReadsOnly lower order id dto user in
        let commit = commit_approval order id user.user_id dto now in
        let (w, done, _, kept) =
          >>=-inv (approve_design_revision lower order id dto user now) (λ _. pure tt) s h in
        let ((p, status), found, fine, whole) = >>=-inv m commit s done in
        let known = with_status-inv status_name_autorizado g reads s p status found in
        let same = with_status-ReadsOnly status_name_autorizado g reads s in
        rw (kept, whole, same)
          (commit_approval-idle lower order s distinct id user.user_id now status dto p
            status_name_autorizado w known approved (rw same at fine))

    -- A round is answered once: after an answer has been recorded for an order, by feedback or by an
    -- approval, every further answer to any round of the order fails and changes nothing, whoever
    -- sends it and whatever it says. No two statuses have one id, and the names of the two statuses
    -- that an answer gives are not, in lower case, the name of the one that waits.
    pub answer_again :
        (id id' : ℕ) (a a' : Answer) (user user' : RequestingUser) (now now' : ℕ) (s : Store)
        → HasDistinctIds s.statuses
        → (lower status_name_cambios_solicitados == status_name_esperando_autorizacion) ≡ false
        → (lower status_name_autorizado == status_name_esperando_autorizacion) ≡ false
        → (answer order id a user now s).0 ≡ ok tt
        → let s' = (answer order id a user now s).1 in
          (e : HttpError) × (answer order id' a' user' now' s' ≡ (err e, s'))
    answer_again id id' a a' user user' now now' s distinct changes approved h =
        answer_refused id' a' user' now' (answer order id a user now s).1
          (answer-idle id a user now s distinct changes approved h)
