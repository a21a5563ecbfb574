-- ===== src/Orders/Answers/Reads.antt =====
-- The guards of an answer write nothing, and the status is the stored one of its name.
use native.Mathlib.Omega.{arith}
use backend_emd.Prelude.{
  ℕ, ◌≡◌, refl, ap, ◌∙◌, subst, inl, inr, nat_eq, ◌==◌, Option, some, List, String, Bool-cases,
  Option-cases, Option-cases,
}
use backend_emd.Prelude.Table.{row}
use backend_emd.Http.{
  Result, ok, err, internal, Action, ◌>>=◌, ◌>>◌, pure, gets, check, >>=-inv, ReadsOnly,
  ReadsOnly->>=,
}
use backend_emd.Area.Access.{RequestingUser}
use backend_emd.Area.Config.{value_at}
use backend_emd.Store.{DesignRevision, Store}
use backend_emd.Task.Sync.{id_for}
use backend_emd.Orders.Access.{assert_order_access}
use backend_emd.Orders.Access.Outcomes.{assert_order_access_cases}
use backend_emd.Orders.Rounds.{
  get_design_revision_or_throw, judged, revision_awaiting, revision_to_answer,
  assert_revision_awaiting_response,
}
use backend_emd.Orders.Answers.{
  Feedback, Approval, with_status, feedback_guards, feedback_files_of, approval_guards,
  approval_plan,
}

pub assert_order_access-ReadsOnly :
    (order : ℕ) (user : Option RequestingUser) → ReadsOnly (assert_order_access order user)
assert_order_access-ReadsOnly order user s = elim (assert_order_access_cases order user s) [
  | inl (o, seen, e) ↦ ap (λ p. p.1) e
  | inr (e, failed, unseen) ↦ ap (λ p. p.1) failed
]

get_design_revision_or_throw-ReadsOnly :
    (order id : ℕ) → ReadsOnly (get_design_revision_or_throw order id)
unfolding get_design_revision_or_throw
get_design_revision_or_throw-ReadsOnly order id s = elim (Option-cases (row id s.revisions)) [
  | inl missing ↦ rw (missing, get_design_revision_or_throw) refl
  | inr (r, there) ↦ elim (Bool-cases (r.order == order)) [
    | inl own ↦ rw (there, own, get_design_revision_or_throw) refl
    | inr strange ↦ rw (there, strange, get_design_revision_or_throw) refl
  ]
]

approval_plan-ReadsOnly :
    (order : ℕ) (dto : Approval) (r : DesignRevision) → ReadsOnly (approval_plan order dto r)
unfolding approval_plan
approval_plan-ReadsOnly order dto r s = ground arith

module _ (lower : String → String) where
  pub revision_to_answer-ReadsOnly :
      (order id : ℕ) (user : RequestingUser) → ReadsOnly (revision_to_answer lower order id user)
  unfolding revision_to_answer revision_awaiting
  revision_to_answer-ReadsOnly order id user =
      ReadsOnly->>= (assert_order_access order (some user)) (λ _. revision_awaiting lower order id)
        (assert_order_access-ReadsOnly order (some user))
        (λ _.
          ReadsOnly->>= (get_design_revision_or_throw order id) (judged lower order)
            (get_design_revision_or_throw-ReadsOnly order id)
            (λ r.
              ReadsOnly->>= (gets (assert_revision_awaiting_response lower order r))
                (λ verdict. check verdict >> pure r) (λ _. refl)
                (λ verdict. ReadsOnly->>= (check verdict) (λ _. pure r) (λ _. refl) (λ _ _. refl))))

  pub feedback_guards-ReadsOnly :
      (assert_files_valid : List String → Result (Unit {0})) (order id : ℕ) (dto : Feedback)
      (user : RequestingUser)
      → ReadsOnly (feedback_guards lower assert_files_valid order id dto user)
  unfolding feedback_guards
  feedback_guards-ReadsOnly assert_files_valid order id dto user =
      ReadsOnly->>= (revision_to_answer lower order id user)
        (λ r. check (feedback_files_of assert_files_valid dto) >>= λ files. pure (r, files))
        (revision_to_answer-ReadsOnly order id user)
        (λ r.
          ReadsOnly->>= (check (feedback_files_of assert_files_valid dto))
            (λ files. pure (r, files)) (λ _. refl) (λ _ _. refl))

  pub approval_guards-ReadsOnly :
      (order id : ℕ) (dto : Approval) (user : RequestingUser)
      → ReadsOnly (approval_guards lower order id dto user)
  unfolding approval_guards
  approval_guards-ReadsOnly order id dto user =
      ReadsOnly->>= (revision_to_answer lower order id user) (approval_plan order dto)
        (revision_to_answer-ReadsOnly order id user) (approval_plan-ReadsOnly order dto)

module _ {A : Type 0} (name : String) (m : Action Store A) (reads : ReadsOnly m) where
  id_for-ReadsOnly : ReadsOnly (id_for name)
  unfolding id_for
  id_for-ReadsOnly s = refl

  pub with_status-ReadsOnly : ReadsOnly (with_status name m)
  with_status-ReadsOnly =
      ReadsOnly->>= m (λ found. id_for name >>= λ status. pure (found, status)) reads
        (λ found.
          ReadsOnly->>= (id_for name) (λ status. pure (found, status)) id_for-ReadsOnly
            (λ _ _. refl))

  id_for-inv :
      (s : Store) (status : ℕ)
      → (id_for name s).0 ≡ ok status
      → value_at name s.statuses ≡ some status
  unfolding id_for
  id_for-inv s status h = elim (Option-cases (value_at name s.statuses)) [
    | inl missing ↦ absurd (failed (rw (missing, id_for) refl))
    | inr (id, there) ↦ there ∙ same id (rw (there, id_for) refl)
  ]
    where
      failed : (id_for name s).0 ≡ err internal → ⊥
      failed e = cc

      same : (id : ℕ) → (id_for name s).0 ≡ ok id → some id ≡ some status
      same id e = cc

  pub with_status-inv :
      (s : Store) (a : A) (status : ℕ)
      → (with_status name m s).0 ≡ ok (a, status)
      → value_at name s.statuses ≡ some status
  with_status-inv s a status h =
      let (found, fine, rest, _) =
        >>=-inv m (λ found. id_for name >>= λ status. pure (found, status)) s h in
      let (id, known, same, _) =
        >>=-inv (id_for name) (λ status. pure (found, status)) (m s).1 rest in
      subst (λ (x : Store). value_at name x.statuses ≡ some status) (reads s)
        (id_for-inv (m s).1 status (known ∙ cc same))
