-- ===== src/Orders/Answers/Idle.antt =====
-- An answer leaves an order that does not wait for one.
use backend_emd.Prelude.{
  ℕ, ◌≡◌, refl, ap, ◌∙◌, inl, inr, nat_eq, string_eq, ◌==◌, true, false, some, List, [], ◌∷◌, ◌++◌,
  String, Option-cases, Bool-cases,
}
use backend_emd.Prelude.Table.{row, row-update_row_inv}
use backend_emd.Http.{
  HttpError, Result-cases, ok, err, Action, ◌>>=◌, ◌>>◌, pure, modify, transaction, >>=-inv,
}
use backend_emd.Area.Access.{design_area}
use backend_emd.Area.Config.{value_at}
use backend_emd.Store.{Order, DesignRevision, Store}
use backend_emd.Notification.{create_notification_for_users, user_ids_for_area}
use backend_emd.Notification.Frame.{
  OnlyTells, OnlyTells->>=, create_notification-OnlyTells, create_notification_for_users-OnlyTells,
}
use backend_emd.Supply.Sheet.{save_supplies}
use backend_emd.Task.Create.{create_tasks_for_areas}
use backend_emd.Orders.Frame.{
  KeepsOrders, KeepsOrders->>=, OnlyTells-KeepsOrders, create_tasks_for_areas-KeepsOrders,
  save_supplies-KeepsOrders,
}
use backend_emd.Orders.Rounds.{is_awaiting, status_name_esperando_autorizacion}
use backend_emd.Orders.Rounds.Awaiting.{
  HasDistinctIds, is_awaiting-of_status, is_awaiting-SameOrders,
}
use backend_emd.Orders.Answers.{
  Feedback, Approval, Plan, settle_responses, back_to_design, to_production, commit_feedback,
  commit_approval, approve_in, write_feedback, write_approval, write_answer, tell_design,
  tell_areas, tell_designer,
}

-- The order, if it is there, has the status.
abbrev HasStatus : ℕ → ℕ → Store → Type 0
HasStatus order status s = (o : Order) → row order s.orders ≡ some o → o.status ≡ status

write_answer-HasStatus :
    (order id user status : ℕ) (r : DesignRevision) (change : Order → Order) (action : String)
    (s : Store)
    → ((o : Order) → (change o).status ≡ status)
    → HasStatus order status (write_answer order id user r change action s)
write_answer-HasStatus order id user status r change action s h o e =
    let (old, there, is) = row-update_row_inv order change o s.orders e in
    ap (λ (x : Order). x.status) is ∙ h old

pub tell_design-OnlyTells : (order : ℕ) (r : DesignRevision) → OnlyTells (tell_design order r)
unfolding tell_design
tell_design-OnlyTells order r s = elim (Option-cases r.sent_by) [
  | inl nobody ↦
      rw (nobody, tell_design)
        (create_notification_for_users-OnlyTells (user_ids_for_area design_area s)
          "design_feedback_added" (some order) s)
  | inr (id, there) ↦
      rw (there, tell_design)
        (create_notification-OnlyTells id "design_feedback_added" (some order) s)
]

tell_areas-OnlyTells : (order : ℕ) (areas : List String) → OnlyTells (tell_areas order areas)
unfolding tell_areas
tell_areas-OnlyTells order [] s = refl
tell_areas-OnlyTells order (area ∷ areas) s =
    OnlyTells->>=
      (create_notification_for_users (user_ids_for_area area s) "design_approved" (some order))
      (λ _. tell_areas order areas)
      (create_notification_for_users-OnlyTells (user_ids_for_area area s) "design_approved"
        (some order))
      (λ _. tell_areas-OnlyTells order areas) s

tell_designer-OnlyTells :
    (order user : ℕ) (r : DesignRevision) → OnlyTells (tell_designer order user r)
unfolding tell_designer
tell_designer-OnlyTells order user r s = elim (Option-cases r.sent_by) [
  | inl nobody ↦ rw (nobody, tell_designer) refl
  | inr (id, there) ↦ elim (Bool-cases (id == user)) [
    | inl own ↦ rw (there, own, tell_designer) refl
    | inr other ↦
        rw (there, other, tell_designer)
          (create_notification-OnlyTells id "design_approved" (some order) s)
  ]
]

module _ (lower : String → String) (order : ℕ) where
  idle_of_status :
      (name : String) (status : ℕ) (s : Store)
      → HasDistinctIds s.statuses
      → value_at name s.statuses ≡ some status
      → (lower name == status_name_esperando_autorizacion) ≡ false
      → HasStatus order status s
      → is_awaiting lower order s ≡ false
  unfolding is_awaiting
  idle_of_status name status s d known other has = elim (Option-cases (row order s.orders)) [
    | inl missing ↦ rw (missing, is_awaiting) refl
    | inr (o, there) ↦
        is_awaiting-of_status lower order name status o s d known there (has o there) ∙ other
  ]

  -- What `m` leaves is idle where what it began with is, if it keeps the orders.
  idle_after :
      {A : Type 0} (m : Action Store A) (s : Store)
      → KeepsOrders m
      → is_awaiting lower order s ≡ false
      → is_awaiting lower order (m s).1 ≡ false
  idle_after m s keeps idle = is_awaiting-SameOrders lower order s (m s).1 (keeps s) ∙ idle

  approved_HasStatus :
      (id user now status : ℕ) (p : Plan) (s : Store)
      → HasStatus order status (write_approval order id user now p status s)
  unfolding write_approval
  approved_HasStatus id user now status p s =
      write_answer-HasStatus order id user status (record p.revision { approved = true })
        (to_production status p.area now) "design_approved" s (λ _. refl)

  told : ℕ → Plan → List ℕ → Action Store (List ℕ)
  told user p warnings =
      tell_areas order p.areas >> (tell_designer order user p.revision >> pure warnings)

  told-KeepsOrders : (user : ℕ) (p : Plan) (warnings : List ℕ) → KeepsOrders (told user p warnings)
  unfolding told
  told-KeepsOrders user p warnings =
      OnlyTells-KeepsOrders
        (tell_areas order p.areas >> (tell_designer order user p.revision >> pure warnings))
        (OnlyTells->>= (tell_areas order p.areas)
          (λ _. tell_designer order user p.revision >> pure warnings)
          (tell_areas-OnlyTells order p.areas)
          (λ _.
            OnlyTells->>= (tell_designer order user p.revision) (λ _. pure warnings)
              (tell_designer-OnlyTells order user p.revision) (λ _ _. refl)))

  module _ (s : Store) (distinct : HasDistinctIds s.statuses) where
    pub commit_feedback-idle :
        (id user status : ℕ) (dto : Feedback) (r : DesignRevision) (files : List String)
        (name : String)
        → value_at name s.statuses ≡ some status
        → (lower name == status_name_esperando_autorizacion) ≡ false
        → is_awaiting lower order (commit_feedback order id user dto ((r, files), status) s).1
          ≡ false
    unfolding write_feedback
    commit_feedback-idle id user status dto r files name known other =
        let t = write_feedback order id user dto files status r s in
        idle_after (tell_design order r) t
          (OnlyTells-KeepsOrders (tell_design order r) (tell_design-OnlyTells order r))
          (idle_of_status name status t distinct known other (
            write_answer-HasStatus order id user status
              (record r {
                feedback_text = some dto.text;
                feedback_files = r.feedback_files ++ files;
              })
              (back_to_design status r.sent_by) "design_feedback_added" s (λ _. refl)))

    -- The tasks, the sheets and what the client had sent do not touch the order.
    approve_in-idle :
        (id user now status : ℕ) (dto : Approval) (p : Plan)
        → is_awaiting lower order (write_approval order id user now p status s) ≡ false
        → is_awaiting lower order (approve_in order id user now dto p status s).1 ≡ false
    unfolding approve_in
    approve_in-idle id user now status dto p idle =
        let finish : List ℕ → Action Store (List ℕ) =
          λ warnings. (modify (settle_responses order user) >> pure warnings) in
        idle_after
          (create_tasks_for_areas order p.areas false >>= λ _.
            (save_supplies order user dto.supplies >>= finish))
          (write_approval order id user now p status s)
          (KeepsOrders->>= (create_tasks_for_areas order p.areas false)
            (λ _. save_supplies order user dto.supplies >>= finish)
            (create_tasks_for_areas-KeepsOrders order p.areas)
            (λ _.
              KeepsOrders->>= (save_supplies order user dto.supplies) finish
                (save_supplies-KeepsOrders order user dto.supplies) (λ _ _. (refl, refl))))
          idle

    pub commit_approval-idle :
        (id user now status : ℕ) (dto : Approval) (p : Plan) (name : String) (warnings : List ℕ)
        → value_at name s.statuses ≡ some status
        → (lower name == status_name_esperando_autorizacion) ≡ false
        → (commit_approval order id user dto now (p, status) s).0 ≡ ok warnings
        → is_awaiting lower order (commit_approval order id user dto now (p, status) s).1 ≡ false
    unfolding told write_approval
    commit_approval-idle id user now status dto p name warnings known other h =
        let m = transaction (approve_in order id user now dto p status) in
        let (w, fine, rest, whole) = >>=-inv m (told user p) s h in
        rw whole (idle_after (told user p w) (m s).1 (told-KeepsOrders user p w) (written w fine))
      where
        differ :
            (e : HttpError) (w : List ℕ)
            → (transaction (approve_in order id user now dto p status) s).0 ≡ err e
            → (transaction (approve_in order id user now dto p status) s).0 ≡ ok w
            → ⊥
        differ e w p q = cc

        written :
            (w : List ℕ)
            → (transaction (approve_in order id user now dto p status) s).0 ≡ ok w
            → is_awaiting lower order (transaction (approve_in order id user now dto p status) s).1
              ≡ false
        written w fine = elim (Result-cases (approve_in order id user now dto p status s).0) [
          | inr (e, failed) ↦ absurd (differ e w (rw failed refl) fine)
          | inl (x, done) ↦ rw done (
              approve_in-idle id user now status dto p (
                idle_of_status name status (write_approval order id user now p status s) distinct
                  known other (approved_HasStatus id user now status p s)))
        ]
