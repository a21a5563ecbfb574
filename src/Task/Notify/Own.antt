-- ===== src/Task/Notify/Own.antt =====
-- Nobody is told of what they did themselves.
use backend_emd.Prelude.{
  ℕ, inl, inr, nat_eq, option_eq, ◌==◌, keep, not, some, String, arith, Bool-cases, Option-cases,
}
use backend_emd.Http.{Action}
use backend_emd.Store.{Store, SampleTestResult, aprobada, rechazada}
use backend_emd.Notification.{create_notification_for_users, user_ids_for_area}
use backend_emd.Notification.Others.{
  TellsOthers, TellsOthers-refl, SparesActor, SparesActor->>=, filtered-others,
  create_notification-SparesActor, create_notification_for_users-SparesActor,
}
use backend_emd.Task.Notify.{
  order_reception_owner_id, tell_reception, result_type, if_approved, notify_sample_test_result,
}

module _ (actor : ℕ) where
  pub tell_reception-SparesActor :
      (type : String) (order : ℕ) → SparesActor actor (tell_reception type order (some actor))
  unfolding tell_reception
  tell_reception-SparesActor type order s = elim (Option-cases (order_reception_owner_id order s)) [
    | inl nobody ↦ rw (nobody, tell_reception) (TellsOthers-refl actor s)
    | inr (owner, there) ↦ elim (Bool-cases (some owner == some actor)) [
      | inl own ↦ rw (there, own, tell_reception) (TellsOthers-refl actor s)
      | inr other ↦
          rw (there, other, tell_reception)
            (create_notification-SparesActor actor owner type (some order)
              (λ e. ground (arith, other)) s)
    ]
  ]

  if_approved-SparesActor :
      (result : SampleTestResult) (m : Action Store (Unit {0}))
      → SparesActor actor m
      → SparesActor actor (if_approved result m)
  if_approved-SparesActor aprobada m h s = h s
  if_approved-SparesActor rechazada m h s = TellsOthers-refl actor s

  -- Whoever decides on a review is not told of the decision, neither as one of the area nor as the
  -- one who attends the order; everybody else's messages are all that changes.
  pub notify_sample_test_result-SparesActor :
      (order : ℕ) (area : String) (result : SampleTestResult) (s : Store)
      → TellsOthers actor s (notify_sample_test_result order area result actor s).1
  unfolding notify_sample_test_result
  notify_sample_test_result-SparesActor order area result s =
      let ids = keep (λ id. not (id == actor)) (user_ids_for_area area s) in
      SparesActor->>= actor (create_notification_for_users ids (result_type result) (some order))
        (λ _. if_approved result (tell_reception "embroidery_test_approved" order (some actor)))
        (create_notification_for_users-SparesActor actor ids (result_type result) (some order)
          (filtered-others actor (user_ids_for_area area s)))
        (λ _.
          if_approved-SparesActor result _
            (tell_reception-SparesActor "embroidery_test_approved" order))
        s
