-- ===== src/Task/Notify/Frame.antt =====
-- The tasks' messages change nothing but the outbox.
use backend_emd.Prelude.{
  ◌≡◌, ℕ, inl, inr, refl, nat_eq, option_eq, ◌==◌, keep, not, Option, none, some, List, [], ◌∷◌,
  ◌++◌, String, Bool-cases, Option-cases,
}
use backend_emd.Http.{Action, ok}
use backend_emd.Store.{Store, SampleTestResult, aprobada, rechazada}
use backend_emd.Notification.{create_notification_for_users, user_ids_for_area}
use backend_emd.Notification.Frame.{
  OnlyTells, OnlyTells->>=, create_notification-OnlyTells, create_notification_for_users-OnlyTells,
}
use backend_emd.Supply.Move.{SupplyInventoryResult}
use backend_emd.Supply.Sheet.{distinct}
use backend_emd.Task.Notify.{
  order_reception_owner_id, tell_reception, notify_reception_of_progress, result_type, if_approved,
  notify_reception_of_sample_sent, notify_sample_test_result, tell_each, notify_supply_result,
}

pub tell_reception-OnlyTells :
    (type : String) (order : ℕ) (actor : Option ℕ) → OnlyTells (tell_reception type order actor)
unfolding tell_reception
tell_reception-OnlyTells type order actor s =
    elim (Option-cases (order_reception_owner_id order s)) [
      | inl nobody ↦ rw (nobody, tell_reception) refl
      | inr (owner, there) ↦ elim (Bool-cases (some owner == actor)) [
        | inl own ↦ rw (there, own, tell_reception) refl
        | inr other ↦
            rw (there, other, tell_reception)
              (create_notification-OnlyTells owner type (some order) s)
      ]
    ]

pub notify_reception_of_progress-OnlyTells :
    (order : ℕ) (actor : Option ℕ) → OnlyTells (notify_reception_of_progress order actor)
unfolding notify_reception_of_progress
notify_reception_of_progress-OnlyTells order actor =
    tell_reception-OnlyTells "area_task_completed" order actor

tell_each-OnlyTells :
    {A : Type 0} (ids : List ℕ) (type : String) (order : Option ℕ) (xs : List A)
    → OnlyTells (tell_each ids type order xs)
unfolding tell_each
tell_each-OnlyTells ids type order [] s = refl
tell_each-OnlyTells ids type order (x ∷ xs) s =
    OnlyTells->>= (create_notification_for_users ids type order) (λ _. tell_each ids type order xs)
      (create_notification_for_users-OnlyTells ids type order)
      (λ _. tell_each-OnlyTells ids type order xs) s

pub notify_supply_result-OnlyTells :
    (order : ℕ) (result : SupplyInventoryResult) → OnlyTells (notify_supply_result order result)
unfolding notify_supply_result
notify_supply_result-OnlyTells order result s =
    let ids = distinct [] (user_ids_for_area "recepcion" s ++ user_ids_for_area "admin" s) in
    OnlyTells->>= (tell_each ids "inventory_pending_discount" (some order) result.pending)
      (λ _. tell_each ids "inventory_low_stock" none result.low_stock)
      (tell_each-OnlyTells ids "inventory_pending_discount" (some order) result.pending)
      (λ _. tell_each-OnlyTells ids "inventory_low_stock" none result.low_stock) s

if_approved-OnlyTells :
    (result : SampleTestResult) (m : Action Store (Unit {0}))
    → OnlyTells m
    → OnlyTells (if_approved result m)
if_approved-OnlyTells aprobada m h s = h s
if_approved-OnlyTells rechazada m h s = refl

pub notify_sample_test_result-OnlyTells :
    (order : ℕ) (area : String) (result : SampleTestResult) (actor : ℕ)
    → OnlyTells (notify_sample_test_result order area result actor)
unfolding notify_sample_test_result
notify_sample_test_result-OnlyTells order area result actor s =
    let ids = keep (λ id. not (id == actor)) (user_ids_for_area area s) in
    OnlyTells->>= (create_notification_for_users ids (result_type result) (some order))
      (λ _. if_approved result (tell_reception "embroidery_test_approved" order (some actor)))
      (create_notification_for_users-OnlyTells ids (result_type result) (some order))
      (λ _.
        if_approved-OnlyTells result _
          (tell_reception-OnlyTells "embroidery_test_approved" order (some actor)))
      s

-- The messages about a review are attempts: they never fail.
pub notify_sample_test_result-ok :
    (order : ℕ) (area : String) (result : SampleTestResult) (actor : ℕ) (s : Store)
    → (notify_sample_test_result order area result actor s).0 ≡ ok tt
unfolding notify_sample_test_result
notify_sample_test_result-ok order area result actor s = refl

pub notify_reception_of_sample_sent-OnlyTells :
    (order actor : ℕ) → OnlyTells (notify_reception_of_sample_sent order actor)
unfolding notify_reception_of_sample_sent
notify_reception_of_sample_sent-OnlyTells order actor =
    tell_reception-OnlyTells "embroidery_test_sent" order (some actor)

pub notify_reception_of_sample_sent-ok :
    (order actor : ℕ) (s : Store) → (notify_reception_of_sample_sent order actor s).0 ≡ ok tt
unfolding notify_reception_of_sample_sent
notify_reception_of_sample_sent-ok order actor s = refl
