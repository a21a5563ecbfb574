-- ===== src/Task/Notify.antt =====
-- What the tasks tell Reception: `orderReceptionOwnerId`, `notifyReceptionOfProgress`,
-- `notifyReceptionOrderReady`, `notifyReceptionOfSampleSent` and `notifySampleTestResult` of
-- src/order/order-area-task.service.ts.
pub mod Frame
pub mod Own
use backend_emd.Prelude.{
  ℕ, nat_eq, option_eq, ◌==◌, contains, any, all, keep, Bool, true, false, not, ◌&&◌, ◌||◌, Option,
  none, some, List, [], ◌∷◌, ◌++◌, String, if◌then◌else◌,
}
use backend_emd.Prelude.Table.{row}
use backend_emd.Http.{Result, ok, err, Action, ◌>>=◌, ◌>>◌, pure, gets}
use backend_emd.Store.{Order, Store, SampleTestResult, aprobada, rechazada}
use backend_emd.Notification.{create_notification, create_notification_for_users, user_ids_for_area}
use backend_emd.Supply.Move.{SupplyInventoryResult, PendingLine, LowStock}
use backend_emd.Supply.Sheet.{distinct}

-- Who attends the order today, or else who created it.
unfoldable pub order_reception_owner_id : ℕ → Store → Option ℕ
order_reception_owner_id order s = elim (row order s.orders) [
  | none ↦ none
  | some o ↦ elim o.attended_by [ none ↦ some o.user | some by ↦ some by ]
]

-- Nobody is told of what they did themselves.
unfoldable pub tell_reception : String → ℕ → Option ℕ → Action Store (Unit {0})
unfolding order_reception_owner_id
tell_reception type order actor s = elim (order_reception_owner_id order s) [
  | none ↦ (ok tt, s)
  | some owner ↦
      if some owner == actor then (ok tt, s) else create_notification owner type (some order) s
]

unfoldable pub notify_reception_order_ready : ℕ → Option ℕ → Action Store (Unit {0})
unfolding tell_reception
notify_reception_order_ready order actor = tell_reception "order_ready" order actor

unfoldable pub notify_reception_of_progress : ℕ → Option ℕ → Action Store (Unit {0})
unfolding tell_reception
notify_reception_of_progress order actor = tell_reception "area_task_completed" order actor

-- `try { … } catch { warn }`: what was written before the failure stays.
abbrev pub attempt : {S : Type 0} → Action S (Unit {0}) → Action S (Unit {0})
attempt m s = (ok tt, (m s).1)

unfoldable pub notify_reception_of_sample_sent : ℕ → ℕ → Action Store (Unit {0})
unfolding tell_reception
notify_reception_of_sample_sent order actor =
    attempt (tell_reception "embroidery_test_sent" order (some actor))

abbrev pub result_type : SampleTestResult → String
result_type aprobada = "embroidery_test_approved"
result_type rechazada = "embroidery_test_rejected"

abbrev pub if_approved : SampleTestResult → Action Store (Unit {0}) → Action Store (Unit {0})
if_approved aprobada m = m
if_approved rechazada m = pure tt

unfoldable pub notify_sample_test_result :
    ℕ → String → SampleTestResult → ℕ → Action Store (Unit {0})
unfolding tell_reception
notify_sample_test_result order area result actor = attempt do
  ids ← gets (user_ids_for_area area)
  create_notification_for_users (keep (λ id. not (id == actor)) ids) (result_type result)
      (some order)
  if_approved result (tell_reception "embroidery_test_approved" order (some actor))

-- One message to the same users for each member of a list.
unfoldable pub tell_each :
    {A : Type 0} → List ℕ → String → Option ℕ → List A → Action Store (Unit {0})
tell_each ids type order [] = pure tt
tell_each ids type order (x ∷ xs) =
    create_notification_for_users ids type order >> tell_each ids type order xs

-- Reception and the administrators hear of the lines that wait and of the items that ran low.
unfoldable pub notify_supply_result : ℕ → SupplyInventoryResult → Action Store (Unit {0})
unfolding tell_each distinct
notify_supply_result order result = attempt do
  reception ← gets (user_ids_for_area "recepcion")
  admins ← gets (user_ids_for_area "admin")
  let ids = distinct [] (reception ++ admins)
  tell_each ids "inventory_pending_discount" (some order) result.pending
  tell_each ids "inventory_low_stock" none result.low_stock
