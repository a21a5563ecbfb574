-- ===== src/Task/Sync.antt =====
-- The status of an order follows its tasks: `syncOrderStatusFromTasks`, `applyOrderStatus` and
-- `finalStatusIds` of src/order/order-area-task.service.ts, and `StatusIdResolver` of
-- src/order/status-id-resolver.ts without its cache, which the rows never outdate.
pub mod Agreement
pub mod Follows
use backend_emd.Prelude.{
  is_empty, ℕ, nat_eq, string_eq, option_eq, ◌==◌, all, any, contains, Bool, true, false, not, ◌&&◌,
  ◌||◌, Option, none, some, List, [], ◌∷◌, ◌++◌, String, if◌then◌else◌, length, map,
}
use backend_emd.Prelude.Table.{Table, row, put, rows}
use backend_emd.Http.{Result, ok, err, internal, Action, ◌>>=◌, ◌>>◌, pure, gets, or_throw}
use backend_emd.Area.Config.{value_at}
use backend_emd.Store.{Task, Order, HistoryEntry, Store}
use backend_emd.Supply.Move.{is_terminado}
use backend_emd.Task.Notify.{notify_reception_order_ready}

-- The names of the seeded statuses.
abbrev pub status_name_autorizado : String
status_name_autorizado = "autorizado"

abbrev pub status_name_terminado : String
status_name_terminado = "terminado"

abbrev pub status_name_entregado : String
status_name_entregado = "entregado"

abbrev pub status_name_cancelado : String
status_name_cancelado = "cancelado"

unfoldable pub id_for : String → Action Store ℕ
id_for name s = or_throw (value_at name s.statuses) internal s

-- The tasks of the order.
unfoldable pub tasks_of : ℕ → Store → Table Task
tasks_of order s = rows (λ _ t. t.order == order) s.tasks

-- `allDone`
unfoldable pub all_done : Table Task → Bool
all_done tasks = not (is_empty tasks) && all (λ r. is_terminado (r.1).status) tasks

-- Conditional on the status that was read: `false` when another request has moved the order.
unfoldable pub apply_order_status : ℕ → ℕ → ℕ → Action Store Bool
apply_order_status order previous new s = elim (row order s.orders) [
  | none ↦ (ok false, s)
  | some o ↦
      if o.status == previous
      then (
        ok true,
        record s {
          orders = put order (record o { status = new }) s.orders;
          history =
              s.history
              ++ record { order = order; previous_status = previous; new_status = new } ∷ [];
        },
      )
      else (ok false, s)
]

unfoldable pub final_status_ids : Action Store (List ℕ)
unfolding id_for
final_status_ids = do
  delivered ← id_for status_name_entregado
  cancelled ← id_for status_name_cancelado
  pure (delivered ∷ cancelled ∷ [])

-- An order that is not done any more goes back from ready to authorized.
unfoldable pub step_back : ℕ → ℕ → ℕ → Action Store (Unit {0})
unfolding id_for apply_order_status
step_back order status ready =
    if status == ready
    then (do
      authorized ← id_for status_name_autorizado
      applied ← apply_order_status order status authorized
      pure tt)
    else pure tt

-- An order that is done becomes ready; Reception hears of it once.
unfoldable pub step_ready : ℕ → ℕ → ℕ → Option ℕ → Action Store (Unit {0})
unfolding apply_order_status notify_reception_order_ready
step_ready order status ready actor = if status == ready then pure tt else (do
  applied ← apply_order_status order status ready
  if applied then notify_reception_order_ready order actor else pure tt)

abbrev pub next_step : ℕ → Option ℕ → Bool → ℕ → ℕ → Action Store (Unit {0})
next_step order actor true ready status = step_ready order status ready actor
next_step order actor false ready status = step_back order status ready

-- What follows once the order has been read.
unfoldable pub sync_found : ℕ → Option ℕ → Bool → ℕ → Option Order → Action Store (Unit {0})
unfolding final_status_ids step_back step_ready
sync_found order actor done ready none = pure tt
sync_found order actor done ready (some o) = do
  finals ← final_status_ids
  if contains finals o.status then pure tt else next_step order actor done ready o.status

unfoldable pub sync_order_status_from_tasks : ℕ → Option ℕ → Action Store (Unit {0})
unfolding tasks_of all_done id_for sync_found
sync_order_status_from_tasks order actor = do
  tasks ← gets (tasks_of order)
  ready ← id_for status_name_terminado
  found ← gets (λ s. row order s.orders)
  sync_found order actor (all_done tasks) ready found
