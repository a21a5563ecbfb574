-- ===== src/Task/Sync/Agreement.antt =====
-- An order that is not final is ready exactly when all of its tasks are done, after a
-- synchronization; what the synchronization writes.
use backend_emd.Prelude.{
  ℕ, ◌≡◌, inl, inr, refl, ◌∙◌, ◌≢◌, nat_eq, string_eq, option_eq, ◌==◌, contains, Bool, true, false,
  Option, some, [], ◌∷◌, ◌++◌, String, if◌then◌else◌, arith, Bool-cases, Option-cases,
}
use backend_emd.Prelude.Table.{row, put}
use backend_emd.Http.{Result, ok, pure, ◌>>=◌, >>=-eq}
use backend_emd.Area.Config.{value_at}
use backend_emd.Store.{Order, Store}
use backend_emd.Notification.Reach.{Sends, Sends-refl, create_notification-Sends}
use backend_emd.Task.Notify.{tell_reception, order_reception_owner_id, notify_reception_order_ready}
use backend_emd.Task.Sync.{
  sync_order_status_from_tasks, sync_found, final_status_ids, id_for, apply_order_status, step_back,
  step_ready, next_step, tasks_of, all_done,
}

-- The statuses that `prisma/seed.ts` creates are there, under these keys.
pub record IsSeeded (s : Store) (ready authorized delivered cancelled : ℕ) : Type 0 where
  pub terminado : value_at "terminado" s.statuses ≡ some ready
  pub autorizado : value_at "autorizado" s.statuses ≡ some authorized
  pub entregado : value_at "entregado" s.statuses ≡ some delivered
  pub cancelado : value_at "cancelado" s.statuses ≡ some cancelled
  pub apart : ready ≢ authorized

pub tell_reception-Sends :
    (type : String) (order : ℕ) (actor : Option ℕ) (s : Store)
    → Sends s (tell_reception type order actor s).1
unfolding tell_reception
tell_reception-Sends type order actor s = elim (Option-cases (order_reception_owner_id order s)) [
  | inl nobody ↦ rw (nobody, tell_reception) (Sends-refl s)
  | inr (owner, there) ↦ elim (Bool-cases (some owner == actor)) [
    | inl own ↦ rw (there, own, tell_reception) (Sends-refl s)
    | inr other ↦
        rw (there, other, tell_reception) (create_notification-Sends s owner type (some order))
  ]
]

pub order_ready-Sends :
    (order : ℕ) (actor : Option ℕ) (s : Store)
    → Sends s (notify_reception_order_ready order actor s).1
unfolding notify_reception_order_ready
order_ready-Sends order actor s = tell_reception-Sends "order_ready" order actor s

-- The order with its new status, and the row of history.
abbrev pub moved : ℕ → Order → ℕ → Store → Store
moved order o new s = record s {
  orders = put order (record o { status = new }) s.orders;
  history =
      s.history ++ record { order = order; previous_status = o.status; new_status = new } ∷ [];
}

module _ (order : ℕ) (actor : Option ℕ) (ready authorized delivered cancelled : ℕ) where
  abbrev is_final : Order → Bool
  is_final o = contains (delivered ∷ cancelled ∷ []) o.status

  final_status_ids-eq :
      (s : Store)
      → IsSeeded s ready authorized delivered cancelled
      → final_status_ids s ≡ (ok (delivered ∷ cancelled ∷ []), s)
  unfolding final_status_ids id_for
  final_status_ids-eq s seed = rw (seed.entregado, seed.cancelado, ◌>>=◌) refl

  sync-found :
      (s : Store) (o : Order)
      → IsSeeded s ready authorized delivered cancelled
      → row order s.orders ≡ some o
      → sync_order_status_from_tasks order actor s
        ≡ sync_found order actor (all_done (tasks_of order s)) ready (some o) s
  unfolding sync_order_status_from_tasks id_for
  sync-found s o seed there = rw (seed.terminado, there) refl

  -- With seeded statuses, an order that was delivered or cancelled is not touched.
  pub sync_order_status_from_tasks-final :
      (s : Store) (o : Order)
      → IsSeeded s ready authorized delivered cancelled
      → row order s.orders ≡ some o
      → is_final o ≡ true
      → sync_order_status_from_tasks order actor s ≡ (ok tt, s)
  unfolding sync_found
  sync_order_status_from_tasks-final s o seed there final =
      sync-found s o seed there
      ∙ rw (>>=-eq final_status_ids _ s (final_status_ids-eq s seed), final) refl

  apply_order_status-eq :
      (s : Store) (o : Order) (new : ℕ)
      → row order s.orders ≡ some o
      → apply_order_status order o.status new s ≡ (ok true, moved order o new s)
  unfolding apply_order_status
  apply_order_status-eq s o new there =
      let same : (o.status == o.status) ≡ true = ground arith in
      rw (there, same, apply_order_status) refl

  -- What a synchronization of an order that is not final does, by its tasks and its status.
  abbrev pub outcome : Bool → Order → Store → Result (Unit {0}) × Store
  outcome done o s =
      if done
      then (if o.status == ready
          then (ok tt, s)
          else notify_reception_order_ready order actor (moved order o ready s))
      else (if o.status == ready then (ok tt, moved order o authorized s) else (ok tt, s))

  step_ready-eq :
      (s : Store) (o : Order)
      → row order s.orders ≡ some o
      → step_ready order o.status ready actor s ≡ outcome true o s
  unfolding step_ready
  step_ready-eq s o there = elim (Bool-cases (o.status == ready)) [
    | inl is_ready ↦ rw (is_ready, step_ready) refl
    | inr other ↦
        rw (other, step_ready)
          (>>=-eq (apply_order_status order o.status ready)
            (λ applied. if applied then notify_reception_order_ready order actor else pure tt) s
            (apply_order_status-eq s o ready there))
  ]

  step_back-eq :
      (s : Store) (o : Order)
      → IsSeeded s ready authorized delivered cancelled
      → row order s.orders ≡ some o
      → step_back order o.status ready s ≡ outcome false o s
  unfolding step_back id_for
  step_back-eq s o seed there = elim (Bool-cases (o.status == ready)) [
    | inr other ↦ rw (other, step_back) refl
    | inl is_ready ↦
        rw (is_ready, step_back)
          (>>=-eq (id_for "autorizado")
              (λ to. apply_order_status order o.status to >>= λ _. pure tt) s
              (rw seed.autorizado refl)
            ∙ >>=-eq (apply_order_status order o.status authorized) (λ _. pure tt) s
                (apply_order_status-eq s o authorized there))
  ]

  pub sync-outcome :
      (s : Store) (o : Order)
      → IsSeeded s ready authorized delivered cancelled
      → row order s.orders ≡ some o
      → is_final o ≡ false
      → sync_order_status_from_tasks order actor s ≡ outcome (all_done (tasks_of order s)) o s
  unfolding sync_found
  sync-outcome s o seed there active =
      sync-found s o seed there
      ∙ rw (>>=-eq final_status_ids _ s (final_status_ids-eq s seed), active)
          (by_tasks (all_done (tasks_of order s)))
    where
      by_tasks : (done : Bool) → next_step order actor done ready o.status s ≡ outcome done o s
      by_tasks true = step_ready-eq s o there
      by_tasks false = step_back-eq s o seed there
