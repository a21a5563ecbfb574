-- ===== src/Task/Sync/Follows.antt =====
-- After a synchronization the order and its tasks agree, and another one does nothing.
use backend_emd.Prelude.{
  ℕ, ◌≡◌, inl, inr, refl, sym, ap, ◌∙◌, ◌↔◌, nat_eq, ◌==◌, contains, true, false, Option, some,
  List, [], ◌∷◌, ◌++◌, if◌then◌else◌, arith, Bool-cases, subst,
}
use backend_emd.Prelude.Table.{row, row-put_self}
use backend_emd.Http.{ok}
use backend_emd.Area.Config.{value_at}
use backend_emd.Store.{Order, HistoryEntry, Store}
use backend_emd.Notification.Reach.{Sends, ++-nil}
use backend_emd.Task.Sync.{sync_order_status_from_tasks, tasks_of, all_done}
use backend_emd.Task.Sync.Agreement.{
  IsSeeded, moved, outcome, sync-outcome, sync_order_status_from_tasks-final, order_ready-Sends,
}

module _ (order : ℕ) (actor : Option ℕ) (ready authorized delivered cancelled : ℕ) where
  abbrev pub change : Order → Order → List HistoryEntry
  change o o' =
      if o.status == o'.status
      then []
      else record { order = order; previous_status = o.status; new_status = o'.status } ∷ []

  -- From a store with the order `o` to one where the order is ready exactly when its tasks, which
  -- did not change, are all done; the history says what changed.
  pub record Follows (o : Order) (s s' : Store) : Type 0 where
    pub after : Order
    pub found : row order s'.orders ≡ some after
    pub agrees : (after.status ≡ ready) ↔ (all_done (tasks_of order s') ≡ true)
    pub tasks : s'.tasks ≡ s.tasks
    pub statuses : s'.statuses ≡ s.statuses
    pub history : s'.history ≡ s.history ++ change o after

  stays :
      (o : Order) (s : Store)
      → row order s.orders ≡ some o
      → (o.status ≡ ready) ↔ (all_done (tasks_of order s) ≡ true)
      → Follows o s s
  stays o s there agrees = record {
    after = o;
    found = there;
    agrees = agrees;
    tasks = refl;
    statuses = refl;
    history =
        let same : (o.status == o.status) ≡ true = ground arith in rw same (sym (++-nil s.history));
  }

  goes :
      (o : Order) (s : Store) (new : ℕ)
      → (o.status == new) ≡ false
      → (new ≡ ready) ↔ (all_done (tasks_of order s) ≡ true)
      → Follows o s (moved order o new s)
  unfolding tasks_of
  goes o s new other agrees = record {
    after = record o { status = new };
    found = row-put_self order (record o { status = new }) s.orders;
    agrees = agrees;
    tasks = refl;
    statuses = refl;
    history = rw other refl;
  }

  told : (o : Order) (s m t : Store) → Follows o s m → Sends m t → Follows o s t
  unfolding Sends tasks_of
  told o s m t f (news, same, _) = subst (Follows o s) (sym same) (record {
    after = f.after;
    found = f.found;
    agrees = f.agrees;
    tasks = f.tasks;
    statuses = f.statuses;
    history = f.history;
  })

  -- An order that is neither delivered nor cancelled is ready after a synchronization exactly
  -- when it has tasks and all of them are done; the tasks are as before, and the history has one
  -- row more if the status changed and none if it did not.
  pub sync_order_status_from_tasks-Follows :
      (s : Store) (o : Order)
      → IsSeeded s ready authorized delivered cancelled
      → row order s.orders ≡ some o
      → contains (delivered ∷ cancelled ∷ []) o.status ≡ false
      → Follows o s (sync_order_status_from_tasks order actor s).1
  sync_order_status_from_tasks-Follows s o seed there active =
      rw (sync-outcome order actor ready authorized delivered cancelled s o seed there active)
        (elim (Bool-cases (all_done (tasks_of order s))) [
          | inl done ↦ elim (Bool-cases (o.status == ready)) [
            | inl is_ready ↦ rw (done, is_ready) (stays o s there ((λ _. done), λ _. ground arith))
            | inr other ↦
                rw (done, other)
                  (told o s (moved order o ready s) _
                    (goes o s ready other ((λ _. done), λ _. refl))
                    (order_ready-Sends order actor (moved order o ready s)))
          ]
          | inr undone ↦ elim (Bool-cases (o.status == ready)) [
            | inl is_ready ↦
                rw (undone, is_ready)
                  (goes o s authorized (ground (arith, seed.apart))
                    ((λ e. absurd (seed.apart (sym e))), λ e. ground arith))
            | inr other ↦
                rw (undone, other) (stays o s there ((λ e. ground arith), λ e. ground arith))
          ]
        ])

  pub IsSeeded-kept :
      (s s' : Store)
      → IsSeeded s ready authorized delivered cancelled
      → s'.statuses ≡ s.statuses
      → IsSeeded s' ready authorized delivered cancelled
  IsSeeded-kept s s' seed e = record {
    terminado = ap (value_at "terminado") e ∙ seed.terminado;
    autorizado = ap (value_at "autorizado") e ∙ seed.autorizado;
    entregado = ap (value_at "entregado") e ∙ seed.entregado;
    cancelado = ap (value_at "cancelado") e ∙ seed.cancelado;
    apart = seed.apart;
  }

  -- Where order and tasks agree there is nothing to do.
  agreeing :
      (s : Store) (o : Order)
      → (o.status ≡ ready) ↔ (all_done (tasks_of order s) ≡ true)
      → outcome order actor ready authorized delivered cancelled (all_done (tasks_of order s)) o s
        ≡ (ok tt, s)
  agreeing s o (to_done, to_ready) = elim (Bool-cases (all_done (tasks_of order s))) [
    | inl done ↦
        let is_ready : (o.status == ready) ≡ true = ground (arith, to_ready done) in
        rw (done, is_ready) refl
    | inr undone ↦
        let other : (o.status == ready) ≡ false = not_ready undone in rw (undone, other) refl
  ]
    where
      not_ready : all_done (tasks_of order s) ≡ false → (o.status == ready) ≡ false
      not_ready undone = elim (Bool-cases (o.status == ready)) [
        | inr other ↦ other
        | inl is_ready ↦ ground (arith, to_done (ground arith))
      ]

-- A second synchronization changes nothing and tells nobody, whoever causes the first one and
-- whoever causes the second. The statuses are seeded, and the order is there and was neither
-- delivered nor cancelled before the first.
pub sync_order_status_from_tasks_again :
    (order : ℕ) (actor later : Option ℕ) (ready authorized delivered cancelled : ℕ) (s : Store)
    (o : Order)
    → IsSeeded s ready authorized delivered cancelled
    → row order s.orders ≡ some o
    → contains (delivered ∷ cancelled ∷ []) o.status ≡ false
    → sync_order_status_from_tasks order later (sync_order_status_from_tasks order actor s).1
      ≡ (ok tt, (sync_order_status_from_tasks order actor s).1)
sync_order_status_from_tasks_again order actor later ready authorized delivered cancelled s o seed
      there active =
    let s' = (sync_order_status_from_tasks order actor s).1 in
    let f =
      sync_order_status_from_tasks-Follows order actor ready authorized delivered cancelled s o seed
        there active in
    let seed' =
      IsSeeded-kept order actor ready authorized delivered cancelled s s' seed f.statuses in
    elim (Bool-cases (contains (delivered ∷ cancelled ∷ []) f.after.status)) [
      | inl final ↦
          sync_order_status_from_tasks-final order later ready authorized delivered cancelled s'
            f.after seed' f.found final
      | inr active' ↦
          sync-outcome order later ready authorized delivered cancelled s' f.after seed' f.found
            active'
          ∙ agreeing order later ready authorized delivered cancelled s' f.after f.agrees
    ]
