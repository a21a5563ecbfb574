-- ===== src/Task/Status/Ready.antt =====
-- When a change of status has gone through, the order agrees with its tasks.
use backend_emd.Prelude.{
  ℕ, ◌≡◌, ◌↔◌, inl, inr, refl, sym, ap, ◌∙◌, nat_eq, contains, true, false, not, ◌&&◌, Option, none,
  some, List, [], ◌∷◌, arith, subst,
}
use backend_emd.Prelude.Table.{row, put}
use backend_emd.Http.{HttpError, Result, ok, err, ◌>>◌, >>=-eq-of-ok, >>=-eq, >>=-eq_err}
use backend_emd.Area.Access.{RequestingUser}
use backend_emd.Store.{AreaTaskStatus, pendiente, en_proceso, terminado, Task, Order, Notice, Store}
use backend_emd.Notification.Frame.{Tells, OnlyTells, Tells->>=}
use backend_emd.Supply.Move.{SupplyInventoryResult}
use backend_emd.Task.Guards.{same_status}
use backend_emd.Task.Notify.{notify_supply_result}
use backend_emd.Task.Notify.Frame.{
  notify_supply_result-OnlyTells, notify_reception_of_progress-OnlyTells,
}
use backend_emd.Task.Sync.{sync_order_status_from_tasks, tasks_of, all_done}
use backend_emd.Task.Sync.Agreement.{IsSeeded}
use backend_emd.Task.Sync.Follows.{IsSeeded-kept, sync_order_status_from_tasks-Follows}
use backend_emd.Task.Status.{
  begin_status, commit_status, finish_status, carry_status, update_status, progress_if_done,
}
use backend_emd.Task.Status.Checks.{MayMove, reading, begin_status_cases}
use backend_emd.Task.Status.Once.{IsChanged, commit_status-Commits}

progress-OnlyTells :
    (status : AreaTaskStatus) (order user : ℕ) → OnlyTells (progress_if_done status order user)
progress-OnlyTells terminado order user s =
    notify_reception_of_progress-OnlyTells order (some user) s
progress-OnlyTells pendiente order user s = refl
progress-OnlyTells en_proceso order user s = refl

module _ (ready authorized delivered cancelled : ℕ) where
  -- The order and its tasks agree in `s'`, and the tasks are those of `s`.
  pub record Agrees (order user : ℕ) (s s' : Store) : Type 0 where
    pub after : Order
    pub found : row order s'.orders ≡ some after
    pub agrees : (after.status ≡ ready) ↔ (all_done (tasks_of order s') ≡ true)
    pub tasks : s'.tasks ≡ s.tasks

  told :
      (order user : ℕ) (s m t : Store) → Agrees order user s m → Tells m t → Agrees order user s t
  unfolding tasks_of
  told order user s m t f same =
      subst (Agrees order user s) (sym same)
        (record { after = f.after; found = f.found; agrees = f.agrees; tasks = f.tasks })

  IsSeeded-told :
      (s : Store) (n : List Notice)
      → IsSeeded s ready authorized delivered cancelled
      → IsSeeded (record s { notices = n }) ready authorized delivered cancelled
  IsSeeded-told s n seed = record {
    terminado = seed.terminado;
    autorizado = seed.autorizado;
    entregado = seed.entregado;
    cancelado = seed.cancelado;
    apart = seed.apart;
  }

  synced :
      (status : AreaTaskStatus) (order user : ℕ) (s : Store) (o : Order)
      → IsSeeded s ready authorized delivered cancelled
      → row order s.orders ≡ some o
      → contains (delivered ∷ cancelled ∷ []) o.status ≡ false
      → Agrees order user s
          ((sync_order_status_from_tasks order (some user) >> progress_if_done status order user)
            s).1
  synced status order user s o seed there active =
      let f =
        sync_order_status_from_tasks-Follows order (some user) ready authorized delivered cancelled
          s o seed there active in
      told order user s (sync_order_status_from_tasks order (some user) s).1 _
        (record { after = f.after; found = f.found; agrees = f.agrees; tasks = f.tasks })
        (Tells->>= (sync_order_status_from_tasks order (some user))
          (λ _. progress_if_done status order user) s (λ _. progress-OnlyTells status order user))

  finish_status-Agrees :
      (status : AreaTaskStatus) (user : ℕ) (task : Task) (result : SupplyInventoryResult)
      (s : Store) (o : Order)
      → IsSeeded s ready authorized delivered cancelled
      → row task.order s.orders ≡ some o
      → contains (delivered ∷ cancelled ∷ []) o.status ≡ false
      → Agrees task.order user s (finish_status status user task (some result) s).1
  unfolding finish_status
  finish_status-Agrees status user task result s o seed there active =
      let m = (notify_supply_result task.order result s).1 in
      let f =
        subst
          (λ x.
            Agrees task.order user x
              ((sync_order_status_from_tasks task.order (some user)
                  >> progress_if_done status task.order user)
                x).1)
          (sym (notify_supply_result-OnlyTells task.order result s))
          (synced status task.order user (record s { notices = m.notices }) o
            (IsSeeded-told s m.notices seed) there active) in
      record {
        after = f.after;
        found = f.found;
        agrees = f.agrees;
        tasks = f.tasks ∙ ap (λ x. x.tasks) (notify_supply_result-OnlyTells task.order result s);
      }

module _ (now task_id : ℕ) (status : AreaTaskStatus) (user : RequestingUser)
    (order : Option ℕ) where
  -- What a change of status of the task `t` has done in the end.
  pub record Updates (ready : ℕ) (t : Task) (s s' : Store) : Type 0 where
    pub allowed : MayMove status user order s t
    pub task : Task
    pub changed :
        IsChanged now status user.user_id
          (reading task_id status user order s t).should_claim
          t
          task
    pub tasks : s'.tasks ≡ put task_id task s.tasks
    pub after : Order
    pub found : row t.order s'.orders ≡ some after
    pub agrees : (after.status ≡ ready) ↔ (all_done (tasks_of t.order s') ≡ true)

  carry_status-Updates :
      (ready authorized delivered cancelled : ℕ) (s : Store) (t : Task) (o : Order)
      → IsSeeded s ready authorized delivered cancelled
      → row task_id s.tasks ≡ some t
      → row t.order s.orders ≡ some o
      → contains (delivered ∷ cancelled ∷ []) o.status ≡ false
      → MayMove status user order s t
      → (carry_status now task_id status user.user_id (reading task_id status user order s t) s).0
        ≡ ok tt
      → Updates ready t s
          (carry_status now task_id status user.user_id (reading task_id status user order s t) s).1
  unfolding carry_status
  carry_status-Updates ready authorized delivered cancelled s t o seed there at active allowed
        done =
      let r = reading task_id status user order s t in
      let commit = commit_status now task_id status user.user_id r in
      let finish = finish_status status user.user_id t in
      elim (commit_status-Commits now task_id status user.user_id r s t there) [
        | inl (e, failed) ↦
            absurd (no_error e (sym (ap (λ p. p.0) (>>=-eq_err commit finish s failed)) ∙ done))
        | inr (inl (raced, idle)) ↦ absurd (not_raced t.status raced)
        | inr (inr (result, changed, c)) ↦
            let s1 = (commit s).1 in
            let f =
              finish_status-Agrees ready authorized delivered cancelled status user.user_id t result
                s1 o
                (IsSeeded-kept t.order none ready authorized delivered cancelled s s1 seed
                  (ap (λ x. x.statuses) c.rest))
                (ap (λ x. row t.order x.orders) c.rest ∙ at) active in
            rw (>>=-eq-of-ok commit finish s changed) (record {
              allowed = allowed;
              task = c.after;
              changed = c.changed;
              tasks = f.tasks ∙ ap (λ x. x.tasks) c.rest;
              after = f.after;
              found = f.found;
              agrees = f.agrees;
            })
      ]
    where
      no_error : (e : HttpError) → ◌≡◌ {A = Result (Unit {0})} (err e) (ok tt) → ⊥
      no_error e h = ground arith

      not_raced :
          (current : AreaTaskStatus)
          → (same_status current status && not (same_status current status)) ≡ true
          → ⊥
      not_raced current h = ground arith

  -- A request to change the status of a task that succeeds was allowed to; the task has the new
  -- status, the clock as the time of its start if it starts and of its end if it is finished, and
  -- as its holder the person who starts it, if that person works in the area and nobody had it;
  -- nothing else of it and no other task has changed; and the order is ready to deliver exactly when all of its tasks are done. The
  -- statuses are seeded, and the order is there and neither delivered nor cancelled.
  pub update_status-Updates :
      (ready authorized delivered cancelled : ℕ) (s : Store) (t : Task) (o : Order)
      → IsSeeded s ready authorized delivered cancelled
      → row task_id s.tasks ≡ some t
      → row t.order s.orders ≡ some o
      → contains (delivered ∷ cancelled ∷ []) o.status ≡ false
      → (update_status now task_id status user order s).0 ≡ ok tt
      → Updates ready t s (update_status now task_id status user order s).1
  unfolding update_status
  update_status-Updates ready authorized delivered cancelled s t o seed there at active done =
      let begin = begin_status task_id status user order in
      let carry = carry_status now task_id status user.user_id in
      elim (begin_status_cases task_id status user order s) [
        | inr (e, refused, _) ↦
            absurd (no_error e (sym (ap (λ p. p.0) (>>=-eq_err begin carry s refused)) ∙ done))
        | inl (u, found, allowed, began) ↦
            let same : u ≡ t = cc in
            let began' : begin s ≡ (ok (reading task_id status user order s t), s) =
              subst (λ x. begin s ≡ (ok (reading task_id status user order s x), s)) same began in
            let step = >>=-eq begin carry s began' in
            subst (λ p. Updates ready t s p.1) (sym step)
              (carry_status-Updates ready authorized delivered cancelled s t o seed there at active
                (subst (MayMove status user order s) same allowed)
                (sym (ap (λ p. p.0) step) ∙ done))
      ]
    where
      no_error : (e : HttpError) → ◌≡◌ {A = Result (Unit {0})} (err e) (ok tt) → ⊥
      no_error e h = ground arith
