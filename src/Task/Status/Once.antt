-- ===== src/Task/Status/Once.antt =====
-- A change of status takes effect once, however many requests ask for it at the same time.
use backend_emd.Prelude.{
  ℕ, ◌≡◌, ◌⊎◌, inl, inr, refl, sym, ap, ◌∙◌, Bool, true, false, ◌||◌, Option, none, some, arith,
  subst, if◌then◌else◌,
}
use backend_emd.Prelude.Table.{row, put, row-put_self}
use backend_emd.Http.{HttpError, Result, ok, err, settle, ◌>>=◌}
use backend_emd.Store.{AreaTaskStatus, pendiente, en_proceso, terminado, Task, Store}
use backend_emd.Supply.Move.{SupplyInventoryResult, is_terminado}
use backend_emd.Task.Guards.{same_status, is_allowed, assert_valid_transition}
use backend_emd.Task.Status.{
  Reading, is_en_proceso, with_status, write_status, is_raced, decide_status, commit_status,
}
use backend_emd.Task.Status.Commit.{
  MovesMaterials, apply-MovesMaterials, commit_status-cases, commit_status-eq,
}

-- Starting a task dates its start, and finishing it its end; a claim gives it to who asks.
abbrev pub started_after : AreaTaskStatus → ℕ → Option ℕ → Option ℕ
started_after en_proceso now old = some now
started_after pendiente now old = old
started_after terminado now old = old

abbrev pub completed_after : AreaTaskStatus → ℕ → Option ℕ → Option ℕ
completed_after terminado now old = some now
completed_after pendiente now old = old
completed_after en_proceso now old = old

abbrev pub holder_after : Bool → ℕ → Option ℕ → Option ℕ
holder_after true user old = some user
holder_after false user old = old

-- What became of the task `t`: its status, its two times and its holder, and no other column.
pub record IsChanged (now : ℕ) (status : AreaTaskStatus) (user : ℕ) (claim : Bool) (t t' : Task)
    : Type 0 where
  pub status_is : t'.status ≡ status
  pub started : t'.started_at ≡ started_after status now t.started_at
  pub completed : t'.completed_at ≡ completed_after status now t.completed_at
  pub holder : t'.assigned_user ≡ holder_after claim user t.assigned_user
  pub rest : t' ≡ record t {
    status = t'.status;
    started_at = t'.started_at;
    completed_at = t'.completed_at;
    assigned_user = t'.assigned_user;
  }

with_status-IsChanged :
    (now task_id : ℕ) (status : AreaTaskStatus) (user : ℕ) (claim : Bool) (t : Task)
    → IsChanged now status user claim t (with_status now task_id status user claim t)
with_status-IsChanged now task_id status user claim t = record {
  status_is = refl;
  started = started status;
  completed = completed status;
  holder = holder claim;
  rest = refl;
}
  where
    started :
        (x : AreaTaskStatus)
        → (if is_en_proceso x then some now else t.started_at) ≡ started_after x now t.started_at
    started pendiente = refl
    started en_proceso = refl
    started terminado = refl

    completed :
        (x : AreaTaskStatus)
        → (if is_terminado x then some now else t.completed_at)
          ≡ completed_after x now t.completed_at
    completed pendiente = refl
    completed en_proceso = refl
    completed terminado = refl

    holder :
        (b : Bool)
        → (if b then some user else t.assigned_user) ≡ holder_after b user t.assigned_user
    holder true = refl
    holder false = refl

-- From `s` to `s'`: the step is one of the cycle, the task's row changed as it should, and nothing
-- else but the materials and the log of the stock changed.
pub record Commits (now task_id : ℕ) (status : AreaTaskStatus) (user : ℕ) (claim : Bool) (t : Task)
    (s s' : Store) : Type 0 where
  pub step : (same_status t.status status || is_allowed t.status status) ≡ true
  pub after : Task
  pub changed : IsChanged now status user claim t after
  pub taken : row task_id s'.tasks ≡ some after
  pub rest : s' ≡ record s {
    tasks = put task_id after s.tasks;
    lines = s'.lines;
    items = s'.items;
    movements = s'.movements;
  }

valid-inv :
    (before after : AreaTaskStatus)
    → assert_valid_transition before after ≡ ok tt
    → (same_status before after || is_allowed before after) ≡ true
unfolding assert_valid_transition
valid-inv before after h = ground arith

valid_self : (status : AreaTaskStatus) → assert_valid_transition status status ≡ ok tt
unfolding assert_valid_transition
valid_self pendiente = refl
valid_self en_proceso = refl
valid_self terminado = refl

same_self : (status : AreaTaskStatus) → same_status status status ≡ true
same_self pendiente = refl
same_self en_proceso = refl
same_self terminado = refl

module _ (now task_id : ℕ) (status : AreaTaskStatus) (user : ℕ) where
  write-Commits :
      (claim : Bool) (t : Task) (s m : Store)
      → (same_status t.status status || is_allowed t.status status) ≡ true
      → row task_id s.tasks ≡ some t
      → MovesMaterials s m
      → Commits now task_id status user claim t s (write_status now task_id status user claim m)
  write-Commits claim t s m step there moved =
      let t' = with_status now task_id status user claim t in
      let tasks : m.tasks ≡ s.tasks = ap (λ x. x.tasks) moved in
      let found : row task_id m.tasks ≡ some t = rw tasks there in
      let written : write_status now task_id status user claim m
          ≡ record m { tasks = put task_id t' m.tasks } =
        rw (found, write_status) refl in
      subst (Commits now task_id status user claim t s) (sym written) (record {
        step = step;
        after = t';
        changed = with_status-IsChanged now task_id status user claim t;
        taken = row-put_self task_id t' m.tasks;
        rest =
            ap {A = Store}
              (λ x. record x {
                tasks = put task_id t' x.tasks;
                lines = m.lines;
                items = m.items;
                movements = m.movements;
              })
              moved;
      })

  -- A request whose transaction changed the status made a step of the cycle; the task has the new
  -- status, the clock as the time of its start if it starts and of its end if it is finished, and
  -- the user as its holder if the request claims it; no other column of the task changed, no other
  -- row but of the materials and the log of the stock. Otherwise the request fails, or found that
  -- the same change had been made since it read the task, and then it touches nothing.
  pub commit_status-Commits :
      (r : Reading) (s : Store) (t : Task)
      → row task_id s.tasks ≡ some t
      → ((e : HttpError) × (commit_status now task_id status user r s ≡ (err e, s)))
        ⊎ (((is_raced status t.status r.task ≡ true)
              × (commit_status now task_id status user r s ≡ (ok none, s)))
            ⊎ ((result : SupplyInventoryResult) × ((commit_status now task_id status user r s).0
                  ≡ ok (some result))
                × Commits now task_id status user r.should_claim t s
                    (commit_status now task_id status user r s).1))
  commit_status-Commits r s t there =
      elim (commit_status-cases now task_id status user r s t there) [
        | inl failed ↦ inl failed
        | inr (inl raced) ↦ inr (inl raced)
        | inr (inr (result, c, same)) ↦ inr (
            inr (
              result,
              rw (same, c.written) refl,
              rw (same, c.written)
                  (write-Commits r.should_claim t s _ (valid-inv t.status status c.step) there
                    (apply-MovesMaterials now task_id r.task t.status status user s)),
            ))
      ]

-- Two requests for the same change that both read the task before either wrote: once the first one
-- has made it, the second one does nothing, so that no material moves twice.
pub commit_status_twice :
    (now later task_id : ℕ) (status : AreaTaskStatus) (user other : ℕ) (first second : Reading)
    (s : Store) (t : Task) {result : SupplyInventoryResult}
    → row task_id s.tasks ≡ some t
    → (commit_status now task_id status user first s).0 ≡ ok (some result)
    → same_status second.task.status status ≡ false
    → let s' = (commit_status now task_id status user first s).1 in
      commit_status later task_id status other second s' ≡ (ok none, s')
unfolding decide_status
commit_status_twice now later task_id status user other first second s t {result} there done
      unread =
    let s' = (commit_status now task_id status user first s).1 in
    let c : Commits now task_id status user first.should_claim t s s' =
      elim (commit_status-Commits now task_id status user first s t there) [
        | inl (e, failed) ↦ absurd (no_error e (sym (ap (λ p. p.0) failed) ∙ done))
        | inr (inl (_, idle)) ↦ absurd (no_race (sym (ap (λ p. p.0) idle) ∙ done))
        | inr (inr (r, _, c)) ↦ c
      ] in
    let raced : is_raced status status second.task ≡ true = rw (same_self status, unread) refl in
    let stopped : decide_status later task_id status other second status s' ≡ (ok none, s') =
      rw (valid_self status, raced, decide_status, ◌>>=◌) refl in
    commit_status-eq later task_id status other second s' c.after c.taken
    ∙ ap (settle s') (
        subst (λ x. decide_status later task_id status other second x s' ≡ (ok none, s'))
          (sym c.changed.status_is) stopped)
  where
    no_error :
        (e : HttpError)
        → ◌≡◌ {A = Result (Option SupplyInventoryResult)} (err e) (ok (some result))
        → ⊥
    no_error e h = ground arith

    no_race : ◌≡◌ {A = Result (Option SupplyInventoryResult)} (ok none) (ok (some result)) → ⊥
    no_race h = ground arith
