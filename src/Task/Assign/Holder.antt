-- ===== src/Task/Assign/Holder.antt =====
-- Whoever has a task works in its area.
use backend_emd.Prelude.{
  ℕ, ◌≡◌, inl, inr, nat_eq, string_eq, option_eq, ◌==◌, contains, true, not, ◌&&◌, Option, some,
  arith, Bool-cases,
}
use backend_emd.Prelude.Table.{Table, row, Each, Each-put}
use backend_emd.Http.{ok, Result-cases, ◌>>=◌}
use backend_emd.Area.Access.{RequestingUser}
use backend_emd.Store.{Task, User, Store}
use backend_emd.Task.Guards.{is_manager, assert_can_work_area}
use backend_emd.Task.Guards.Find.{after_find}
use backend_emd.Task.Stage.{change_task}
use backend_emd.Task.Assign.{assert_member, assign_found, assign}

-- The user whom a task is assigned to, if the account is there, works in the task's area.
abbrev pub HasHolder : Table User → Task → Type 0
HasHolder users t =
    (id : ℕ)
    → t.assigned_user ≡ some id
    → (u : User) → row id users ≡ some u
    → contains u.areas t.area ≡ true

abbrev pub HaveHolders : Store → Type 0
HaveHolders s = Each (λ _ t. HasHolder s.users t) s.tasks

module _ (task_id : ℕ) (assigned : Option ℕ) (user : RequestingUser) (s : Store) where
  member-HasHolder :
      (t : Task)
      → assert_member t.area assigned s ≡ ok tt
      → HasHolder s.users (record t { assigned_user = assigned })
  unfolding assert_member
  member-HasHolder t h id same u there = ground (arith, same, there)

  write-HaveHolders :
      (t : Task)
      → row task_id s.tasks ≡ some t
      → assert_member t.area assigned s ≡ ok tt
      → HaveHolders s
      → HaveHolders (change_task task_id (λ x. record x { assigned_user = assigned }) s)
  write-HaveHolders t there h all =
      rw (there, change_task)
        (Each-put (λ _ x. HasHolder s.users x) task_id _ s.tasks all (member-HasHolder t h))

  found-HaveHolders :
      (t : Task)
      → row task_id s.tasks ≡ some t
      → HaveHolders s
      → HaveHolders (assign_found task_id assigned user t s).1
  unfolding assign_found
  found-HaveHolders t there all =
      elim (Bool-cases (not (is_manager user) && not (assigned == some user.user_id))) [
        | inl forbidden ↦ rw (forbidden, assign_found, ◌>>=◌) all
        | inr may ↦ elim (Result-cases (assert_can_work_area t.area user)) [
          | inr (e, cannot) ↦ rw (may, cannot, assign_found, ◌>>=◌) all
          | inl (_, can) ↦ elim (Result-cases (assert_member t.area assigned s)) [
            | inr (e, stranger) ↦ rw (may, can, stranger, assign_found, ◌>>=◌) all
            | inl (_, member) ↦
                rw (may, can, member, assign_found, ◌>>=◌) (write-HaveHolders t there member all)
          ]
        ]
      ]

  -- However a request to assign a task ends, every task is still in the hands of somebody who
  -- works in its area, if it was so before: nobody else can be assigned a task.
  pub assign-HaveHolders :
      (order : Option ℕ) → HaveHolders s → HaveHolders (assign task_id assigned user order s).1
  unfolding assign
  assign-HaveHolders order all =
      after_find task_id order s (assign_found task_id assigned user) HaveHolders all
        (λ t there. found-HaveHolders t there all)
