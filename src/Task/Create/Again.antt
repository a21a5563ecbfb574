-- ===== src/Task/Create/Again.antt =====
-- Creating the tasks of an order twice creates them once.
use backend_emd.Prelude.{
  ℕ, ◌≡◌, refl, sym, ap, ◌∙◌, subst, nat_eq, string_eq, contains, Bool, true, false, ◌||◌, some,
  List, [], ◌∷◌, ◌++◌, String, arith, eq_iff,
}
use backend_emd.Prelude.Table.{Table}
use backend_emd.Http.{ok}
use backend_emd.Store.{Task, Store}
use backend_emd.Notification.{user_ids_for_area}
use backend_emd.Notification.Frame.{
  Tells, OnlyTells, OnlyTells->>=, create_notification_for_users-OnlyTells,
}
use backend_emd.Notification.Reach.{++-nil}
use backend_emd.Notification.Others.{++-assoc}
use backend_emd.Supply.Sheet.{next_key}
use backend_emd.Task.Create.{
  are_production_areas, existing_areas, to_create, new_task, insert_tasks, notify_area_of_new_task,
  notify_areas, notify_if, create_new, create_tasks_for_areas,
}

covers :
    (seen areas : List String) (x : String)
    → contains areas x ≡ true
    → (contains seen x || contains (to_create seen areas) x) ≡ true
unfolding to_create
covers seen [] x h = ground arith
covers seen (area ∷ areas) x h =
    ground (arith, covers seen areas x, covers (area ∷ seen) areas x, eq_iff area x)

to_create-nil :
    (seen areas : List String)
    → ((x : String) → contains areas x ≡ true → contains seen x ≡ true)
    → to_create seen areas ≡ []
unfolding to_create
to_create-nil seen [] f = refl
to_create-nil seen (area ∷ areas) f =
    let here = f area (ground (arith, eq_iff area area)) in
    let rest = to_create-nil seen areas (λ x h. f x (ground arith)) in ground arith

contains-append :
    (xs ys : List String) (x : String) → contains (xs ++ ys) x ≡ (contains xs x || contains ys x)
contains-append [] ys x = refl
contains-append (y ∷ xs) ys x = ground (arith, contains-append xs ys x)

module _ (order : ℕ) where
  existing_areas-append :
      (tasks : Table Task) (id : ℕ) (t : Task)
      → t.order ≡ order
      → existing_areas order (tasks ++ (id, t) ∷ []) ≡ existing_areas order tasks ++ t.area ∷ []
  unfolding existing_areas
  existing_areas-append [] id t h = ground arith
  existing_areas-append ((j, u) ∷ tasks) id t h = ground (arith, existing_areas-append tasks id t h)

  insert_tasks-existing :
      (areas : List String) (s : Store)
      → existing_areas order (insert_tasks order areas s).tasks
        ≡ existing_areas order s.tasks ++ areas
  unfolding insert_tasks new_task
  insert_tasks-existing [] s = sym (++-nil (existing_areas order s.tasks))
  insert_tasks-existing (area ∷ areas) s =
      let t = new_task order area s in
      let s1 = record s { tasks = s.tasks ++ (next_key s.tasks, t) ∷ [] } in
      insert_tasks-existing areas s1
      ∙ ap (λ xs. xs ++ areas) (existing_areas-append s.tasks (next_key s.tasks) t refl)
      ∙ ++-assoc (existing_areas order s.tasks) (area ∷ []) areas

  insert_tasks-areas :
      (areas : List String) (s : Store) → (insert_tasks order areas s).areas ≡ s.areas
  unfolding insert_tasks
  insert_tasks-areas [] s = refl
  insert_tasks-areas (area ∷ areas) s = insert_tasks-areas areas _

  notify_areas-OnlyTells : (areas : List String) → OnlyTells (notify_areas order areas)
  unfolding notify_areas
  notify_areas-OnlyTells [] s = refl
  notify_areas-OnlyTells (area ∷ areas) s =
      OnlyTells->>= (notify_area_of_new_task order area) (λ _. notify_areas order areas)
        (notify_area-OnlyTells area) (λ _. notify_areas-OnlyTells areas) s
    where
      notify_area-OnlyTells : (area : String) → OnlyTells (notify_area_of_new_task order area)
      notify_area-OnlyTells a t =
          create_notification_for_users-OnlyTells (user_ids_for_area a t) "area_task_created"
            (some order) t

  notify_if-OnlyTells :
      (notify : Bool) (areas : List String) → OnlyTells (notify_if order notify areas)
  notify_if-OnlyTells true areas s = notify_areas-OnlyTells areas s
  notify_if-OnlyTells false areas s = refl

  create_new-Tells :
      (areas : List String) (notify : Bool) (s : Store)
      → Tells (insert_tasks order areas s) (create_new order areas notify s).1
  create_new-Tells areas notify s =
      OnlyTells->>= (notify_if order notify areas) (λ _ t. (ok areas, t))
        (notify_if-OnlyTells notify areas) (λ _ t. refl) (insert_tasks order areas s)

  create_new-nil : (notify : Bool) (s : Store) → create_new order [] notify s ≡ (ok [], s)
  unfolding insert_tasks notify_areas
  create_new-nil true s = refl
  create_new-nil false s = refl

  all_there :
      (areas : List String) (notify : Bool) (s : Store)
      → let s' = (create_new order (to_create (existing_areas order s.tasks) areas) notify s).1 in
        to_create (existing_areas order s'.tasks) areas ≡ []
  all_there areas notify s =
      let old = existing_areas order s.tasks in
      let new = to_create old areas in
      let now_there : existing_areas order (create_new order new notify s).1.tasks ≡ old ++ new =
        ap (λ x. existing_areas order x.tasks) (create_new-Tells new notify s)
        ∙ insert_tasks-existing new s in
      rw now_there
        (to_create-nil (old ++ new) areas (λ x h. contains-append old new x ∙ covers old areas x h))

  -- Once the tasks of some areas have been created for an order, asking for them again creates
  -- nothing, tells nobody and changes nothing, so that an area has one task in an order however
  -- often it is asked for. The areas are active destinations of production (else both are refused).
  pub create_tasks_for_areas_again :
      (areas : List String) (notify notify' : Bool) (s : Store)
      → are_production_areas areas s ≡ true
      → let s' = (create_tasks_for_areas order areas notify s).1 in
        create_tasks_for_areas order areas notify' s' ≡ (ok [], s')
  unfolding create_tasks_for_areas
  create_tasks_for_areas_again areas notify notify' s valid =
      let new = to_create (existing_areas order s.tasks) areas in
      let s1 = (create_new order new notify s).1 in
      let same_areas : s1.areas ≡ s.areas =
        ap (λ x. x.areas) (create_new-Tells new notify s) ∙ insert_tasks-areas new s in
      let first : (create_tasks_for_areas order areas notify s).1 ≡ s1 =
        rw (valid, create_tasks_for_areas) refl in
      let valid' : are_production_areas areas s1 ≡ true = rw same_areas valid in
      subst (λ x. create_tasks_for_areas order areas notify' x ≡ (ok [], x)) (sym first)
        (rw (valid', all_there areas notify s, create_tasks_for_areas) (create_new-nil notify' s1))
