-- ===== src/Orders/Frame.antt =====
-- What never touches an order: messages, new tasks and sheets of materials.
use backend_emd.Prelude.{
  ℕ, ◌≡◌, refl, ◌∙◌, ap, inl, inr, false, List, [], ◌∷◌, String, Bool-cases, Option-cases, any, not,
  is_some,
}
use backend_emd.Prelude.Table.{row}
use backend_emd.Http.{
  Result-cases, bad_request, internal, Action, ◌>>=◌, ◌>>◌, check, gets, throw_if, >>=-eq-of-ok,
  >>=-eq-of-err,
}
use backend_emd.Store.{Store}
use backend_emd.Notification.Frame.{OnlyTells}
use backend_emd.Supply.Sheet.{
  SupplyDraft, validate_supplies, save_area, save_areas, save_supplies, warnings, distinct,
  all_item_ids, asks_null, has_discounted, task_of,
}
use backend_emd.Supply.Move.{is_terminado}
use backend_emd.Task.Create.{
  are_production_areas, insert_tasks, create_tasks_for_areas, to_create, existing_areas,
}

abbrev pub SameOrders : Store → Store → Type 0
SameOrders s s' = (s'.orders ≡ s.orders) × (s'.statuses ≡ s.statuses)

abbrev pub KeepsOrders : {A : Type 0} → Action Store A → Type 0
KeepsOrders m = (s : Store) → SameOrders s (m s).1

pub SameOrders-trans : (s t u : Store) → SameOrders s t → SameOrders t u → SameOrders s u
SameOrders-trans s t u (a, b) (c, d) = (c ∙ a, d ∙ b)

pub KeepsOrders->>= :
    {A B : Type 0} (m : Action Store A) (f : A → Action Store B)
    → KeepsOrders m
    → ((a : A) → KeepsOrders (f a))
    → KeepsOrders (m >>= f)
KeepsOrders->>= m f h k s = elim (Result-cases (m s).0) [
  | inl (a, done) ↦
      rw (>>=-eq-of-ok m f s done) (SameOrders-trans s (m s).1 (f a (m s).1).1 (h s) (k a (m s).1))
  | inr (e, failed) ↦ rw (>>=-eq-of-err m f s failed) (h s)
]

pub OnlyTells-KeepsOrders : {A : Type 0} (m : Action Store A) → OnlyTells m → KeepsOrders m
OnlyTells-KeepsOrders m h s =
    (ap {A = Store} (λ x. x.orders) (h s), ap {A = Store} (λ x. x.statuses) (h s))

insert_tasks-SameOrders :
    (order : ℕ) (areas : List String) (s : Store) → SameOrders s (insert_tasks order areas s)
unfolding insert_tasks
insert_tasks-SameOrders order [] s = (refl, refl)
insert_tasks-SameOrders order (area ∷ areas) s = insert_tasks-SameOrders order areas _

pub create_tasks_for_areas-KeepsOrders :
    (order : ℕ) (areas : List String) → KeepsOrders (create_tasks_for_areas order areas false)
unfolding create_tasks_for_areas
create_tasks_for_areas-KeepsOrders order areas s =
    elim (Bool-cases (are_production_areas areas s)) [
      | inl fine ↦
          rw (fine, create_tasks_for_areas)
            (insert_tasks-SameOrders order (to_create (existing_areas order s.tasks) areas) s)
      | inr unknown ↦ rw (unknown, create_tasks_for_areas) (refl, refl)
    ]

module _ (order user : ℕ) where
  save_area-KeepsOrders : (supply : SupplyDraft) → KeepsOrders (save_area order user supply)
  unfolding save_area
  save_area-KeepsOrders supply s = elim (Option-cases (task_of order supply.area s.tasks)) [
    | inl missing ↦ rw (missing, save_area) (refl, refl)
    | inr ((id, t), there) ↦ elim (Bool-cases (is_terminado t.status)) [
      | inl done ↦ rw (there, done, save_area) (refl, refl)
      | inr open_task ↦ elim (Bool-cases (has_discounted order user id s)) [
        | inl taken ↦ rw (there, open_task, taken, save_area) (refl, refl)
        | inr whole ↦ rw (there, open_task, whole, save_area) (refl, refl)
      ]
    ]
  ]

  save_areas-KeepsOrders :
      (supplies : List SupplyDraft) → KeepsOrders (save_areas order user supplies)
  unfolding save_areas
  save_areas-KeepsOrders [] s = (refl, refl)
  save_areas-KeepsOrders (supply ∷ supplies) s =
      KeepsOrders->>= (save_area order user supply) (λ _. save_areas order user supplies)
        (save_area-KeepsOrders supply) (λ _. save_areas-KeepsOrders supplies) s

  pub save_supplies-KeepsOrders :
      (supplies : List SupplyDraft) → KeepsOrders (save_supplies order user supplies)
  unfolding save_supplies
  save_supplies-KeepsOrders supplies s =
      let ids = distinct [] (all_item_ids supplies) in
      KeepsOrders->>= (check (validate_supplies supplies))
        (λ _.
          throw_if (asks_null supplies) internal
          >> (gets (λ s. any (λ id. not (is_some (row id s.items))) ids) >>= λ missing.
              (throw_if missing bad_request
                >> (save_areas order user supplies >> gets (warnings order user ids)))))
        (λ _. (refl, refl))
        (λ _.
          KeepsOrders->>= (throw_if (asks_null supplies) internal)
            (λ _. gets (λ s. any (λ id. not (is_some (row id s.items))) ids) >>= λ missing.
              (throw_if missing bad_request
                >> (save_areas order user supplies >> gets (warnings order user ids))))
            (λ _. (refl, refl))
            (λ _.
              KeepsOrders->>= (gets (λ s. any (λ id. not (is_some (row id s.items))) ids))
                (λ missing.
                  throw_if missing bad_request
                  >> (save_areas order user supplies >> gets (warnings order user ids)))
                (λ _. (refl, refl))
                (λ missing.
                  KeepsOrders->>= (throw_if missing bad_request)
                    (λ _. save_areas order user supplies >> gets (warnings order user ids))
                    (λ _. (refl, refl))
                    (λ _.
                      KeepsOrders->>= (save_areas order user supplies)
                        (λ _. gets (warnings order user ids)) (save_areas-KeepsOrders supplies)
                        (λ _ _. (refl, refl))))))
        s
