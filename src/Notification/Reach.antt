-- ===== src/Notification/Reach.antt =====
-- Whom a notification reaches.
pub mod Several
use backend_emd.Prelude.{
  is_empty, ℕ, ◌≡◌, inl, inr, refl, sym, ap, ◌∙◌, nat_eq, string_eq, option_eq, contains, all, any,
  keep, Bool, true, false, not, ◌&&◌, ◌||◌, Option, none, some, List, [], ◌∷◌, ◌++◌, map, String,
  arith, Bool-cases, Option-cases, subst, is_some, All,
}
use backend_emd.Prelude.Table.{Table, row, rows, HasDistinctKeys}
use backend_emd.Prelude.Selection.{
  row-keep, any-row, row-rows, row-rows-some, HasDistinctKeys-rows, contains_self,
}
use backend_emd.Store.{User, Order, Notice, Store}
use backend_emd.Notification.{
  create_notification, create_notification_for_users, create_notices, should_notify,
  is_branch_account, may_hear_of, recipients, exclude_branch_strangers, is_stranger_to,
  allowed_users,
}

-- The user wants the type, and a branch's account is only told of the orders of its branch.
unfoldable pub Suits : Store → Notice → Type 0
Suits s n =
    (u : User)
    → row n.user s.users ≡ some u
    → (should_notify (some u) n.type ≡ true)
      × ((o : ℕ) → n.order ≡ some o → may_hear_of (row o s.orders) u ≡ true)

-- The store with these notices sent, all of them suitable, and nothing else changed.
unfoldable pub Sends : Store → Store → Type 0
Sends s s' =
    (news : List Notice) × (s' ≡ record s { notices = s.notices ++ news }) × All (Suits s) news

pub ++-nil {ℓ} : {A : Type ℓ} (xs : List A) → xs ++ [] ≡ xs
++-nil [] = refl
++-nil (x ∷ xs) = ap (λ t. x ∷ t) (++-nil xs)

pub Sends-refl : (s : Store) → Sends s s
unfolding Sends
Sends-refl s = ([], ap (λ n. record s { notices = n }) (sym (++-nil s.notices)), tt)

may_hear-of_own :
    (u : User) (o : Option Order) → is_branch_account u ≡ false → may_hear_of o u ≡ true
unfolding may_hear_of
may_hear-of_own u o h = rw h refl

module _ (s : Store) where
  exclude-suits :
      (id : ℕ) (u : User) (users : Table User) (o : ℕ)
      → HasDistinctKeys users
      → row id (exclude_branch_strangers users o s) ≡ some u
      → (row id users ≡ some u) × (may_hear_of (row o s.orders) u ≡ true)
  unfolding exclude_branch_strangers
  exclude-suits id u users o d h = elim (Bool-cases (any (λ r. is_branch_account r.1) users)) [
    | inl some_branch ↦
        row-keep (λ _ _. true) (λ r. may_hear_of (row o s.orders) r.1) id u users d
          (rw some_branch at h)
    | inr no_branch ↦
        let found : row id users ≡ some u = rw no_branch at h in
        let own = any-row (λ _ _. true) (λ r. is_branch_account r.1) id u users no_branch found in
        (found, may_hear-of_own u (row o s.orders) own)
  ]

  All-keep :
      (type : String) (order : Option ℕ) (p : ℕ → Bool) (whole ids : List ℕ)
      → all (contains whole) ids ≡ true
      → ((id : ℕ)
          → contains whole id ≡ true
          → p id ≡ true
          → Suits s (record { user = id; type = type; order = order }))
      → All (Suits s) (map (λ id. record { user = id; type = type; order = order }) (keep p ids))
  All-keep type order p whole [] c h = tt
  All-keep type order p whole (id ∷ ids) c h =
      let here : contains whole id ≡ true = ground arith in
      let later : all (contains whole) ids ≡ true = ground arith in
      elim (Bool-cases (p id)) [
        | inl kept ↦ rw kept (h id here kept, All-keep type order p whole ids later h)
        | inr dropped ↦ rw dropped (All-keep type order p whole ids later h)
      ]

  create_notices-Sends :
      (type : String) (order : Option ℕ) (ids : List ℕ)
      → All (Suits s) (map (λ id. record { user = id; type = type; order = order }) ids)
      → Sends s (create_notices ids type order s).1
  unfolding Sends
  create_notices-Sends type order ids h =
      elim (Bool-cases (all (λ id. is_some (row id s.users)) ids)) [
        | inl known ↦
            rw known (map (λ id. record { user = id; type = type; order = order }) ids, refl, h)
        | inr unknown ↦ rw unknown (Sends-refl s)
      ]

  recipient-Suits :
      (ids : List ℕ) (type : String) (order : Option ℕ) (id : ℕ)
      → HasDistinctKeys s.users
      → contains ids id ≡ true
      → ((not (is_some order) || is_some (row id (allowed_users ids order s)))
          && should_notify (row id (allowed_users ids order s)) type)
        ≡ true
      → Suits s (record { user = id; type = type; order = order })
  unfolding Suits
  recipient-Suits ids type none id d c h u found =
      let there = row-rows-some (λ k _. contains ids k) (λ _. true) id u s.users c found in
      (rw there at h, λ o e. ground arith)
  recipient-Suits ids type (some o) id d c h u found =
      elim (Option-cases (row id (allowed_users ids (some o) s))) [
        | inl missing ↦ absurd (no (rw missing at h))
        | inr (v, there) ↦
            let p =
              exclude-suits id v (rows (λ k _. contains ids k) s.users) o
                (HasDistinctKeys-rows (λ k _. contains ids k) (λ _. true) s.users d) there in
            let q = row-rows (λ k _. contains ids k) (λ _. true) id v s.users d p.0 in
            let same : v ≡ u = ground (arith, q.0) in
            let wants : should_notify (some v) type ≡ true = rw there at h in
            (
              subst (λ x. should_notify (some x) type ≡ true) same wants,
              λ o' e.
                  subst (λ x. may_hear_of (row x s.orders) u ≡ true) (cc)
                    (subst (λ x. may_hear_of (row o s.orders) x ≡ true) same p.1),
            )
      ]
    where
      no : false ≡ true → ⊥
      no e = ground arith

  one-Suits :
      (id : ℕ) (type : String) (order : Option ℕ)
      → should_notify (row id s.users) type ≡ true
      → is_stranger_to id (row id s.users) order s ≡ false
      → Suits s (record { user = id; type = type; order = order })
  unfolding Suits is_stranger_to exclude_branch_strangers
  one-Suits id type order wanted near u found = (
    rw found at wanted,
    λ o e. near_own o (ap (λ x. is_stranger_to id (some u) x s) (sym e) ∙ rw found at near),
  )
    where
      near_own :
          (o : ℕ)
          → is_stranger_to id (some u) (some o) s ≡ false
          → may_hear_of (row o s.orders) u ≡ true
      near_own o h = elim (Bool-cases (is_branch_account u)) [
        | inr own ↦ may_hear-of_own u (row o s.orders) own
        | inl branch ↦ ground arith
      ]

  pub recipients-Suits :
      (ids : List ℕ) (type : String) (order : Option ℕ)
      → HasDistinctKeys s.users
      → All (Suits s) (
          map
            (λ id. record { user = id; type = type; order = order })
            (recipients ids type order s))
  unfolding recipients
  recipients-Suits ids type order d =
      All-keep type order
        (λ x.
          (not (is_some order) || is_some (row x (allowed_users ids order s)))
          && should_notify (row x (allowed_users ids order s)) type)
        ids ids (contains_self ids) (λ x c h. recipient-Suits ids type order x d c h)

  -- A message to one user sends it a suitable notice, or nothing.
  pub create_notification-Sends :
      (id : ℕ) (type : String) (order : Option ℕ) → Sends s (create_notification id type order s).1
  unfolding create_notification
  create_notification-Sends id type order =
      elim (Bool-cases (should_notify (row id s.users) type)) [
        | inr unwanted ↦ rw unwanted (Sends-refl s)
        | inl wanted ↦ elim (Bool-cases (is_stranger_to id (row id s.users) order s)) [
          | inl stranger ↦ rw (wanted, stranger) (Sends-refl s)
          | inr near ↦
              rw (wanted, near)
                (create_notices-Sends type order (id ∷ [])
                  (one-Suits id type order wanted near, tt))
        ]
      ]
