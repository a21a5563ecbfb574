-- ===== src/Notification/Reach/Several.antt =====
-- Whom a message to several users reaches: `createNotificationForUsers` of
-- src/notification/notification.service.ts.
use backend_emd.Prelude.{
  is_empty, ℕ, ◌≡◌, ◌⊎◌, inl, inr, refl, sym, ap, nat_eq, string_eq, contains, all, any, true, not,
  ◌&&◌, ◌||◌, Option, none, some, List, [], ◌∷◌, ◌++◌, map, String, arith, Bool-cases, is_some, All,
}
use backend_emd.Prelude.Table.{row, rows, HasDistinctKeys}
use backend_emd.Prelude.Selection.{
  row-keep-some, row-rows-some, contains_self, contains-keep, keep-contains,
}
use backend_emd.Http.{HttpError, ok, err, internal}
use backend_emd.Store.{User, Notice, Store}
use backend_emd.Notification.{
  create_notification_for_users, create_notices, should_notify, is_branch_account, may_hear_of,
  recipients, exclude_branch_strangers, allowed_users,
}
use backend_emd.Notification.Reach.{Suits, recipients-Suits, ++-nil}

abbrev pub notices_for : String → Option ℕ → List ℕ → List Notice
notices_for type order users = map (λ id. record { user = id; type = type; order = order }) users

-- From `s` to `s'` the message went to some of the users it was meant for, in the order of the ids:
-- each of them wants the type and may hear of the order, and whoever is there, wants it and may
-- hear of it has it.
pub record Reaches (ids : List ℕ) (type : String) (order : Option ℕ) (s s' : Store) : Type 0 where
  pub users : List ℕ
  pub written : s' ≡ record s { notices = s.notices ++ notices_for type order users }
  pub meant : All (λ id. contains ids id ≡ true) users
  pub suited : All (Suits s) (notices_for type order users)
  pub every :
      (id : ℕ) (u : User)
      → contains ids id ≡ true
      → row id s.users ≡ some u
      → should_notify (some u) type ≡ true
      → ((o : ℕ) → order ≡ some o → may_hear_of (row o s.orders) u ≡ true)
      → contains users id ≡ true

not_excluded :
    (s : Store) (ids : List ℕ) (id : ℕ) (u : User) (o : ℕ)
    → row id (rows (λ k _. contains ids k) s.users) ≡ some u
    → may_hear_of (row o s.orders) u ≡ true
    → row id (allowed_users ids (some o) s) ≡ some u
unfolding exclude_branch_strangers
not_excluded s ids id u o known hears =
    let users = rows (λ k _. contains ids k) s.users in
    elim (Bool-cases (any (λ r. is_branch_account r.1) users)) [
      | inl some_branch ↦ rw some_branch (
          row-keep-some (λ _ _. true) (λ r. may_hear_of (row o s.orders) r.1) id u users hears
            known)
      | inr no_branch ↦ rw no_branch known
    ]

module _ (s : Store) (ids : List ℕ) (type : String) (order : Option ℕ) where
  allowed_users-some :
      (id : ℕ) (u : User)
      → contains ids id ≡ true
      → row id s.users ≡ some u
      → ((o : ℕ) → order ≡ some o → may_hear_of (row o s.orders) u ≡ true)
      → row id (allowed_users ids order s) ≡ some u
  allowed_users-some id u meant there hears = by_order order hears
    where
      known : row id (rows (λ k _. contains ids k) s.users) ≡ some u
      known = row-rows-some (λ k _. contains ids k) (λ _. true) id u s.users meant there

      by_order :
          (x : Option ℕ)
          → ((o : ℕ) → x ≡ some o → may_hear_of (row o s.orders) u ≡ true)
          → row id (allowed_users ids x s) ≡ some u
      by_order none h = known
      by_order (some o) h = not_excluded s ids id u o known (h o refl)

  recipients-every :
      (id : ℕ) (u : User)
      → contains ids id ≡ true
      → row id s.users ≡ some u
      → should_notify (some u) type ≡ true
      → ((o : ℕ) → order ≡ some o → may_hear_of (row o s.orders) u ≡ true)
      → contains (recipients ids type order s) id ≡ true
  unfolding recipients
  recipients-every id u meant there wants hears =
      let allowed = allowed_users-some id u meant there hears in
      contains-keep
        (λ x.
          (not (is_some order) || is_some (row x (allowed_users ids order s)))
          && should_notify (row x (allowed_users ids order s)) type)
        ids id meant (rw (allowed, wants) (ground arith))

  recipients-meant : All (λ id. contains ids id ≡ true) (recipients ids type order s)
  unfolding recipients
  recipients-meant =
      keep-contains
        (λ x.
          (not (is_some order) || is_some (row x (allowed_users ids order s)))
          && should_notify (row x (allowed_users ids order s)) type)
        ids ids (contains_self ids)

  -- What is written when nobody is left to write to.
  nobody :
      recipients ids type order s ≡ []
      → s ≡ record s { notices = s.notices ++ notices_for type order (recipients ids type order s) }
  nobody e = rw e (ap (λ n. record s { notices = n }) (sym (++-nil s.notices)))

  reached :
      (s' : Store)
      → HasDistinctKeys s.users
      → s'
        ≡ record s { notices = s.notices ++ notices_for type order (recipients ids type order s) }
      → Reaches ids type order s s'
  reached s' d written = record {
    users = recipients ids type order s;
    written = written;
    meant = recipients-meant;
    suited = recipients-Suits s ids type order d;
    every = recipients-every;
  }

empty_of : (xs : List ℕ) → is_empty xs ≡ true → xs ≡ []
empty_of [] h = refl
empty_of (x ∷ xs) h = ground arith

pub create_notification_for_users-Reaches :
    (ids : List ℕ) (type : String) (order : Option ℕ) (s : Store)
    → HasDistinctKeys s.users
    → ((e : HttpError) × (create_notification_for_users ids type order s ≡ (err e, s)))
      ⊎ (((create_notification_for_users ids type order s).0 ≡ ok tt)
          × Reaches ids type order s (create_notification_for_users ids type order s).1)
unfolding create_notification_for_users recipients
create_notification_for_users-Reaches [] type order s d =
    inr (refl, reached s [] type order s d (nobody s [] type order refl))
create_notification_for_users-Reaches (id ∷ ids) type order s d =
    let to = recipients (id ∷ ids) type order s in
    elim (Bool-cases (is_empty to)) [
      | inl empty ↦ rw empty (
          inr (
            refl,
            reached s (id ∷ ids) type order s d
                (nobody s (id ∷ ids) type order (empty_of to empty)),
          ))
      | inr some_to ↦ elim (Bool-cases (all (λ id. is_some (row id s.users)) to)) [
        | inl known ↦
            rw (some_to, known, create_notices)
              (inr (refl, reached s (id ∷ ids) type order _ d refl))
        | inr unknown ↦ rw (some_to, unknown, create_notices) (inl (internal, refl))
      ]
    ]
