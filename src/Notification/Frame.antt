-- ===== src/Notification/Frame.antt =====
-- Sending changes nothing but the outbox, whether or not it succeeds.
use backend_emd.Prelude.{
  is_empty, ℕ, ◌≡◌, inl, inr, refl, ap, ◌∙◌, nat_eq, all, Option, List, [], ◌∷◌, String, Bool-cases,
  is_some,
}
use backend_emd.Prelude.Table.{row}
use backend_emd.Http.{Result-cases, Action, ◌>>=◌, >>=-eq-of-ok, >>=-eq-of-err}
use backend_emd.Store.{Store}
use backend_emd.Notification.{
  create_notices, create_notification, create_notification_for_users, recipients, should_notify,
  is_stranger_to,
}

abbrev pub Tells : Store → Store → Type 0
Tells s s' = s' ≡ record s { notices = s'.notices }

pub Tells-trans : (s t u : Store) → Tells s t → Tells t u → Tells s u
Tells-trans s t u p q = q ∙ ap {A = Store} (λ x. record x { notices = u.notices }) p

-- An action that only tells.
abbrev pub OnlyTells : {A : Type 0} → Action Store A → Type 0
OnlyTells m = (s : Store) → Tells s (m s).1

pub OnlyTells->>= :
    {A B : Type 0} (m : Action Store A) (f : A → Action Store B)
    → OnlyTells m
    → ((a : A) → OnlyTells (f a))
    → OnlyTells (m >>= f)
OnlyTells->>= m f h k s = elim (Result-cases (m s).0) [
  | inl (a, done) ↦
      rw (>>=-eq-of-ok m f s done) (Tells-trans s (m s).1 (f a (m s).1).1 (h s) (k a (m s).1))
  | inr (e, failed) ↦ rw (>>=-eq-of-err m f s failed) (h s)
]

-- What comes after the last step but telling.
pub Tells->>= :
    {A B : Type 0} (m : Action Store A) (f : A → Action Store B) (s : Store)
    → ((a : A) → OnlyTells (f a))
    → Tells (m s).1 ((m >>= f) s).1
Tells->>= m f s k = elim (Result-cases (m s).0) [
  | inl (a, done) ↦ rw (>>=-eq-of-ok m f s done) (k a (m s).1)
  | inr (e, failed) ↦ rw (>>=-eq-of-err m f s failed) refl
]

create_notices-OnlyTells :
    (ids : List ℕ) (type : String) (order : Option ℕ) → OnlyTells (create_notices ids type order)
create_notices-OnlyTells ids type order s =
    elim (Bool-cases (all (λ id. is_some (row id s.users)) ids)) [
      | inl known ↦ rw (known, create_notices) refl
      | inr unknown ↦ rw (unknown, create_notices) refl
    ]

pub create_notification-OnlyTells :
    (id : ℕ) (type : String) (order : Option ℕ) → OnlyTells (create_notification id type order)
unfolding create_notification
create_notification-OnlyTells id type order s =
    elim (Bool-cases (should_notify (row id s.users) type)) [
      | inr unwanted ↦ rw (unwanted, create_notification) refl
      | inl wanted ↦ elim (Bool-cases (is_stranger_to id (row id s.users) order s)) [
        | inl stranger ↦ rw (wanted, stranger, create_notification) refl
        | inr near ↦
            rw (wanted, near, create_notification) (create_notices-OnlyTells (id ∷ []) type order s)
      ]
    ]

pub create_notification_for_users-OnlyTells :
    (ids : List ℕ) (type : String) (order : Option ℕ)
    → OnlyTells (create_notification_for_users ids type order)
unfolding create_notification_for_users
create_notification_for_users-OnlyTells ids type order s = elim (Bool-cases (is_empty ids)) [
  | inl nobody ↦ rw (nobody, create_notification_for_users) refl
  | inr asked ↦ elim (Bool-cases (is_empty (recipients ids type order s))) [
    | inl none_left ↦ rw (asked, none_left, create_notification_for_users) refl
    | inr left ↦
        rw (asked, left, create_notification_for_users)
          (create_notices-OnlyTells (recipients ids type order s) type order s)
  ]
]
