-- ===== src/Notification/Others.antt =====
-- Actions that tell everybody but one user.
use backend_emd.Prelude.{
  ℕ, ◌≡◌, ◌≢◌, inl, inr, refl, sym, ap, ◌∙◌, nat_eq, ◌==◌, all, keep, Bool, not, Option, List, [],
  ◌∷◌, ◌++◌, map, String, arith, Bool-cases, is_some, is_empty, All, All-append,
}
use backend_emd.Prelude.Table.{row}
use backend_emd.Http.{Result-cases, Action, ◌>>=◌, >>=-eq-of-ok, >>=-eq-of-err}
use backend_emd.Store.{Notice, Store}
use backend_emd.Notification.{
  create_notices, create_notification, create_notification_for_users, recipients, should_notify,
  is_stranger_to,
}
use backend_emd.Notification.Reach.{++-nil}

pub ++-assoc {ℓ} : {A : Type ℓ} (xs ys zs : List A) → (xs ++ ys) ++ zs ≡ xs ++ (ys ++ zs)
++-assoc [] ys zs = refl
++-assoc (x ∷ xs) ys zs = ap (λ t. x ∷ t) (++-assoc xs ys zs)

module _ (actor : ℕ) where
  -- Messages were sent, none of them to the actor, and nothing else changed.
  pub record TellsOthers (s s' : Store) : Type 0 where
    pub news : List Notice
    pub sent : s' ≡ record s { notices = s.notices ++ news }
    pub others : All (λ n. n.user ≢ actor) news

  pub TellsOthers-refl : (s : Store) → TellsOthers s s
  TellsOthers-refl s = record {
    news = [];
    sent = ap {A = List Notice} (λ n. record s { notices = n }) (sym (++-nil s.notices));
    others = tt;
  }

  TellsOthers-trans : (s t u : Store) → TellsOthers s t → TellsOthers t u → TellsOthers s u
  TellsOthers-trans s t u p q = record {
    news = p.news ++ q.news;
    sent =
        q.sent
        ∙ ap {A = Store} (λ x. record x { notices = x.notices ++ q.news }) p.sent
        ∙ ap {A = List Notice} (λ n. record s { notices = n }) (++-assoc s.notices p.news q.news);
    others = All-append (λ n. n.user ≢ actor) p.news q.news p.others q.others;
  }

  abbrev pub SparesActor : {A : Type 0} → Action Store A → Type 0
  SparesActor m = (s : Store) → TellsOthers s (m s).1

  pub SparesActor->>= :
      {A B : Type 0} (m : Action Store A) (f : A → Action Store B)
      → SparesActor m
      → ((a : A) → SparesActor (f a))
      → SparesActor (m >>= f)
  SparesActor->>= m f h k s = elim (Result-cases (m s).0) [
    | inl (a, done) ↦
        rw (>>=-eq-of-ok m f s done)
          (TellsOthers-trans s (m s).1 (f a (m s).1).1 (h s) (k a (m s).1))
    | inr (e, failed) ↦ rw (>>=-eq-of-err m f s failed) (h s)
  ]

  notices-others :
      (type : String) (order : Option ℕ) (ids : List ℕ)
      → All (λ id. id ≢ actor) ids
      → All
          (λ (n : Notice). n.user ≢ actor)
          (map (λ id. record { user = id; type = type; order = order }) ids)
  notices-others type order [] h = tt
  notices-others type order (id ∷ ids) (h, hs) = (h, notices-others type order ids hs)

  pub keep-others :
      (p : ℕ → Bool) (ids : List ℕ)
      → All (λ id. id ≢ actor) ids
      → All (λ id. id ≢ actor) (keep p ids)
  keep-others p [] h = tt
  keep-others p (id ∷ ids) (h, hs) = elim (Bool-cases (p id)) [
    | inl kept ↦ rw kept (h, keep-others p ids hs)
    | inr dropped ↦ rw dropped (keep-others p ids hs)
  ]

  -- `ids.filter((id) => id !== actorId)`
  pub filtered-others : (ids : List ℕ) → All (λ id. id ≢ actor) (keep (λ id. not (id == actor)) ids)
  filtered-others [] = tt
  filtered-others (id ∷ ids) = elim (Bool-cases (id == actor)) [
    | inl own ↦ rw own (filtered-others ids)
    | inr other ↦ rw other ((λ e. ground (arith, other)), filtered-others ids)
  ]

  create_notices-SparesActor :
      (ids : List ℕ) (type : String) (order : Option ℕ)
      → All (λ id. id ≢ actor) ids
      → SparesActor (create_notices ids type order)
  create_notices-SparesActor ids type order h s =
      elim (Bool-cases (all (λ id. is_some (row id s.users)) ids)) [
        | inl known ↦
            rw (known, create_notices)
              (record {
                news = map (λ id. record { user = id; type = type; order = order }) ids;
                sent = refl;
                others = notices-others type order ids h;
              })
        | inr unknown ↦ rw (unknown, create_notices) (TellsOthers-refl s)
      ]

  pub create_notification-SparesActor :
      (id : ℕ) (type : String) (order : Option ℕ)
      → id ≢ actor
      → SparesActor (create_notification id type order)
  unfolding create_notification
  create_notification-SparesActor id type order h s =
      elim (Bool-cases (should_notify (row id s.users) type)) [
        | inr unwanted ↦ rw (unwanted, create_notification) (TellsOthers-refl s)
        | inl wanted ↦ elim (Bool-cases (is_stranger_to id (row id s.users) order s)) [
          | inl stranger ↦ rw (wanted, stranger, create_notification) (TellsOthers-refl s)
          | inr near ↦
              rw (wanted, near, create_notification)
                (create_notices-SparesActor (id ∷ []) type order (h, tt) s)
        ]
      ]

  pub create_notification_for_users-SparesActor :
      (ids : List ℕ) (type : String) (order : Option ℕ)
      → All (λ id. id ≢ actor) ids
      → SparesActor (create_notification_for_users ids type order)
  unfolding create_notification_for_users recipients
  create_notification_for_users-SparesActor ids type order h s = elim (Bool-cases (is_empty ids)) [
    | inl nobody ↦ rw (nobody, create_notification_for_users) (TellsOthers-refl s)
    | inr asked ↦ elim (Bool-cases (is_empty (recipients ids type order s))) [
      | inl none_left ↦ rw (asked, none_left, create_notification_for_users) (TellsOthers-refl s)
      | inr left ↦
          rw (asked, left, create_notification_for_users)
            (create_notices-SparesActor (recipients ids type order s) type order
              (keep-others _ ids h) s)
    ]
  ]
