-- ===== src/Orders/Rounds/Opens.antt =====
-- What Design sends opens the one round that may be answered (`createDesignRevision` and
-- `assertRevisionAwaitingResponse` of src/order/order.service.ts).
use backend_emd.Prelude.{
  ℕ, ◌+◌, ◌≤◌, ◌<◌, ◌≡◌, ◌↔◌, refl, sym, ap, ◌∙◌, subst, ◌⊎◌, inl, inr, arith, nat_eq, string_eq,
  ◌==◌, true, false, Option, none, some, List, [], ◌∷◌, ◌++◌, String, Bool-cases, Option-cases,
}
use backend_emd.Prelude.Table.{Table, row, row-update_row}
use backend_emd.Http.{
  HttpError, Result, ok, err, conflict, internal, Action, ◌>>=◌, check, >>=-inv, >>=-eq, >>=-eq_err,
}
use backend_emd.Area.Access.{RequestingUser}
use backend_emd.Area.Config.{value_at}
use backend_emd.Notification.Frame.{OnlyTells, create_notification-OnlyTells}
use backend_emd.Task.Sync.{id_for}
use backend_emd.Orders.Access.{assert_order_access}
use backend_emd.Orders.Access.Outcomes.{assert_order_access_cases}
use backend_emd.Orders.Rounds.Awaiting.{HasDistinctIds, is_awaiting-of_status}
use backend_emd.Store.{Order, DesignRevision, Notice, Store}
use backend_emd.Supply.Sheet.{next_key}
use backend_emd.Supply.Sheet.Keys.{row-next_key, row-append}
use backend_emd.Orders.Rounds.{
  last_round, has_newer, is_answered, is_awaiting, assert_revision_awaiting_response, new_revision,
  write_revision, tell_other, send_revision, create_design_revision, montage_files,
  reception_owner_id_of, status_name_esperando_autorizacion,
}

module _ (order : ℕ) where
  round-le-last_round :
      (id : ℕ) (r : DesignRevision) (t : Table DesignRevision)
      → row id t ≡ some r
      → r.order ≡ order
      → r.round ≤ last_round order t
  unfolding last_round
  round-le-last_round id r [] h own = cc
  round-le-last_round id r ((j, x) ∷ t) h own = ground (arith, round-le-last_round id r t)

  has_newer-append :
      (round k : ℕ) (new : DesignRevision) (t : Table DesignRevision)
      → new.order ≡ order
      → round < new.round
      → has_newer order round (t ++ (k, new) ∷ []) ≡ true
  unfolding has_newer
  has_newer-append round k new [] own lt = ground arith
  has_newer-append round k new ((j, x) ∷ t) own lt =
      ground (arith, has_newer-append round k new t own lt)

  has_newer_last :
      (round k : ℕ) (new : DesignRevision) (t : Table DesignRevision)
      → last_round order t < round
      → new.round ≡ round
      → has_newer order round (t ++ (k, new) ∷ []) ≡ false
  unfolding has_newer last_round
  has_newer_last round k new [] lt same = ground arith
  has_newer_last round k new ((j, x) ∷ t) lt same = ground (arith, has_newer_last round k new t)

module _ (lower : String → String) (order user : ℕ) where
  -- The round under the key is of the order and the user's, and is the one that may be answered.
  pub record Opens (k : ℕ) (s : Store) : Type 0 where
    pub opened : DesignRevision
    pub found : row k s.revisions ≡ some opened
    pub of_order : opened.order ≡ order
    pub by_user : opened.sent_by ≡ some user
    pub only :
        (id : ℕ) (r : DesignRevision)
        → row id s.revisions ≡ some r
        → r.order ≡ order
        → (assert_revision_awaiting_response lower order r s ≡ ok tt) ↔ (id ≡ k)

  Opens-of_last :
      (files : List String) (old : Table DesignRevision) (s : Store)
      → s.revisions
        ≡ old ++ (next_key old, new_revision order (last_round order old + 1) user files) ∷ []
      → is_awaiting lower order s ≡ true
      → Opens (next_key old) s
  unfolding assert_revision_awaiting_response is_answered
  Opens-of_last files old s e awaits = record {
    opened = new;
    found = rw e (row-append k k new old fresh ∙ ground arith);
    of_order = refl;
    by_user = refl;
    only = λ id r there own.
        (let there' = rw e at there in judge id r there' own (Bool-cases (k == id)));
  }
    where
      k : ℕ
      k = next_key old

      new : DesignRevision
      new = new_revision order (last_round order old + 1) user files

      fresh : row k old ≡ none
      fresh = row-next_key old

      accepted : assert_revision_awaiting_response lower order new s ≡ ok tt
      accepted =
          let last : has_newer order (last_round order old + 1) s.revisions ≡ false =
            rw e (has_newer_last order (last_round order old + 1) k new old (omega arith) refl) in
          rw (last, awaits, assert_revision_awaiting_response) refl

      refused :
          (r : DesignRevision)
          → has_newer order r.round s.revisions ≡ true
          → assert_revision_awaiting_response lower order r s ≡ err conflict
      refused r newer = elim (Bool-cases (is_answered r)) [
        | inl old_one ↦ rw (old_one, assert_revision_awaiting_response) refl
        | inr pending ↦ rw (pending, newer, assert_revision_awaiting_response) refl
      ]

      differ :
          (r : DesignRevision)
          → assert_revision_awaiting_response lower order r s ≡ err conflict
          → assert_revision_awaiting_response lower order r s ≡ ok tt
          → ⊥
      differ r p q = cc

      apart : (id : ℕ) → (k == id) ≡ false → id ≡ k → ⊥
      apart id p q = ground arith

      judge :
          (id : ℕ) (r : DesignRevision)
          → row id (old ++ (k, new) ∷ []) ≡ some r
          → r.order ≡ order
          → ((k == id) ≡ true) ⊎ ((k == id) ≡ false)
          → (assert_revision_awaiting_response lower order r s ≡ ok tt) ↔ (id ≡ k)
      judge id r there own (inl same) =
          let here : some new ≡ some r =
            sym (row-append id k new old fresh ∙ rw same refl) ∙ there in
          let is : new ≡ r = cc here in
          (
            λ _. ground (arith, same),
            λ _.
                subst
                  (λ (x : DesignRevision).
                    assert_revision_awaiting_response lower order x s ≡ ok tt)
                  is accepted,
          )
      judge id r there own (inr other) =
          let before : row id old ≡ some r =
            sym (row-append id k new old fresh ∙ rw other refl) ∙ there in
          let newer : has_newer order r.round s.revisions ≡ true = rw e (
            has_newer-append order r.round k new old refl
              (omega (arith, round-le-last_round order id r old before own))) in
          (λ h. absurd (differ r (refused r newer) h), λ h. absurd (apart id other h))

  tell_other-OnlyTells : (owner : ℕ) (type : String) → OnlyTells (tell_other owner user type order)
  unfolding tell_other
  tell_other-OnlyTells owner type s = elim (Bool-cases (owner == user)) [
    | inl own ↦ rw (own, tell_other) refl
    | inr other ↦ rw (other, tell_other) (create_notification-OnlyTells owner type (some order) s)
  ]

  module _ (s : Store) (distinct : HasDistinctIds s.statuses)
      (waits : (lower status_name_esperando_autorizacion == status_name_esperando_autorizacion)
        ≡ true) where
    write_revision-Opens :
        (status : ℕ) (files : List String) (o : Order) (notices : List Notice)
        → value_at status_name_esperando_autorizacion s.statuses ≡ some status
        → row order s.orders ≡ some o
        → Opens
            (next_key s.revisions)
            (record (write_revision order user status (last_round order s.revisions + 1) files s) {
              notices = notices;
            })
    unfolding write_revision
    write_revision-Opens status files o notices known there =
        let s' =
          record (write_revision order user status (last_round order s.revisions + 1) files s) {
            notices = notices;
          } in
        Opens-of_last files s.revisions s' refl (
          is_awaiting-of_status lower order status_name_esperando_autorizacion status
            (record o { status = status; archived_at = none }) s' distinct known
            (row-update_row order (λ x. record x { status = status; archived_at = none }) o s.orders
              there)
            refl
          ∙ waits)

    send_revision-Opens :
        (files : List String) (o : Order)
        → row order s.orders ≡ some o
        → (send_revision order user files o s).0 ≡ ok tt
        → Opens (next_key s.revisions) (send_revision order user files o s).1
    unfolding send_revision id_for
    send_revision-Opens files o there h =
        elim (Option-cases (value_at status_name_esperando_autorizacion s.statuses)) [
          | inl missing ↦ absurd (differ (rw (missing, send_revision, ◌>>=◌) refl) h)
          | inr (status, known) ↦
              let tell = tell_other (reception_owner_id_of o) user "design_montage_sent" order in
              let t = write_revision order user status (last_round order s.revisions + 1) files s in
              let is : send_revision order user files o s ≡ tell t =
                rw (known, send_revision, ◌>>=◌) refl in
              rw is (
                rw (tell_other-OnlyTells (reception_owner_id_of o) "design_montage_sent" t)
                  (write_revision-Opens status files o (tell t).1.notices known there))
        ]
      where
        differ :
            (send_revision order user files o s).0 ≡ err internal
            → (send_revision order user files o s).0 ≡ ok tt
            → ⊥
        differ p q = cc

module _ (lower : String → String) (assert_files_valid : List String → Result (Unit {0})) where
  -- Design sends a new round: if that succeeds, there is a round of the order, sent by the user,
  -- which may be answered, and no other round of the order may be, whatever was answered before.
  -- No two statuses have one id, and the name of the status that waits is its own lower case.
  pub create_design_revision-Opens :
      (order : ℕ) (many : List String) (single : Option String) (user : RequestingUser) (s : Store)
      → HasDistinctIds s.statuses
      → (lower status_name_esperando_autorizacion == status_name_esperando_autorizacion) ≡ true
      → (create_design_revision assert_files_valid order many single user s).0 ≡ ok tt
      → Opens lower order user.user_id
          (next_key s.revisions)
          (create_design_revision assert_files_valid order many single user s).1
  unfolding create_design_revision
  create_design_revision-Opens order many single user s distinct waits h =
      elim (assert_order_access_cases order (some user) s) [
        | inr (e, failed, unseen) ↦
            absurd (differ e (ap (λ p. p.0) (>>=-eq_err access next s failed)) h)
        | inl (o, (there, fine), seen) ↦
            let is = >>=-eq access next s seen in
            let (files, good, sent, whole) =
              >>=-inv (check (montage_files assert_files_valid many single))
                (λ files. send_revision order user.user_id files o) s (rw is at h) in
            rw (is, whole)
              (send_revision-Opens lower order user.user_id s distinct waits files o there sent)
      ]
    where
      access : Action Store Order
      access = assert_order_access order (some user)

      next : Order → Action Store (Unit {0})
      next o = check (montage_files assert_files_valid many single) >>= λ files.
          send_revision order user.user_id files o

      differ :
          (e : HttpError)
          → (create_design_revision assert_files_valid order many single user s).0 ≡ err e
          → (create_design_revision assert_files_valid order many single user s).0 ≡ ok tt
          → ⊥
      differ e p q = cc
