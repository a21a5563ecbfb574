-- ===== src/Orders/Take/Design.antt =====
-- Taking the design of an order (`takeDesign` of src/order/order.service.ts): who may, and what it
-- leaves.
use backend_emd.Prelude.{
  ℕ, ◌≡◌, ◌≢◌, refl, ◌∙◌, subst, ◌⊎◌, inl, inr, nat_eq, option_eq, ◌==◌, Bool, true, false, ◌||◌,
  Option, none, some, Bool-cases, false-or-true, some_unique, is_some, if◌then◌else◌,
}
use backend_emd.Prelude.Table.{row, row-put_self, row-put_ne}
use backend_emd.Http.{
  HttpError, Result, ok, err, bad_request, Action, ◌>>=◌, gets, >>=-eq, >>=-eq_err,
}
use backend_emd.Area.Access.{RequestingUser, design_area}
use backend_emd.Store.{Order, Store}
use backend_emd.Orders.Access.{assert_order_access}
use backend_emd.Orders.Access.Outcomes.{
  MaySee, assert_order_access-MaySee, assert_order_access_cases,
}
use backend_emd.Orders.Take.{
  works_in, assert_user_belongs_to_area, is_free_design, begun, assign_design, take_read,
  take_design, write_order,
}

module _ (id : ℕ) (user : RequestingUser) (now : ℕ) (s : Store) where
  -- The user sees the order, is one of Design, and either has the order already, or nobody does, or
  -- the shared account of Design.
  pub record MayTake (order : Order) : Type 0 where
    pub seen : MaySee id (some user) s order
    pub designs : works_in design_area (row user.user_id s.users) ≡ true
    pub free : (order.assigned_user == some user.user_id || is_free_design order s) ≡ true

  -- The order is the user's; an order that had been begun keeps who began it and when, and one that
  -- changes hands has been begun; nothing else of it has changed, and no other order.
  pub record IsTaken (order : Order) (s' : Store) : Type 0 where
    pub after : Order
    pub found : row id s'.orders ≡ some after
    pub mine : after.assigned_user ≡ some user.user_id
    pub rest : after ≡ record order {
      assigned_user = after.assigned_user;
      design_started_at = after.design_started_at;
      design_started_by = after.design_started_by;
    }
    pub begun_once :
        is_some order.design_started_at ≡ true
        → (after.design_started_at ≡ order.design_started_at)
          × (after.design_started_by ≡ order.design_started_by)
    pub started :
        (order.assigned_user == some user.user_id) ≡ false → is_some after.design_started_at ≡ true
    pub others : (j : ℕ) → j ≢ id → row j s'.orders ≡ row j s.orders

  reads : Action Store (Option Order)
  reads = gets (λ s. row id s.orders)

  rest_of : Unit {0} → Action Store (Option Order)
  rest_of _ = take_read id user.user_id now >>= λ _. reads

  after_access : Order → Action Store (Option Order)
  after_access order = assert_user_belongs_to_area (some user.user_id) design_area >>= rest_of

  take_design-of_access :
      (order : Order)
      → MaySee id (some user) s order
      → take_design id user now s ≡ after_access order s
  unfolding take_design after_access rest_of reads
  take_design-of_access order seen =
      >>=-eq (assert_order_access id (some user)) after_access s
        (assert_order_access-MaySee id (some user) s order seen)

  take_design-of_denied :
      {e : HttpError}
      → assert_order_access id (some user) s ≡ (err e, s)
      → take_design id user now s ≡ (err e, s)
  unfolding take_design after_access rest_of reads
  take_design-of_denied failed =
      >>=-eq_err (assert_order_access id (some user)) after_access s failed

  belongs :
      (b : Bool)
      → works_in design_area (row user.user_id s.users) ≡ b
      → assert_user_belongs_to_area (some user.user_id) design_area s
        ≡ ((if b then ok tt else err bad_request), s)
  unfolding assert_user_belongs_to_area
  belongs true h = rw (h, assert_user_belongs_to_area) refl
  belongs false h = rw (h, assert_user_belongs_to_area) refl

  take_read-of_row :
      (order : Order)
      → row id s.orders ≡ some order
      → take_read id user.user_id now s ≡ assign_design id user.user_id now order s
  unfolding take_read
  take_read-of_row order there = rw (there, take_read) refl

  -- Who does not work in Design is refused.
  after_access_denied :
      (order : Order)
      → works_in design_area (row user.user_id s.users) ≡ false
      → after_access order s ≡ (err bad_request, s)
  unfolding after_access
  after_access_denied order h =
      >>=-eq_err (assert_user_belongs_to_area (some user.user_id) design_area) rest_of s
        (belongs false h)

  after_access_of :
      (order : Order) {r : Result (Option Order) × Store}
      → works_in design_area (row user.user_id s.users) ≡ true
      → rest_of tt s ≡ r
      → after_access order s ≡ r
  unfolding after_access
  after_access_of order h p =
      >>=-eq (assert_user_belongs_to_area (some user.user_id) design_area) rest_of s
        (belongs true h)
      ∙ p

  rest_of_ok :
      (order : Order) (s' : Store)
      → row id s.orders ≡ some order
      → assign_design id user.user_id now order s ≡ (ok tt, s')
      → rest_of tt s ≡ (ok (row id s'.orders), s')
  unfolding rest_of reads
  rest_of_ok order s' there done =
      >>=-eq (take_read id user.user_id now) (λ _. reads) s (take_read-of_row order there ∙ done)

  rest_of_err :
      (order : Order) {e : HttpError}
      → row id s.orders ≡ some order
      → assign_design id user.user_id now order s ≡ (err e, s)
      → rest_of tt s ≡ (err e, s)
  unfolding rest_of reads
  rest_of_err order there failed =
      >>=-eq_err (take_read id user.user_id now) (λ _. reads) s
        (take_read-of_row order there ∙ failed)

  -- How the part after the guards ends.
  assign_design_cases :
      (order : Order)
      → row id s.orders ≡ some order
      → ((order.assigned_user == some user.user_id || is_free_design order s) ≡ true)
          × ((s' : Store) × (assign_design id user.user_id now order s ≡ (ok tt, s'))
              × IsTaken order s')
        ⊎ ((order.assigned_user == some user.user_id || is_free_design order s) ≡ false)
          × (assign_design id user.user_id now order s ≡ (err bad_request, s))
  unfolding assign_design
  assign_design_cases order there = elim (Bool-cases (order.assigned_user == some user.user_id)) [
    | inl own ↦ inl (rw own refl, (s, rw (own, assign_design) refl, own_IsTaken own))
    | inr other ↦ elim (Bool-cases (is_free_design order s)) [
      | inl free ↦
          inl (
            rw (other, free) refl,
            (written, rw (other, free, assign_design) refl, written_IsTaken),
          )
      | inr held ↦ inr (rw (other, held) refl, rw (other, held, assign_design) refl)
    ]
  ]
    where
      starts : (at : Option ℕ) → is_some (if is_some at then at else some now) ≡ true
      starts none = refl
      starts (some t) = refl

      written : Store
      written =
          write_order id
            (record (begun order user.user_id now) { assigned_user = some user.user_id })
            "design_taken" user.user_id s

      own_IsTaken : (order.assigned_user == some user.user_id) ≡ true → IsTaken order s
      own_IsTaken own = record {
        after = order;
        found = there;
        mine = (option_eq.decides order.assigned_user (some user.user_id)).0 own;
        rest = refl;
        begun_once = λ _. (refl, refl);
        started = λ h. absurd (false-or-true h own);
        others = λ j _. refl;
      }

      written_IsTaken : IsTaken order written
      written_IsTaken = record {
        after = record (begun order user.user_id now) { assigned_user = some user.user_id };
        found = row-put_self id _ s.orders;
        mine = refl;
        rest = refl;
        begun_once = λ h. (rw h refl, rw h refl);
        started = λ _. starts order.design_started_at;
        others = λ j h. row-put_ne j id _ s.orders h;
      }

  pub take_design_cases :
      ((order : Order) × (s' : Store) × MayTake order
        × (take_design id user now s ≡ (ok (row id s'.orders), s'))
        × IsTaken order s')
      ⊎ ((e : HttpError) × (take_design id user now s ≡ (err e, s))
          × ((order : Order) → ¬ (MayTake order)))
  take_design_cases = elim (assert_order_access_cases id (some user) s) [
    | inr (e, failed, unseen) ↦ inr (e, take_design-of_denied failed, λ o m. unseen o m.seen)
    | inl (order, seen, _) ↦ elim (Bool-cases (works_in design_area (row user.user_id s.users))) [
      | inr no_designer ↦ inr (
        bad_request,
        take_design-of_access order seen ∙ after_access_denied order no_designer,
        λ o m. false-or-true no_designer m.designs,
      )
      | inl designs ↦ elim (assign_design_cases order seen.0) [
        | inl (free, (s', done, taken)) ↦ inl (
          order,
          s',
          record { seen = seen; designs = designs; free = free },
          take_design-of_access order seen
              ∙ after_access_of order designs (rest_of_ok order s' seen.0 done),
          taken,
        )
        | inr (held, failed) ↦ inr (
          bad_request,
          take_design-of_access order seen
              ∙ after_access_of order designs (rest_of_err order seen.0 failed),
          λ o m. false-or-true held (
              subst
                (λ (x : Order). (x.assigned_user == some user.user_id || is_free_design x s) ≡ true)
                (some_unique m.seen.0 seen.0) m.free),
        )
      ]
    ]
  ]
