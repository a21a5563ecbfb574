-- ===== src/Orders/Take.antt =====
-- Who attends an order and who draws it: `assertUserBelongsToArea`, `takeReception`, `takeDesign`
-- and `startDesign` of src/order/order.service.ts. The name of who starts is a text for display and
-- is left out of the order's row; what is returned is the order, read again.
pub mod Design
use backend_emd.Prelude.{
  ℕ, nat_eq, string_eq, option_eq, ◌==◌, contains, Bool, true, false, not, ◌&&◌, ◌||◌, Option, none,
  some, List, [], ◌∷◌, ◌++◌, String, if◌then◌else◌, is_some, or_else, trim, is_empty_text,
}
use backend_emd.Prelude.Table.{row, put}
use backend_emd.Http.{
  Result, ok, err, bad_request, not_found, Action, ◌>>=◌, ◌>>◌, pure, gets, modify, throw_if,
  or_throw, check, guard, then_check,
}
use backend_emd.Area.Access.{RequestingUser, design_area}
use backend_emd.Store.{User, Order, AuditEntry, Store}
use backend_emd.Orders.Access.{assert_order_access}

abbrev pub works_in : String → Option User → Bool
works_in area none = false
works_in area (some u) = contains u.areas area

-- An absent user is `undefined`; who is not there and who does not work there are refused alike.
unfoldable pub assert_user_belongs_to_area : Option ℕ → String → Action Store (Unit {0})
assert_user_belongs_to_area none area s = (err bad_request, s)
assert_user_belongs_to_area (some user) area s =
    (guard (not (works_in area (row user s.users))) bad_request, s)

abbrev pub audit_entry : ℕ → String → ℕ → AuditEntry
audit_entry order action user = record { user = user; action = action; order = order }

-- The two writes of a transaction: the order and a row of its audit.
abbrev pub write_order : ℕ → Order → String → ℕ → Store → Store
write_order id order action user s = record s {
  orders = put id order s.orders;
  audit = s.audit ++ audit_entry id action user ∷ [];
}

unfoldable pub attend : ℕ → ℕ → Order → Action Store (Unit {0})
attend id user order =
    if order.attended_by == some user
    then pure tt
    else modify (write_order id (record order { attended_by = some user }) "reception_taken" user)

unfoldable pub take_reception : ℕ → RequestingUser → Action Store (Option Order)
unfolding assert_order_access attend
take_reception id user = do
  order ← assert_order_access id (some user)
  attend id user.user_id order
  gets (λ s. row id s.orders)

abbrev pub is_design_shared_account : Option User → Bool
is_design_shared_account none = false
is_design_shared_account (some u) = u.is_shared_account && contains u.areas design_area

-- Nobody has the order, or the account that stands for any designer.
unfoldable pub is_free_design : Order → Store → Bool
is_free_design order s = elim order.assigned_user [
  | none ↦ true
  | some id ↦ is_design_shared_account (row id s.users)
]

-- Who takes the order has begun it, unless somebody had.
abbrev pub begun : Order → ℕ → ℕ → Order
begun order user now = record order {
  design_started_at = if is_some order.design_started_at then order.design_started_at else some now;
  design_started_by =
      if is_some order.design_started_at then order.design_started_by else some user;
}

unfoldable pub assign_design : ℕ → ℕ → ℕ → Order → Action Store (Unit {0})
unfolding is_free_design
assign_design id user now order s =
    if order.assigned_user == some user
    then (ok tt, s)
    else if not (is_free_design order s)
    then (err bad_request, s)
    else (
      ok tt,
      write_order id (record (begun order user now) { assigned_user = some user }) "design_taken"
          user s,
    )

-- The order, read after the guards.
unfoldable pub take_read : ℕ → ℕ → ℕ → Action Store (Unit {0})
unfolding assign_design
take_read id user now s = elim (row id s.orders) [
  | none ↦ (err not_found, s)
  | some order ↦ assign_design id user now order s
]

unfoldable pub take_design : ℕ → RequestingUser → ℕ → Action Store (Option Order)
unfolding assert_order_access assert_user_belongs_to_area take_read
take_design id user now = do
  order ← assert_order_access id (some user)
  assert_user_belongs_to_area (some user.user_id) design_area
  take_read id user.user_id now
  gets (λ s. row id s.orders)

-- The order waits for Design.
unfoldable pub is_in_design : Order → Bool
is_in_design order = order.requires_design && order.area == some design_area

abbrev pub is_shared : Option User → Bool
is_shared none = false
is_shared (some u) = u.is_shared_account

-- `dto.name?.trim()` is empty or absent.
abbrev pub lacks_name : Option String → Bool
lacks_name none = true
lacks_name (some name) = is_empty_text (trim name)

unfoldable pub mark_started : ℕ → ℕ → Option String → ℕ → Order → Action Store (Unit {0})
unfolding is_in_design
mark_started id user name now order s =
    if not (is_in_design order)
    then (err bad_request, s)
    else if is_some order.design_started_at
    then (ok tt, s)
    else if is_shared (row user s.users) && lacks_name name
    then (err bad_request, s)
    else (ok tt, write_order id (begun order user now) "design_started" user s)

unfoldable pub start_read : ℕ → ℕ → Option String → ℕ → Action Store (Unit {0})
unfolding mark_started
start_read id user name now s = elim (row id s.orders) [
  | none ↦ (err not_found, s)
  | some order ↦ mark_started id user name now order s
]

unfoldable pub start_design : ℕ → Option String → RequestingUser → ℕ → Action Store (Option Order)
unfolding assert_order_access assert_user_belongs_to_area start_read
start_design id name user now = do
  order ← assert_order_access id (some user)
  assert_user_belongs_to_area (some user.user_id) design_area
  start_read id user.user_id name now
  gets (λ s. row id s.orders)
