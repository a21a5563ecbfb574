-- ===== src/Orders/Access.antt =====
-- Who may see an order: `filterOrdersForUser`, `orderVisibilityWhere` and `assertOrderAccess` of
-- src/order/order.service.ts, and `branchOrdersWhere` of src/branch/branch-access.ts.
pub mod Agree
pub mod Outcomes
use backend_emd.Prelude.{
  is_empty, ℕ, nat_eq, string_eq, option_eq, ◌==◌, contains, keep, Bool, true, false, not, ◌&&◌,
  Option, none, some, List, [], ◌∷◌, String, if◌then◌else◌, is_some,
}
use backend_emd.Prelude.Table.{Table, row, rows}
use backend_emd.Http.{Result, ok, err, not_found, forbidden, Action, guard}
use backend_emd.Area.Access.{
  RequestingUser, member_of, areas_of, is_branch_only_user, is_full_visibility_role,
}
use backend_emd.Store.{Order, User, Store}

-- A user's area, as a filter reads it: neither `null` nor empty, and one of theirs.
abbrev pub is_in_areas : List String → Order → Bool
is_in_areas areas order = elim order.area [
  | none ↦ false
  | some area ↦ not (area == "") && contains areas area
]

unfoldable pub filter_orders_for_user : List Order → Option RequestingUser → List Order
unfolding areas_of is_full_visibility_role
filter_orders_for_user orders none = orders
filter_orders_for_user orders (some user) =
    let areas = areas_of (member_of user) in
    if is_full_visibility_role (some user.roles)
    then orders
    else if is_empty areas
    then []
    else keep (is_in_areas areas) orders

-- `where` clauses over the orders.
pub data OrderWhere : Type 0 where
  any_order : OrderWhere
  of_branch_of : ℕ → OrderWhere
  area_in : List String → OrderWhere

-- What the database selects: an order of the branch whose accounts include the user; an order
-- whose area is in the list, which `null` is not.
unfoldable pub selects : Store → OrderWhere → Order → Bool
selects s any_order order = true
selects s (of_branch_of user) order = elim (row user s.users) [
  | none ↦ false
  | some u ↦ is_some order.branch && order.branch == u.branch
]
selects s (area_in areas) order = elim order.area [ none ↦ false | some area ↦ contains areas area ]

abbrev pub branch_orders_where : ℕ → OrderWhere
branch_orders_where user = of_branch_of user

-- `none` is the sentinel of who sees nothing.
unfoldable pub order_visibility_where : Option RequestingUser → Option OrderWhere
unfolding areas_of is_full_visibility_role is_branch_only_user
order_visibility_where none = some any_order
order_visibility_where (some user) =
    if is_branch_only_user (member_of user)
    then some (branch_orders_where user.user_id)
    else if is_full_visibility_role (some user.roles)
    then some any_order
    else if is_empty (areas_of (member_of user))
    then none
    else some (area_in (areas_of (member_of user)))

abbrev pub is_branch_only : Option RequestingUser → Bool
is_branch_only none = false
is_branch_only (some user) = is_branch_only_user (member_of user)

abbrev pub is_of_own_branch : Option RequestingUser → Order → Store → Bool
is_of_own_branch none order s = false
is_of_own_branch (some user) order s = selects s (branch_orders_where user.user_id) order

-- What is refused, of an order that is there.
unfoldable pub is_refused : Option RequestingUser → Order → Store → Bool
unfolding filter_orders_for_user selects is_branch_only_user
is_refused user order s =
    if is_branch_only user
    then not (is_of_own_branch user order s)
    else is_empty (filter_orders_for_user (order ∷ []) user)

unfoldable pub assert_order_access : ℕ → Option RequestingUser → Action Store Order
unfolding is_refused
assert_order_access id user s = elim (row id s.orders) [
  | none ↦ (err not_found, s)
  | some order ↦ if is_refused user order s then (err forbidden, s) else (ok order, s)
]

-- The orders that a list shows (`findAll` and the other lists, before their own filters).
unfoldable pub visible_orders : Option RequestingUser → Store → Table Order
unfolding order_visibility_where selects
visible_orders user s = elim (order_visibility_where user) [
  | none ↦ []
  | some clause ↦ rows (λ _ o. selects s clause o) s.orders
]
