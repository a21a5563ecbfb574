-- ===== src/Orders/Access/Agree.antt =====
-- The lists of orders and the access to one order go by the same rule.
use text.Mathlib.TextEquality.{eq_iff}
use backend_emd.Prelude.{
  ℕ, ◌≡◌, refl, ap, ◌↔◌, arith, string_eq, ◌==◌, contains, Bool-cases, Option-cases, inl, inr, Bool,
  true, false, not, Option, none, some, List, [], ◌∷◌, String,
}
use backend_emd.Prelude.Table.{row, HasDistinctKeys}
use backend_emd.Prelude.Selection.{row-rows, row-rows-some}
use backend_emd.Http.{HttpError, ok, err, not_found, forbidden}
use backend_emd.Area.Access.{RequestingUser, member_of, areas_of}
use backend_emd.Store.{Order, Store}
use backend_emd.Orders.Access.{
  order_visibility_where, selects, is_refused, assert_order_access, visible_orders, is_in_areas,
  area_in,
}

-- No area of the session is the empty text.
abbrev pub HasRealAreas : Option RequestingUser → Type 0
HasRealAreas none = Unit {0}
HasRealAreas (some user) = contains (areas_of (member_of user)) "" ≡ false

-- The order is in the lists of the user.
abbrev is_shown : Option RequestingUser → Store → Order → Bool
is_shown user s order = elim (order_visibility_where user) [
  | none ↦ false
  | some clause ↦ selects s clause order
]

contains_ne :
    (areas : List String) (a b : String)
    → contains areas a ≡ true
    → contains areas b ≡ false
    → (a == b) ≡ false
contains_ne [] a b h k = cc
contains_ne (x ∷ xs) a b h k =
    ground (arith, eq_iff x a, eq_iff x b, eq_iff a b, contains_ne xs a b)

is_in_areas-selects :
    (areas : List String) (order : Order) (s : Store)
    → contains areas "" ≡ false
    → is_in_areas areas order ≡ selects s (area_in areas) order
unfolding selects
is_in_areas-selects areas order s real = elim (Option-cases order.area) [
  | inl no_area ↦ rw (no_area, is_in_areas) refl
  | inr (area, there) ↦ rw (there, is_in_areas) (ground (arith, contains_ne areas area ""))
]

is_refused-is_shown :
    (user : Option RequestingUser) (order : Order) (s : Store)
    → HasRealAreas user
    → is_refused user order s ≡ not (is_shown user s order)
unfolding is_refused order_visibility_where
is_refused-is_shown none order s real = refl
is_refused-is_shown (some user) order s real =
    ground (arith, is_in_areas-selects (areas_of (member_of user)) order s)

module _ (id : ℕ) (user : Option RequestingUser) (s : Store) (real : HasRealAreas user)
    (distinct : HasDistinctKeys s.orders) where
  shown-of_row :
      (order : Order)
      → row id (visible_orders user s) ≡ some order
      → (row id s.orders ≡ some order) × (is_shown user s order ≡ true)
  unfolding visible_orders
  shown-of_row order h = elim (Option-cases (order_visibility_where user)) [
    | inl nothing ↦ absurd (impossible (rw (nothing, visible_orders) at h))
    | inr (clause, there) ↦
        let h' =
          row-rows (λ _ o. selects s clause o) (λ _. true) id order s.orders distinct
            (rw (there, visible_orders) at h) in
        (h'.0, rw (there, is_shown) h'.1)
  ]
    where
      impossible : {o : Order} → ◌≡◌ {A = Option Order} none (some o) → ⊥
      impossible e = cc

  row-of_shown :
      (order : Order)
      → row id s.orders ≡ some order
      → is_shown user s order ≡ true
      → row id (visible_orders user s) ≡ some order
  unfolding visible_orders
  row-of_shown order there h = elim (Option-cases (order_visibility_where user)) [
    | inl nothing ↦ absurd (impossible (rw (nothing, is_shown) at h))
    | inr (clause, c) ↦
        rw (c, visible_orders)
          (row-rows-some (λ _ o. selects s clause o) (λ _. true) id order s.orders
            (rw (c, is_shown) at h) there)
  ]
    where
      impossible : false ≡ true → ⊥
      impossible e = cc

  opened :
      (order : Order)
      → assert_order_access id user s ≡ (ok order, s)
      → (row id s.orders ≡ some order) × (is_shown user s order ≡ true)
  unfolding assert_order_access
  opened order h = elim (Option-cases (row id s.orders)) [
    | inl missing ↦
        absurd (differ not_found (rw (missing, assert_order_access) refl) (ap (λ p. p.0) h))
    | inr (o, there) ↦ elim (Bool-cases (is_refused user o s)) [
      | inl refused ↦
          absurd
            (differ forbidden (rw (there, refused, assert_order_access) refl) (ap (λ p. p.0) h))
      | inr fine ↦
          let is : (assert_order_access id user s).0 ≡ ok o =
            rw (there, fine, assert_order_access) refl in
          let same : o ≡ order = cc (ap (λ p. p.0) h) in
          let shown : is_shown user s o ≡ true =
            ground (arith, is_refused-is_shown user o s real) in
          (rw (← same) there, rw (← same) shown)
    ]
  ]
    where
      differ :
          (e : HttpError)
          → (assert_order_access id user s).0 ≡ err e
          → (assert_order_access id user s).0 ≡ ok order
          → ⊥
      differ e p q = cc

  -- A request may open an order exactly if the order is in the user's lists: the test of one order
  -- and the filter of the database agree. No area of the session is the empty text, and no two
  -- orders have one key.
  pub assert_order_access-visible_orders :
      (order : Order)
      → (assert_order_access id user s ≡ (ok order, s))
        ↔ (row id (visible_orders user s) ≡ some order)
  unfolding assert_order_access
  assert_order_access-visible_orders order = (
    λ h. (let p = opened order h in row-of_shown order p.0 p.1),
    λ h.
        let p = shown-of_row order h in
        rw (p.0, is_refused-is_shown user order s real, p.1, assert_order_access) refl,
  )
