-- ===== src/Orders/Access/Outcomes.antt =====
-- How the guard of an order ends; it writes nothing.
use backend_emd.Prelude.{
  ℕ, ◌≡◌, refl, ◌⊎◌, inl, inr, Bool-cases, Option-cases, true, false, Option, some, none-or-some,
  false-or-true, some_unique, subst,
}
use backend_emd.Prelude.Table.{row}
use backend_emd.Http.{HttpError, ok, err, not_found, forbidden}
use backend_emd.Area.Access.{RequestingUser}
use backend_emd.Store.{Order, Store}
use backend_emd.Orders.Access.{is_refused, assert_order_access}

module _ (id : ℕ) (user : Option RequestingUser) (s : Store) where
  -- The order is there, and the user may see it.
  abbrev pub MaySee : Order → Type 0
  MaySee order = (row id s.orders ≡ some order) × (is_refused user order s ≡ false)

  pub assert_order_access-MaySee :
      (order : Order) → MaySee order → assert_order_access id user s ≡ (ok order, s)
  unfolding assert_order_access
  assert_order_access-MaySee order (there, fine) = rw (there, fine, assert_order_access) refl

  pub assert_order_access_cases :
      ((order : Order) × MaySee order × (assert_order_access id user s ≡ (ok order, s)))
      ⊎ ((e : HttpError) × (assert_order_access id user s ≡ (err e, s))
          × ((order : Order) → ¬ (MaySee order)))
  unfolding assert_order_access
  assert_order_access_cases = elim (Option-cases (row id s.orders)) [
    | inl missing ↦
        inr (not_found, rw (missing, assert_order_access) refl, λ order m. none-or-some missing m.0)
    | inr (order, there) ↦ elim (Bool-cases (is_refused user order s)) [
      | inl refused ↦ inr (
        forbidden,
        rw (there, refused, assert_order_access) refl,
        λ o m. unfit order o there refused m,
      )
      | inr fine ↦ inl (order, (there, fine), assert_order_access-MaySee order (there, fine))
    ]
  ]
    where
      unfit : (a b : Order) → row id s.orders ≡ some a → is_refused user a s ≡ true → MaySee b → ⊥
      unfit a b p q m =
          false-or-true m.1 (subst (λ x. is_refused user x s ≡ true) (some_unique p m.0) q)
