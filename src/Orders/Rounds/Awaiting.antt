-- ===== src/Orders/Rounds/Awaiting.antt =====
-- Whether an order waits for its client goes by its status and by the stored names.
use text.Mathlib.TextEquality.{eq_iff}
use backend_emd.Prelude.{
  ℕ, ◌≡◌, refl, arith, nat_eq, string_eq, ◌==◌, false, none, some, List, [], ◌∷◌, String,
}
use backend_emd.Prelude.Table.{row}
use backend_emd.Area.Config.{value_at}
use backend_emd.Store.{Order, Store}
use backend_emd.Orders.Frame.{SameOrders}
use backend_emd.Orders.Rounds.{status_name_of, is_awaiting, status_name_esperando_autorizacion}

-- No two statuses have one id.
abbrev pub HasDistinctIds : List (String × ℕ) → Type 0
HasDistinctIds [] = Unit {0}
HasDistinctIds ((name, id) ∷ t) = (status_name_of id t ≡ none) × HasDistinctIds t

pub status_name_of-value_at :
    (name : String) (id : ℕ) (t : List (String × ℕ))
    → HasDistinctIds t
    → value_at name t ≡ some id
    → status_name_of id t ≡ some name
unfolding status_name_of
status_name_of-value_at name id [] d h = cc
status_name_of-value_at name id ((n, j) ∷ t) (fresh, d) h =
    ground (arith, eq_iff n name, status_name_of-value_at name id t d)

module _ (lower : String → String) (order : ℕ) where
  pub is_awaiting-SameOrders :
      (s s' : Store) → SameOrders s s' → is_awaiting lower order s' ≡ is_awaiting lower order s
  unfolding is_awaiting
  is_awaiting-SameOrders s s' (a, b) = λ i. elim (row order (a i)) [
    | none ↦ false
    | some o ↦ elim (status_name_of o.status (b i)) [
      | none ↦ false
      | some name ↦ lower name == status_name_esperando_autorizacion
    ]
  ]

  pub is_awaiting-of_status :
      (name : String) (status : ℕ) (o : Order) (s : Store)
      → HasDistinctIds s.statuses
      → value_at name s.statuses ≡ some status
      → row order s.orders ≡ some o
      → o.status ≡ status
      → is_awaiting lower order s ≡ (lower name == status_name_esperando_autorizacion)
  unfolding is_awaiting
  is_awaiting-of_status name status o s d known there has =
      let named : status_name_of o.status s.statuses ≡ some name =
        rw has (status_name_of-value_at name status s.statuses d known) in
      rw (there, named, is_awaiting) refl
