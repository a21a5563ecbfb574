-- ===== src/Prelude/Table.antt =====
-- A database table: its rows by primary key, in insertion order.
use Prim.Native.Nat.{ℕ}
use mathlib.Core.Path.{◌≡◌, refl}
use mathlib.Core.Logic.{◌≢◌, inl, inr}
use mathlib.Core.Bool.{Bool}
use mathlib.Core.Option.{Option, none, some}
use mathlib.Core.List.{List, [], ◌∷◌}
use native.Mathlib.Omega.{arith}
use backend_emd.Prelude.Tests.{nat_beq, if◌then◌else◌, Option-cases, none-or-some, some_unique}
use backend_emd.Prelude.Int.{ℤ, pos, ◌+ℤ◌, int_laws}

abbrev pub Table {ℓ} : Type ℓ → Type ℓ
Table V = List (ℕ × V)

module _ {ℓ} {V : Type ℓ} where
  -- `findUnique({ where: { id } })`
  abbrev pub row : ℕ → Table V → Option V
  row k [] = none
  row k ((j, v) ∷ t) = let rest = row k t in if nat_beq j k then some v else rest

  -- `create` on a new key, `update` on a key that is there.
  abbrev pub put : ℕ → V → Table V → Table V
  put k v [] = (k, v) ∷ []
  put k v ((j, w) ∷ t) = let rest = put k v t in if nat_beq j k then (j, v) ∷ t else (j, w) ∷ rest

  -- `update` of a row that is there, by what it is.
  unfoldable pub update_row : ℕ → (V → V) → Table V → Table V
  update_row k f t = elim (row k t) [ none ↦ t | some v ↦ put k (f v) t ]

  -- `deleteMany({ where: p })`
  abbrev pub drop_rows : (ℕ → V → Bool) → Table V → Table V
  drop_rows p [] = []
  drop_rows p ((j, v) ∷ t) = let rest = drop_rows p t in if p j v then rest else (j, v) ∷ rest

  -- `findMany({ where: p })`, in key order where the keys were given out in order.
  abbrev pub rows : (ℕ → V → Bool) → Table V → Table V
  rows p [] = []
  rows p ((j, v) ∷ t) = let rest = rows p t in if p j v then (j, v) ∷ rest else rest

  pub row-put_self : (k : ℕ) (v : V) (t : Table V) → row k (put k v t) ≡ some v
  row-put_self k v [] = ground arith
  row-put_self k v ((j, w) ∷ t) = ground (arith, row-put_self k v t)

  pub row-put_ne : (j k : ℕ) (v : V) (t : Table V) → j ≢ k → row j (put k v t) ≡ row j t
  row-put_ne j k v [] h = ground arith
  row-put_ne j k v ((i, w) ∷ t) h = ground (arith, row-put_ne j k v t h)

  pub row-put :
      (j k : ℕ) (v : V) (t : Table V)
      → row j (put k v t) ≡ (if nat_beq k j then some v else row j t)
  row-put j k v [] = refl
  row-put j k v ((i, w) ∷ t) = ground (arith, row-put j k v t)

  pub row-update_row :
      (k : ℕ) (f : V → V) (v : V) (t : Table V)
      → row k t ≡ some v
      → row k (update_row k f t) ≡ some (f v)
  unfolding update_row
  row-update_row k f v t h = rw (h, update_row) (row-put_self k (f v) t)

  pub row-update_row_inv :
      (k : ℕ) (f : V → V) (w : V) (t : Table V)
      → row k (update_row k f t) ≡ some w
      → (v : V) × (row k t ≡ some v) × (w ≡ f v)
  unfolding update_row
  row-update_row_inv k f w t h = was (row k t) refl h
    where
      was :
          (found : Option V)
          → row k t ≡ found
          → row k (elim found [ none ↦ t | some v ↦ put k (f v) t ]) ≡ some w
          → (v : V) × (row k t ≡ some v) × (w ≡ f v)
      was none p q = absurd (none-or-some p q)
      was (some v) p q = (v, p, some_unique q (row-put_self k (f v) t))

  pub row-update_row_ne :
      (j k : ℕ) (f : V → V) (t : Table V) → j ≢ k → row j (update_row k f t) ≡ row j t
  unfolding update_row
  row-update_row_ne j k f t h = elim (Option-cases (row k t)) [
    | inl missing ↦ rw (missing, update_row) refl
    | inr (v, there) ↦ rw (there, update_row) (row-put_ne j k (f v) t h)
  ]

  -- The sum of a weight over the rows.
  abbrev pub total : (ℕ → V → ℤ) → Table V → ℤ
  total w [] = pos 0
  total w ((j, v) ∷ t) = w j v +ℤ total w t

  pub total-put :
      (w : ℕ → V → ℤ) (k : ℕ) (v old : V) (t : Table V)
      → row k t ≡ some old
      → total w (put k v t) +ℤ w k old ≡ total w t +ℤ w k v
  total-put w k v old [] e = cc
  total-put w k v old ((j, x) ∷ t) e = grind (int_laws, total-put w k v old t)

  abbrev pub Each : (ℕ → V → Type 0) → Table V → Type 0
  Each P [] = Unit
  Each P ((j, v) ∷ t) = P j v × Each P t

  pub Each-put :
      (P : ℕ → V → Type 0) (k : ℕ) (v : V) (t : Table V) → Each P t → P k v → Each P (put k v t)
  Each-put P k v [] h p = (p, tt)
  Each-put P k v ((j, x) ∷ t) h p = ground (arith, Each-put P k v t h.1 p)

  pub Each-row :
      (P : ℕ → V → Type 0) (k : ℕ) (v : V) (t : Table V) → Each P t → row k t ≡ some v → P k v
  Each-row P k v [] h e = cc
  Each-row P k v ((j, x) ∷ t) h e = ground (arith, Each-row P k v t h.1)

  -- No key stands twice.
  abbrev pub HasDistinctKeys : Table V → Type ℓ
  HasDistinctKeys [] = Unit
  HasDistinctKeys ((j, v) ∷ t) = (row j t ≡ none) × HasDistinctKeys t

  pub Each-of_row :
      (P : ℕ → V → Type 0) (t : Table V)
      → HasDistinctKeys t
      → ((k : ℕ) (v : V) → row k t ≡ some v → P k v)
      → Each P t
  Each-of_row P [] d f = tt
  Each-of_row P ((j, v) ∷ t) d f =
      (f j v (ground arith), Each-of_row P t d.1 (λ k w e. f k w (ground arith)))

module _ {V : Type 0} where
  pub HasDistinctKeys-put :
      (k : ℕ) (v : V) (t : Table V) → HasDistinctKeys t → HasDistinctKeys (put k v t)
  HasDistinctKeys-put k v [] d = (refl, tt)
  HasDistinctKeys-put k v ((j, w) ∷ t) d =
      ground (arith, HasDistinctKeys-put k v t d.1, row-put_ne j k v t)
