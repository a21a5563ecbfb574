-- ===== src/Prelude/Selection.antt =====
-- Rows picked from a table with distinct keys.
use mathlib.Core.Path.{◌≡◌, refl, subst}
use mathlib.Core.Bool.{Bool, true, false}
use mathlib.Core.Logic.{inl, inr}
use mathlib.Core.Option.{none, some}
use mathlib.Core.List.{List, [], ◌∷◌}
use Prim.Native.Nat.{ℕ}
use native.Mathlib.Omega.{arith}
use backend_emd.Prelude.Lists.{keep, any, all, All}
use backend_emd.Prelude.Equality.{nat_eq, contains}
use backend_emd.Prelude.Table.{Table, row, rows, put, drop_rows, HasDistinctKeys}
use backend_emd.Prelude.Tests.{nat_beq, Bool-cases}

module _ {V : Type 0} (p : ℕ → V → Bool) (q : ℕ × V → Bool) where
  pub row-rows-none : (k : ℕ) (t : Table V) → row k t ≡ none → row k (rows p t) ≡ none
  row-rows-none k [] h = refl
  row-rows-none k ((j, v) ∷ t) h = ground (arith, row-rows-none k t)

  pub row-keep-none : (k : ℕ) (t : Table V) → row k t ≡ none → row k (keep q t) ≡ none
  row-keep-none k [] h = refl
  row-keep-none k ((j, v) ∷ t) h = ground (arith, row-keep-none k t)

  pub HasDistinctKeys-rows : (t : Table V) → HasDistinctKeys t → HasDistinctKeys (rows p t)
  HasDistinctKeys-rows [] d = tt
  HasDistinctKeys-rows ((j, v) ∷ t) (d, ds) =
      ground (arith, HasDistinctKeys-rows t ds, row-rows-none j t d)

  pub row-rows :
      (k : ℕ) (v : V) (t : Table V)
      → HasDistinctKeys t
      → row k (rows p t) ≡ some v
      → (row k t ≡ some v) × (p k v ≡ true)
  row-rows k v [] d h = ground arith
  row-rows k v ((j, w) ∷ t) (d, ds) h = ground (arith, row-rows k v t ds, row-rows-none k t)

  pub row-keep :
      (k : ℕ) (v : V) (t : Table V)
      → HasDistinctKeys t
      → row k (keep q t) ≡ some v
      → (row k t ≡ some v) × (q (k, v) ≡ true)
  row-keep k v [] d h = ground arith
  row-keep k v ((j, w) ∷ t) (d, ds) h = ground (arith, row-keep k v t ds, row-keep-none k t)

  pub any-row :
      (k : ℕ) (v : V) (t : Table V) → any q t ≡ false → row k t ≡ some v → q (k, v) ≡ false
  any-row k v [] h e = ground arith
  any-row k v ((j, w) ∷ t) h e = ground (arith, any-row k v t)

  pub row-rows-some :
      (k : ℕ) (v : V) (t : Table V) → p k v ≡ true → row k t ≡ some v → row k (rows p t) ≡ some v
  row-rows-some k v [] h e = ground arith
  row-rows-some k v ((j, w) ∷ t) h e = ground (arith, row-rows-some k v t)

  pub row-keep-some :
      (k : ℕ) (v : V) (t : Table V) → q (k, v) ≡ true → row k t ≡ some v → row k (keep q t) ≡ some v
  row-keep-some k v [] h e = ground arith
  row-keep-some k v ((j, w) ∷ t) h e = ground (arith, row-keep-some k v t)

pub contains-keep :
    (p : ℕ → Bool) (xs : List ℕ) (x : ℕ)
    → contains xs x ≡ true
    → p x ≡ true
    → contains (keep p xs) x ≡ true
contains-keep p [] x h k = ground arith
contains-keep p (y ∷ xs) x h k = ground (arith, contains-keep p xs x)

pub keep-contains :
    (p : ℕ → Bool) (whole xs : List ℕ)
    → all (contains whole) xs ≡ true
    → All (λ x. contains whole x ≡ true) (keep p xs)
keep-contains p whole [] h = tt
keep-contains p whole (x ∷ xs) h = ground (arith, keep-contains p whole xs)

pub contains_more :
    (x : ℕ) (xs ys : List ℕ) → all (contains xs) ys ≡ true → all (contains (x ∷ xs)) ys ≡ true
contains_more x xs [] h = refl
contains_more x xs (y ∷ ys) h = ground (arith, contains_more x xs ys)

pub contains_self : (xs : List ℕ) → all (contains xs) xs ≡ true
contains_self [] = refl
contains_self (x ∷ xs) = ground (arith, contains_more x xs xs (contains_self xs))

-- A property of every row, whatever its key.
module _ {V : Type 0} (P : V → Type 0) where
  abbrev pub AllRows : Table V → Type 0
  AllRows = All (λ r. P r.1)

  pub AllRows-row : (k : ℕ) (v : V) (t : Table V) → AllRows t → row k t ≡ some v → P v
  AllRows-row k v [] h e = cc
  AllRows-row k v ((j, w) ∷ t) (p, h) e = elim (Bool-cases (nat_beq j k)) [
    | inl here ↦ subst P (cc (rw here at e)) p
    | inr there ↦ AllRows-row k v t h (rw there at e)
  ]

  pub AllRows-put : (k : ℕ) (v : V) (t : Table V) → P v → AllRows t → AllRows (put k v t)
  AllRows-put k v [] p h = (p, tt)
  AllRows-put k v ((j, w) ∷ t) p (q, h) = elim (Bool-cases (nat_beq j k)) [
    | inl here ↦ rw here (p, h)
    | inr there ↦ rw there (q, AllRows-put k v t p h)
  ]

  pub AllRows-drop_rows : (d : ℕ → V → Bool) (t : Table V) → AllRows t → AllRows (drop_rows d t)
  AllRows-drop_rows d [] h = tt
  AllRows-drop_rows d ((j, w) ∷ t) (q, h) = elim (Bool-cases (d j w)) [
    | inl goes ↦ rw goes (AllRows-drop_rows d t h)
    | inr stays ↦ rw stays (q, AllRows-drop_rows d t h)
  ]
