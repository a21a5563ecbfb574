-- ===== src/Supply/Sheet/Keys.antt =====
-- The key of a new row is no other row's (`autoincrement`).
use backend_emd.Prelude.{
  ℕ, ◌<◌, ◌≡◌, refl, inl, inr, arith, nat_eq, ◌==◌, none, some, [], ◌∷◌, ◌++◌, Option-cases,
  if◌then◌else◌,
}
use backend_emd.Prelude.Table.{Table, row}
use backend_emd.Supply.Sheet.{next_key}

-- Every key is below the next one.
pub key-lt-next_key : {V : Type 0} (k : ℕ) (v : V) (t : Table V) → row k t ≡ some v → k < next_key t
unfolding next_key
key-lt-next_key k v [] h = cc
key-lt-next_key k v ((j, w) ∷ t) h = ground (arith, key-lt-next_key k v t)

pub row-next_key : {V : Type 0} (t : Table V) → row (next_key t) t ≡ none
row-next_key t = elim (Option-cases (row (next_key t) t)) [
  | inl missing ↦ missing
  | inr (v, there) ↦ absurd (omega (arith, key-lt-next_key (next_key t) v t there))
]

pub row-append :
    {V : Type 0} (id k : ℕ) (new : V) (t : Table V)
    → row k t ≡ none
    → row id (t ++ (k, new) ∷ []) ≡ (if k == id then some new else row id t)
row-append id k new [] fresh = refl
row-append id k new ((j, w) ∷ t) fresh = ground (arith, row-append id k new t)
