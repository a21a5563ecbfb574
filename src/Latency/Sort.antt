-- ===== src/Latency/Sort.antt =====
-- Sorting forgets the order, and gives an ascending list of the same length.
use mathlib.Core.List.{append-nil}
use backend_emd.Prelude.{
  ℕ, zero, suc, ◌≤◌, ◌<◌, ◌≡◌, refl, sym, ap, ◌∙◌, arith, List, [], ◌∷◌, ◌++◌, length,
}
use backend_emd.Latency.{insert, sort, at}

insert_comm : (x y : ℕ) (l : List ℕ) → insert x (insert y l) ≡ insert y (insert x l)
insert_comm x y [] = ground arith
insert_comm x y (z ∷ l) = ground (arith, insert_comm x y l)

pub insert-sort-append : (x : ℕ) (a b : List ℕ) → sort (a ++ x ∷ b) ≡ insert x (sort (a ++ b))
unfolding sort
insert-sort-append x [] b = refl
insert-sort-append x (y ∷ a) b =
    ap (insert y) (insert-sort-append x a b) ∙ insert_comm y x (sort (a ++ b))

-- The order of two parts does not matter.
pub sort-append_comm : (a b : List ℕ) → sort (a ++ b) ≡ sort (b ++ a)
unfolding sort
sort-append_comm [] b = ap sort (sym (append-nil b))
sort-append_comm (x ∷ a) b = ap (insert x) (sort-append_comm a b) ∙ sym (insert-sort-append x b a)

length-insert : (x : ℕ) (l : List ℕ) → length (insert x l) ≡ suc (length l)
length-insert x [] = refl
length-insert x (y ∷ l) = ground (arith, length-insert x l)

pub length-sort : (l : List ℕ) → length (sort l) ≡ length l
unfolding sort
length-sort [] = refl
length-sort (x ∷ l) = length-insert x (sort l) ∙ ap suc (length-sort l)

-- At least `x`, and ascending from there.
abbrev pub IsAscending : ℕ → List ℕ → Type 0
IsAscending x [] = Unit {0}
IsAscending x (y ∷ l) = (x ≤ y) × IsAscending y l

insert-IsAscending : (b x : ℕ) (l : List ℕ) → b ≤ x → IsAscending b l → IsAscending b (insert x l)
insert-IsAscending b x [] h s = (h, tt)
insert-IsAscending b x (y ∷ l) h s = ground (arith, insert-IsAscending y x l)

pub sort-IsAscending : (l : List ℕ) → IsAscending 0 (sort l)
unfolding sort
sort-IsAscending [] = tt
sort-IsAscending (x ∷ l) = insert-IsAscending 0 x (sort l) (omega arith) (sort-IsAscending l)

at-ge : (b j : ℕ) (l : List ℕ) → IsAscending b l → j < length l → b ≤ at l j
at-ge b j [] s lt = absurd (omega arith)
at-ge b zero (x ∷ l) s lt = s.0
at-ge b (suc j) (x ∷ l) s lt = omega (arith, at-ge x j l s.1 (omega arith))

-- Later members are not smaller.
pub at_mono : (b i j : ℕ) (l : List ℕ) → IsAscending b l → i ≤ j → j < length l → at l i ≤ at l j
at_mono b i j [] s h lt = absurd (omega arith)
at_mono b zero zero (x ∷ l) s h lt = omega arith
at_mono b (suc i) zero (x ∷ l) s h lt = absurd (omega arith)
at_mono b (suc i) (suc j) (x ∷ l) s h lt = at_mono x i j l s.1 (omega arith) (omega arith)
at_mono b zero (suc j) (x ∷ l) s h lt = at-ge x j l s.1 (omega arith)
