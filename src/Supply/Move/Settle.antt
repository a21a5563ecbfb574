-- ===== src/Supply/Move/Settle.antt =====
-- After a run without shortages no line of the task is due any more.
use backend_emd.Prelude.{
  ℕ, ◌≡◌, ◌⊎◌, inl, inr, refl, subst, nat_eq, Bool, true, false, none, some, List, [], ◌∷◌, arith,
  All, is_some, if◌then◌else◌,
}
use backend_emd.Prelude.Table.{Table, row, put, row-put, HasDistinctKeys}
use backend_emd.Http.{ok, >>=-inv}
use backend_emd.Store.{Line, Task, Store}
use backend_emd.Supply.Move.{
  FoundLine, SupplyInventoryResult, is_due, find_lines, insert_line, sort_lines, move_line,
  move_each,
}
use backend_emd.Supply.Move.Loop.{
  Agrees, Writes, IsSettled, append-ne-nil, move_line_cases, move_line-All_Agrees, move_each-R,
}

abbrev pub Lists : ℕ → List FoundLine → Type 0
Lists id [] = ⊥
Lists id (f ∷ fs) = (f.id ≡ id) ⊎ Lists id fs

insert_line-Lists :
    (id : ℕ) (a : FoundLine) (fs : List FoundLine) → Lists id (a ∷ fs) → Lists id (insert_line a fs)
unfolding insert_line
insert_line-Lists id a [] h = h
insert_line-Lists id a (b ∷ fs) h = ground (arith, insert_line-Lists id a fs)

pub sort_lines-Lists : (id : ℕ) (fs : List FoundLine) → Lists id fs → Lists id (sort_lines fs)
unfolding sort_lines
sort_lines-Lists id [] h = h
sort_lines-Lists id (a ∷ fs) (inl e) = insert_line-Lists id a (sort_lines fs) (inl e)
sort_lines-Lists id (a ∷ fs) (inr h) =
    insert_line-Lists id a (sort_lines fs) (inr (sort_lines-Lists id fs h))

-- Every line of the task that names an item and is due is found.
pub find_lines-Lists :
    (task : ℕ) (finishing : Bool) (lines : Table Line) (id : ℕ) (l : Line)
    → row id lines ≡ some l
    → l.task ≡ task
    → is_some l.item ≡ true
    → is_due finishing l.discounted_at ≡ true
    → Lists id (find_lines task finishing lines)
unfolding find_lines
find_lines-Lists task finishing [] id l e t i d = cc
find_lines-Lists task finishing ((j, k) ∷ lines) id l e t i d =
    ground (arith, find_lines-Lists task finishing lines id l)

-- If none is due, none is found.
pub find_lines-eq-nil :
    (task : ℕ) (finishing : Bool) (lines : Table Line)
    → HasDistinctKeys lines
    → ((id : ℕ) (l : Line)
        → row id lines ≡ some l
        → l.task ≡ task
        → is_some l.item ≡ true
        → is_due finishing l.discounted_at ≡ false)
    → find_lines task finishing lines ≡ []
unfolding find_lines
find_lines-eq-nil task finishing [] d f = refl
find_lines-eq-nil task finishing ((j, l) ∷ lines) d f = ground (
  arith,
  f j l,
  find_lines-eq-nil task finishing lines d.1 (λ id k e t i. f id k (ground arith) t i),
)

abbrev marked : ℕ → Bool → Line → Line
marked now finishing l = record l { discounted_at = if finishing then some now else none }

marked-settled :
    (now : ℕ) (finishing : Bool) (l : Line)
    → is_due finishing (marked now finishing l).discounted_at ≡ false
marked-settled now true l = refl
marked-settled now false l = refl

module _ (now task_id : ℕ) (task : Task) (finishing : Bool) (user : ℕ) where
  write_line-IsSettled :
      (id : ℕ) (line : FoundLine) (s s' : Store)
      → Writes now task_id task finishing user line s s'
      → (line.id ≡ id) ⊎ IsSettled finishing id s
      → IsSettled finishing id s'
  write_line-IsSettled id line s s' w before l e =
      let e' : row id (put line.id (marked now finishing w.l) s.lines) ≡ some l =
        rw w.written at e in
      let at = row-put id line.id (marked now finishing w.l) s.lines in
      let settled = marked-settled now finishing w.l in
      elim before [ inl same ↦ ground arith | inr h ↦ ground (arith, h l) ]

  move_line-IsSettled :
      (id : ℕ) (line : FoundLine) (result : SupplyInventoryResult) (s : Store)
      → IsSettled finishing id s
      → IsSettled finishing id (move_line now task_id task finishing user line result s).1
  move_line-IsSettled id line result s h =
      elim (move_line_cases now task_id task finishing user line result s) [
        | inl p ↦ rw p.same h
        | inr w ↦ write_line-IsSettled id line s _ w (inr h)
      ]

  pub move_each-IsSettled :
      (id : ℕ) (lines : List FoundLine) (result : SupplyInventoryResult) (s : Store)
      → All (λ line. Agrees task_id line s.lines) lines
      → IsSettled finishing id s
      → IsSettled finishing id (move_each now task_id task finishing user lines result s).1
  move_each-IsSettled id lines result s =
      move_each-R now task_id task finishing user
        (λ t u. IsSettled finishing id t → IsSettled finishing id u) (λ t h. h)
        (λ t u v p q h. q (p h)) (λ line t u _ w h. write_line-IsSettled id line t u w (inr h))
        lines result s

  move_line-pending :
      (line : FoundLine) (result : SupplyInventoryResult) (s : Store) {r : SupplyInventoryResult}
      → (move_line now task_id task finishing user line result s).0 ≡ ok r
      → r.pending ≡ []
      → result.pending ≡ []
  unfolding move_line
  move_line-pending line result s e h = grind (arith, append-ne-nil)

  -- A line that is done without a shortage is settled.
  move_line-settles :
      (line : FoundLine) (result : SupplyInventoryResult) (s : Store) {r : SupplyInventoryResult}
      → (move_line now task_id task finishing user line result s).0 ≡ ok r
      → r.pending ≡ []
      → IsSettled finishing line.id (move_line now task_id task finishing user line result s).1
  unfolding move_line
  move_line-settles line result s e h =
      elim (move_line_cases now task_id task finishing user line result s) [
        | inr w ↦ write_line-IsSettled line.id line s _ w (inl refl)
        | inl p ↦ rw p.same (p.settled _ e h)
      ]

  move_each-pending :
      (lines : List FoundLine) (result : SupplyInventoryResult) (s : Store)
      {r : SupplyInventoryResult}
      → (move_each now task_id task finishing user lines result s).0 ≡ ok r
      → r.pending ≡ []
      → result.pending ≡ []
  unfolding move_each
  move_each-pending [] result s e h = ground arith
  move_each-pending (line ∷ lines) result s e h =
      let (r', done, rest, _) =
        >>=-inv (move_line now task_id task finishing user line result)
          (λ r. move_each now task_id task finishing user lines r) s e in
      move_line-pending line result s done (move_each-pending lines r' _ rest h)

  -- After a run without shortages every line that was found is settled.
  pub move_each-settles :
      (lines : List FoundLine) (result : SupplyInventoryResult) (s : Store)
      {r : SupplyInventoryResult}
      → All (λ line. Agrees task_id line s.lines) lines
      → (move_each now task_id task finishing user lines result s).0 ≡ ok r
      → r.pending ≡ []
      → (id : ℕ) → Lists id lines
      → IsSettled finishing id (move_each now task_id task finishing user lines result s).1
  unfolding move_each
  move_each-settles [] result s a e h id m = absurd m
  move_each-settles (line ∷ lines) result s a e h id m =
      let (r', done, rest, same) =
        >>=-inv (move_line now task_id task finishing user line result)
          (λ r. move_each now task_id task finishing user lines r) s e in
      let s' = (move_line now task_id task finishing user line result s).1 in
      let agree = move_line-All_Agrees now task_id task finishing user lines line result s a.1 in
      rw same (elim m [
        | inl this ↦ move_each-IsSettled id lines r' s' agree (
            subst (λ k. IsSettled finishing k s') this
              (move_line-settles line result s done (move_each-pending lines r' s' rest h)))
        | inr later ↦ move_each-settles lines r' s' agree rest h id later
      ])
