-- ===== src/Supply/Move/Loop.antt =====
-- The loop over the lines: a line is passed over, or it is written; what every write keeps the
-- loop keeps.
use backend_emd.Prelude.{
  ℕ, ◌≡◌, ◌⊎◌, inl, inr, nat_eq, Bool, true, false, ◌&&◌, Option, some, List, [], ◌∷◌, ◌++◌, ap,
  ◌∙◌, arith, All, Bool-cases, Option-cases, ◌≢◌,
}
use backend_emd.Prelude.Int.{ltb_ℤ}
use backend_emd.Prelude.Table.{Table, row, put, row-put}
use backend_emd.Http.{Result, ok, err, Result-cases, >>=-eq-of-ok, >>=-eq-of-err}
use backend_emd.Store.{Item, Line, Task, Store}
use backend_emd.Supply.Move.{
  FoundLine, PendingLine, SupplyInventoryResult, is_due, write_line, move_line, move_each,
}

-- The row of the line, if it is there, is one of the task and still has the item and the quantity
-- that were read.
abbrev pub Agrees : ℕ → FoundLine → Table Line → Type 0
Agrees task line lines =
    (l : Line)
    → row line.id lines ≡ some l
    → (l.item ≡ some line.item) × (l.quantity ≡ line.quantity) × (l.task ≡ task)

Agrees-put :
    (task : ℕ) (line other : FoundLine) (l : Line) (t : Option ℕ) (lines : Table Line)
    → row other.id lines ≡ some l
    → Agrees task line lines
    → Agrees task line (put other.id (record l { discounted_at = t }) lines)
Agrees-put task line other l t lines e h l' e' =
    ground (arith, row-put line.id other.id (record l { discounted_at = t }) lines, h l', h l)

abbrev pending_of : Result SupplyInventoryResult → List PendingLine
pending_of (ok r) = r.pending
pending_of (err e) = []

-- The line, if it is there, is not due.
abbrev pub IsSettled : Bool → ℕ → Store → Type 0
IsSettled finishing id s =
    (l : Line) → row id s.lines ≡ some l → is_due finishing l.discounted_at ≡ false

pub append-ne-nil : {A : Type 0} (xs : List A) (y : A) → xs ++ y ∷ [] ≢ []
append-ne-nil [] y e = cc
append-ne-nil (x ∷ xs) y e = cc

module _ (now task_id : ℕ) (task : Task) (finishing : Bool) (user : ℕ) where
  -- The line was written: there was stock, and it was still due.
  pub record Writes (line : FoundLine) (s s' : Store) : Type 0 where
    pub locked : Item
    pub l : Line
    pub found : row line.item s.items ≡ some locked
    pub enough : (finishing && ltb_ℤ locked.quantity line.quantity) ≡ false
    pub claimed : row line.id s.lines ≡ some l
    pub due : is_due finishing l.discounted_at ≡ true
    pub written : s' ≡ write_line now task_id task finishing user locked line l s

  -- The line was passed over; without a shortage that means that it is not due.
  pub record Passes (line : FoundLine) (result : SupplyInventoryResult) (s : Store) : Type 0 where
    pub same : (move_line now task_id task finishing user line result s).1 ≡ s
    pub settled :
        (r : SupplyInventoryResult)
        → (move_line now task_id task finishing user line result s).0 ≡ ok r
        → r.pending ≡ []
        → IsSettled finishing line.id s

  pub move_line_cases :
      (line : FoundLine) (result : SupplyInventoryResult) (s : Store)
      → Passes line result s
        ⊎ Writes line s (move_line now task_id task finishing user line result s).1
  unfolding move_line
  move_line_cases line result s = elim (Option-cases (row line.item s.items)) [
    | inl missing ↦ inl (record {
      same = rw (missing, move_line);
      settled = λ r e p. absurd (cc (rw (missing, move_line) at e));
    })
    | inr (locked, found) ↦ elim (Bool-cases (finishing && ltb_ℤ locked.quantity line.quantity)) [
      | inl short ↦ inl (record {
        same = rw (found, short, move_line);
        settled = λ r e p. absurd (
            append-ne-nil result.pending _
              (ap (λ o. pending_of o) (rw (found, short, move_line) at e) ∙ p));
      })
      | inr enough ↦ elim (Option-cases (row line.id s.lines)) [
        | inl gone ↦
            inl (record { same = rw (found, enough, gone, move_line); settled = λ r e p l at. cc })
        | inr (l, claimed) ↦ elim (Bool-cases (is_due finishing l.discounted_at)) [
          | inr late ↦ inl (record {
            same = rw (found, enough, claimed, late, move_line);
            settled = λ r e p k at. ground arith;
          })
          | inl due ↦ inr (record {
            locked = locked;
            l = l;
            found = found;
            enough = enough;
            claimed = claimed;
            due = due;
            written = rw (found, enough, claimed, due, move_line);
          })
        ]
      ]
    ]
  ]

  move_line-Agrees :
      (line other : FoundLine) (result : SupplyInventoryResult) (s : Store)
      → Agrees task_id line s.lines
      → Agrees task_id line (move_line now task_id task finishing user other result s).1.lines
  move_line-Agrees line other result s h = elim (move_line_cases other result s) [
    | inl p ↦ rw p.same h
    | inr w ↦ rw w.written (Agrees-put task_id line other w.l _ s.lines w.claimed h)
  ]

  pub move_line-All_Agrees :
      (lines : List FoundLine) (other : FoundLine) (result : SupplyInventoryResult) (s : Store)
      → All (λ line. Agrees task_id line s.lines) lines
      → All
          (λ line.
            Agrees task_id line (move_line now task_id task finishing user other result s).1.lines)
          lines
  move_line-All_Agrees [] other result s h = tt
  move_line-All_Agrees (line ∷ lines) other result s h =
      (move_line-Agrees line other result s h.0, move_line-All_Agrees lines other result s h.1)

  -- A relation that is reflexive and transitive and holds across every write holds across the loop,
  -- however it ends.
  module _ (R : Store → Store → Type 0) (R-refl : (s : Store) → R s s)
      (R-trans : (s t u : Store) → R s t → R t u → R s u)
      (R-write : (line : FoundLine) (s s' : Store)
        → Agrees task_id line s.lines
        → Writes line s s'
        → R s s') where
    move_line-R :
        (line : FoundLine) (result : SupplyInventoryResult) (s : Store)
        → Agrees task_id line s.lines
        → R s (move_line now task_id task finishing user line result s).1
    move_line-R line result s h = elim (move_line_cases line result s) [
      | inl p ↦ rw p.same (R-refl s)
      | inr w ↦ R-write line s _ h w
    ]

    pub move_each-R :
        (lines : List FoundLine) (result : SupplyInventoryResult) (s : Store)
        → All (λ line. Agrees task_id line s.lines) lines
        → R s (move_each now task_id task finishing user lines result s).1
    unfolding move_each
    move_each-R [] result s h = R-refl s
    move_each-R (line ∷ lines) result s h =
        elim (Result-cases (move_line now task_id task finishing user line result s).0) [
          | inr (e, failed) ↦
              rw (>>=-eq-of-err (move_line now task_id task finishing user line result) _ s failed)
                (move_line-R line result s h.0)
          | inl (r, moved) ↦
              rw (>>=-eq-of-ok (move_line now task_id task finishing user line result) _ s moved) (
                R-trans s (move_line now task_id task finishing user line result s).1 _
                  (move_line-R line result s h.0)
                  (move_each-R lines r _ (move_line-All_Agrees lines line result s h.1)))
        ]
