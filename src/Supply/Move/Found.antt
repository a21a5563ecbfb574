-- ===== src/Supply/Move/Found.antt =====
-- The lines that are looked for: each stands in the table as it was read, and sorting keeps them.
use backend_emd.Prelude.{
  ℕ, ◌≡◌, inl, inr, refl, nat_eq, ◌==◌, Bool, true, false, ◌&&◌, none, some, List, [], ◌∷◌, arith,
  All, Bool-cases, Option-cases, if◌then◌else◌,
}
use backend_emd.Prelude.Table.{Table, row, HasDistinctKeys}
use backend_emd.Store.{Line}
use backend_emd.Supply.Move.{FoundLine, is_due, find_lines, insert_line, sort_lines, comes_before}
use backend_emd.Supply.Move.Loop.{Agrees}

-- The line stands in the table, is one of the task and is due.
pub record StandsIn (task : ℕ) (finishing : Bool) (lines : Table Line) (f : FoundLine)
    : Type 0 where
  pub l : Line
  pub at : row f.id lines ≡ some l
  pub item : l.item ≡ some f.item
  pub quantity : l.quantity ≡ f.quantity
  pub of_task : l.task ≡ task
  pub due : is_due finishing l.discounted_at ≡ true

module _ (task : ℕ) (finishing : Bool) where
  StandsIn-cons :
      (j : ℕ) (l : Line) (lines : Table Line) (fs : List FoundLine)
      → row j lines ≡ none
      → All (StandsIn task finishing lines) fs
      → All (StandsIn task finishing ((j, l) ∷ lines)) fs
  StandsIn-cons j l lines [] new h = tt
  StandsIn-cons j l lines (f ∷ fs) new (h, hs) = (
    record {
      l = h.l;
      at = ground (arith, h.at);
      item = h.item;
      quantity = h.quantity;
      of_task = h.of_task;
      due = h.due;
    },
    StandsIn-cons j l lines fs new hs,
  )

  pub find_lines-StandsIn :
      (lines : Table Line)
      → HasDistinctKeys lines
      → All (StandsIn task finishing lines) (find_lines task finishing lines)
  unfolding find_lines
  find_lines-StandsIn [] d = tt
  find_lines-StandsIn ((j, l) ∷ lines) d =
      let rest =
        StandsIn-cons j l lines (find_lines task finishing lines) d.0
          (find_lines-StandsIn lines d.1) in
      let found = find_lines task finishing ((j, l) ∷ lines) in
      elim (Option-cases l.item) [
        | inl none_given ↦
            let e : found ≡ find_lines task finishing lines = ground arith in rw e rest
        | inr (item, given) ↦
            elim (Bool-cases (l.task == task && is_due finishing l.discounted_at)) [
              | inl wanted ↦
                  let f : FoundLine = record { id = j; item = item; quantity = l.quantity } in
                  let e : found ≡ f ∷ find_lines task finishing lines = ground arith in
                  rw e (
                    record {
                      l = l;
                      at = ground arith;
                      item = given;
                      quantity = refl;
                      of_task = ground arith;
                      due = ground arith;
                    },
                    rest,
                  )
              | inr other ↦
                  let e : found ≡ find_lines task finishing lines = ground arith in rw e rest
            ]
      ]

module _ (P : FoundLine → Type 0) where
  insert_line-All :
      (a : FoundLine) (fs : List FoundLine) → P a → All P fs → All P (insert_line a fs)
  unfolding insert_line
  insert_line-All a [] p h = (p, tt)
  insert_line-All a (b ∷ fs) p (q, h) = elim (Bool-cases (comes_before a b)) [
    | inl first ↦ rw (first, insert_line) (p, (q, h))
    | inr later ↦ rw (later, insert_line) (q, insert_line-All a fs p h)
  ]

  pub sort_lines-All : (fs : List FoundLine) → All P fs → All P (sort_lines fs)
  unfolding sort_lines
  sort_lines-All [] h = tt
  sort_lines-All (a ∷ fs) (p, h) = insert_line-All a (sort_lines fs) p (sort_lines-All fs h)

StandsIn-Agrees :
    {task : ℕ} {finishing : Bool} {lines : Table Line} {f : FoundLine}
    → StandsIn task finishing lines f
    → Agrees task f lines
StandsIn-Agrees h l e = ground (arith, h.at)

All-Agrees :
    (task : ℕ) (finishing : Bool) (lines : Table Line) (fs : List FoundLine)
    → All (StandsIn task finishing lines) fs
    → All (λ f. Agrees task f lines) fs
All-Agrees task finishing lines [] h = tt
All-Agrees task finishing lines (f ∷ fs) (h, hs) =
    (StandsIn-Agrees h, All-Agrees task finishing lines fs hs)

-- The lines over which the loop runs.
pub found_lines-Agree :
    (task : ℕ) (finishing ours : Bool) (lines : Table Line)
    → HasDistinctKeys lines
    → All
        (λ f. Agrees task f lines)
        (sort_lines (if ours then find_lines task finishing lines else []))
found_lines-Agree task finishing true lines d =
    sort_lines-All (λ f. Agrees task f lines) (find_lines task finishing lines)
      (All-Agrees task finishing lines (find_lines task finishing lines)
        (find_lines-StandsIn task finishing lines d))
found_lines-Agree task finishing false lines d = sort_lines-All (λ f. Agrees task f lines) [] tt
