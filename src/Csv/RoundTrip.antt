-- ===== src/Csv/RoundTrip.antt =====
-- What `toCsv` of src/common/utils/csv.ts writes is read back.
use mathlib.Core.List.{append_assoc, append-nil}
use backend_emd.Prelude.{
  ◌≡◌, ◌≢◌, refl, ap, ◌∙◌, ◌⊎◌, inl, inr, arith, nat_eq, ◌==◌, any, All, false, Option, none, some,
  List, [], ◌∷◌, ◌++◌, map, Bool-cases,
}
use backend_emd.Csv.{
  Text, quote, comma, carriage_return, line_feed, is_special, begins_formula, guard_formula,
  double_quotes, escape_text, escape_cell, join_cells, join_lines, line_end, csv_line, to_csv,
}
use backend_emd.Csv.Reader.{
  Rows, at_line, at_cell, plain, enclosed, after_quote, put_char, read, read_csv,
}

-- Where a cell ends.
Bound : Text → Type 0
Bound rest = ((s : Text) × (rest ≡ comma ∷ s)) ⊎ ((s : Text) × (rest ≡ carriage_return ∷ s))

put_text : Text → Option Rows → Option Rows
put_text [] r = r
put_text (c ∷ s) r = put_char c (put_text s r)

put_text-some :
    (t cell : Text) (row : List Text) (rows : Rows)
    → put_text t (some ((cell ∷ row) ∷ rows)) ≡ some (((t ++ cell) ∷ row) ∷ rows)
unfolding put_text
put_text-some [] cell row rows = refl
put_text-some (c ∷ s) cell row rows = rw (put_text-some s cell row rows) refl

-- At the end of a cell every mode goes on alike.
module _ (rest : Text) (bound : Bound rest) where
  at_cell-bound : read at_cell rest ≡ read plain rest
  unfolding read Bound
  at_cell-bound = elim bound [ inl (s, e) ↦ rw e refl | inr (s, e) ↦ rw e refl ]

  at_line-bound : read at_line rest ≡ read plain rest
  unfolding read Bound
  at_line-bound = elim bound [ inl (s, e) ↦ rw e refl | inr (s, e) ↦ rw e refl ]

  after_quote-bound : read after_quote rest ≡ read plain rest
  unfolding read Bound
  after_quote-bound = elim bound [ inl (s, e) ↦ rw e refl | inr (s, e) ↦ rw e refl ]

  plain-text :
      (t : Text) → any is_special t ≡ false → read plain (t ++ rest) ≡ put_text t (read plain rest)
  unfolding read put_text
  plain-text [] h = refl
  plain-text (c ∷ t) h = ground (arith, plain-text t)

  enclosed-text :
      (t : Text) → read enclosed (double_quotes t ++ quote ∷ rest) ≡ put_text t (read plain rest)
  unfolding read put_text double_quotes
  enclosed-text [] = after_quote-bound
  enclosed-text (c ∷ t) = elim (Bool-cases (c == quote)) [
    | inl q ↦ rw (q, (nat_eq.decides c quote).0 q) (ap (put_char quote) (enclosed-text t))
    | inr other ↦ rw other (rw other (ap (put_char c) (enclosed-text t)))
  ]

  plain_cell :
      (t : Text)
      → any is_special t ≡ false
      → (read at_cell (t ++ rest) ≡ put_text t (read plain rest))
        × (read at_line (t ++ rest) ≡ put_text t (read plain rest))
  unfolding read put_text
  plain_cell [] h = (at_cell-bound, at_line-bound)
  plain_cell (c ∷ t) h = (ground (arith, plain-text t), ground (arith, plain-text t))

  enclosed_cell :
      (t : Text)
      → read enclosed (double_quotes t ++ quote ∷ [] ++ rest) ≡ put_text t (read plain rest)
  enclosed_cell t = rw (append_assoc (double_quotes t) (quote ∷ []) rest) (enclosed-text t)

  -- An escaped text is read as the text, where a cell or a line begins.
  escaped-text :
      (t : Text)
      → (read at_cell (escape_text t ++ rest) ≡ put_text t (read plain rest))
        × (read at_line (escape_text t ++ rest) ≡ put_text t (read plain rest))
  unfolding escape_text read
  escaped-text t = elim (Bool-cases (any is_special t)) [
    | inl special ↦ rw (special, escape_text) (enclosed_cell t, enclosed_cell t)
    | inr safe ↦ rw (safe, escape_text) (plain_cell t safe)
  ]

-- What a reader shall see in a cell: nothing, or the text, which is no formula.
abbrev pub shown : Option Text → Text
shown none = []
shown (some s) = guard_formula s

escape_cell-shown : (cell : Option Text) → escape_cell cell ≡ escape_text (shown cell)
unfolding escape_cell escape_text
escape_cell-shown none = refl
escape_cell-shown (some s) = refl

-- A line with a cell at least.
abbrev pub HasCells : {A : Type 0} → List A → Type 0
HasCells row = row ≢ []

module _ (s : Text) (rows : Rows) (read_on : read at_line s ≡ some rows) where
  last_cell : (t : Text) → put_text t (read plain (line_end ++ s)) ≡ some ((t ∷ []) ∷ rows)
  unfolding read
  last_cell t = rw read_on (put_text-some t [] [] rows ∙ rw append-nil refl)

  -- The rest of a line from a cell on, and the whole line.
  cells :
      (cell : Option Text) (row : List (Option Text))
      → let text = join_cells (map escape_cell (cell ∷ row)) ++ (line_end ++ s) in
        let read_as : Option Rows = some ((shown cell ∷ map shown row) ∷ rows) in
        (read at_cell text ≡ read_as) × (read at_line text ≡ read_as)
  unfolding join_cells Bound read
  cells cell [] =
      let both = escaped-text (line_end ++ s) (inr (line_feed ∷ s, refl)) (shown cell) in
      rw (escape_cell-shown cell) (both.0 ∙ last_cell (shown cell), both.1 ∙ last_cell (shown cell))
  cells cell (next ∷ row) =
      let after = join_cells (map escape_cell (next ∷ row)) ++ (line_end ++ s) in
      let both = escaped-text (comma ∷ after) (inl (after, refl)) (shown cell) in
      let goes : put_text (shown cell) (read plain (comma ∷ after))
          ≡ some ((shown cell ∷ map shown (next ∷ row)) ∷ rows) =
        rw ((cells next row).0)
          (put_text-some (shown cell) [] (map shown (next ∷ row)) rows ∙ rw append-nil refl) in
      rw
        (
          escape_cell-shown cell,
          append_assoc (escape_text (shown cell))
              (comma ∷ join_cells (map escape_cell (next ∷ row))) (line_end ++ s),
        )
        (both.0 ∙ goes, both.1 ∙ goes)

lines :
    (row : List (Option Text)) (rows : List (List (Option Text)))
    → All HasCells (row ∷ rows)
    → read at_line (join_lines (map csv_line (row ∷ rows)) ++ line_end)
      ≡ some (map (map shown) (row ∷ rows))
unfolding join_lines read
lines [] rows h = absurd (h.0 refl)
lines (cell ∷ row) [] h = (cells [] [] refl cell row).1
lines (cell ∷ row) (next ∷ rows) h =
    let after = join_lines (map csv_line (next ∷ rows)) ++ line_end in
    rw
      (append_assoc (csv_line (cell ∷ row)) (line_end ++ join_lines (map csv_line (next ∷ rows)))
        line_end)
      (cells after (map (map shown) (next ∷ rows)) (lines next rows h.1) cell row).1

-- A spreadsheet does not take the text for a formula.
abbrev pub IsPlainText : Text → Type 0
IsPlainText [] = Unit {0}
IsPlainText (c ∷ s) = begins_formula c ≡ false

guard_formula-IsPlainText : (s : Text) → IsPlainText (guard_formula s)
unfolding guard_formula
guard_formula-IsPlainText [] = tt
guard_formula-IsPlainText (c ∷ s) = elim (Bool-cases (begins_formula c)) [
  | inl formula ↦ rw (formula, guard_formula) refl
  | inr text ↦ rw (text, guard_formula) text
]

shown-IsPlainText : (row : List (Option Text)) → All IsPlainText (map shown row)
shown-IsPlainText [] = tt
shown-IsPlainText (none ∷ row) = (tt, shown-IsPlainText row)
shown-IsPlainText (some s ∷ row) = (guard_formula-IsPlainText s, shown-IsPlainText row)

rows-IsPlainText : (rows : List (List (Option Text))) → All (All IsPlainText) (map (map shown) rows)
rows-IsPlainText [] = tt
rows-IsPlainText (row ∷ rows) = (shown-IsPlainText row, rows-IsPlainText rows)

pub read_csv-to_csv :
    (headers : List Text) (rows : List (List (Option Text)))
    → HasCells headers
    → All HasCells rows
    → let table = map (map shown) (map some headers ∷ rows) in
      (read_csv (to_csv headers rows) ≡ some table) × All (All IsPlainText) table
unfolding read_csv to_csv
read_csv-to_csv headers rows h k =
    (lines (map some headers) rows (named headers h, k), rows-IsPlainText (map some headers ∷ rows))
  where
    named : (headers : List Text) → HasCells headers → HasCells (map some headers)
    named [] h e = h refl
    named (s ∷ headers) h e = cc
