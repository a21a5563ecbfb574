-- ===== src/Csv/Reader.antt =====
-- A reader of RFC 4180 with line ends CR LF, against which the writer is measured.
use backend_emd.Prelude.{ℕ, nat_eq, ◌==◌, Option, none, some, List, [], ◌∷◌, if◌then◌else◌}
use backend_emd.Csv.{Text, quote, comma, carriage_return, line_feed, byte_order_mark, is_special}

abbrev pub Rows : Type 0
Rows = List (List Text)

-- Where the reader stands: at the beginning of a line or of a cell, in a plain cell, in an enclosed
-- one, after a quote in one, or after a carriage return.
pub data Mode : Type 0 where
  at_line at_cell plain enclosed after_quote at_end : Mode

-- The character belongs to the first cell of what follows.
abbrev pub put_char : ℕ → Option Rows → Option Rows
put_char c (some ((cell ∷ row) ∷ rows)) = some (((c ∷ cell) ∷ row) ∷ rows)
put_char c _ = none

-- A cell ends before what follows.
abbrev pub put_cell : Option Rows → Option Rows
put_cell (some (row ∷ rows)) = some (([] ∷ row) ∷ rows)
put_cell _ = none

-- A line ends before what follows.
abbrev pub put_line : Option Rows → Option Rows
put_line (some rows) = some (([] ∷ []) ∷ rows)
put_line none = none

-- `none` is a text that is no table. Each character is read once, whichever branch is taken.
unfoldable pub read : Mode → Text → Option Rows
read at_line [] = some []
read at_line (c ∷ s) =
    let open_cell = read enclosed s in
    let next = put_cell (read at_cell s) in
    let end = read at_end s in
    let more = put_char c (read plain s) in
    if c == quote
    then open_cell
    else if c == comma
    then next
    else if c == carriage_return
    then end
    else if c == line_feed
    then none
    else more
read at_cell [] = none
read at_cell (c ∷ s) =
    let open_cell = read enclosed s in
    let next = put_cell (read at_cell s) in
    let end = read at_end s in
    let more = put_char c (read plain s) in
    if c == quote
    then open_cell
    else if c == comma
    then next
    else if c == carriage_return
    then end
    else if c == line_feed
    then none
    else more
read plain [] = none
read plain (c ∷ s) =
    let next = put_cell (read at_cell s) in
    let end = read at_end s in
    let more = put_char c (read plain s) in
    if c == comma
    then next
    else if c == carriage_return
    then end
    else if is_special c
    then none
    else more
read enclosed [] = none
read enclosed (c ∷ s) =
    let close = read after_quote s in
    let more = put_char c (read enclosed s) in if c == quote then close else more
read after_quote [] = none
read after_quote (c ∷ s) =
    let again = put_char c (read enclosed s) in
    let next = put_cell (read at_cell s) in
    let end = read at_end s in
    if c == quote
    then again
    else if c == comma
    then next
    else if c == carriage_return
    then end
    else none
read at_end [] = none
read at_end (c ∷ s) = let line = put_line (read at_line s) in if c == line_feed then line else none

-- A file begins with the mark of the encoding.
unfoldable pub read_csv : Text → Option Rows
unfolding read
read_csv [] = none
read_csv (c ∷ s) = if c == byte_order_mark then read at_line s else none
