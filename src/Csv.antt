-- ===== src/Csv.antt =====
-- Tables written as text: `escapeCell` and `toCsv` of src/common/utils/csv.ts. A text is the list of
-- its characters' codes; a cell is absent (`null` and `undefined`) or the text `String(value)`.
pub mod Reader
pub mod RoundTrip
mod Tests
use backend_emd.Prelude.{
  ℕ, nat_eq, ◌==◌, any, Bool, ◌||◌, Option, none, some, List, [], ◌∷◌, ◌++◌, map, if◌then◌else◌,
}

abbrev pub Text : Type 0
Text = List ℕ

abbrev pub quote : ℕ
quote = 0x22

abbrev pub comma : ℕ
comma = 0x2c

abbrev pub carriage_return : ℕ
carriage_return = 0x0d

abbrev pub line_feed : ℕ
line_feed = 0x0a

-- What a spreadsheet takes for the beginning of a formula: `= + - @`, tab and carriage return.
abbrev pub begins_formula : ℕ → Bool
begins_formula c =
    c == 0x3d || (c == 0x2b || (c == 0x2d || (c == 0x40 || (c == 0x09 || c == carriage_return))))

-- An apostrophe makes it a text.
unfoldable pub guard_formula : Text → Text
guard_formula [] = []
guard_formula (c ∷ s) = if begins_formula c then 0x27 ∷ c ∷ s else c ∷ s

abbrev pub is_special : ℕ → Bool
is_special c = c == quote || (c == comma || (c == line_feed || c == carriage_return))

-- `replace(/"/g, '""')`
unfoldable pub double_quotes : Text → Text
double_quotes [] = []
double_quotes (c ∷ s) =
    let rest = double_quotes s in if c == quote then quote ∷ quote ∷ rest else c ∷ rest

abbrev pub enclose : Text → Text
enclose s = quote ∷ double_quotes s ++ quote ∷ []

unfoldable pub escape_text : Text → Text
unfolding double_quotes
escape_text s = if any is_special s then enclose s else s

unfoldable pub escape_cell : Option Text → Text
unfolding guard_formula escape_text
escape_cell none = []
escape_cell (some s) = escape_text (guard_formula s)

-- `cells.join(',')`
unfoldable pub join_cells : List Text → Text
join_cells [] = []
join_cells (s ∷ []) = s
join_cells (s ∷ t ∷ cells) = s ++ comma ∷ join_cells (t ∷ cells)

abbrev pub line_end : Text
line_end = carriage_return ∷ line_feed ∷ []

-- `lines.join('\r\n') + '\r\n'`: every line has its end.
unfoldable pub join_lines : List Text → Text
join_lines [] = []
join_lines (s ∷ []) = s
join_lines (s ∷ t ∷ lines) = s ++ (line_end ++ join_lines (t ∷ lines))

abbrev pub csv_line : List (Option Text) → Text
csv_line row = join_cells (map escape_cell row)

abbrev pub byte_order_mark : ℕ
byte_order_mark = 0xfeff

unfoldable pub to_csv : List Text → List (List (Option Text)) → Text
unfolding escape_cell join_cells join_lines
to_csv headers rows =
    byte_order_mark ∷ join_lines (csv_line (map some headers) ∷ map csv_line rows) ++ line_end
