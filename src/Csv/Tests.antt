-- ===== src/Csv/Tests.antt =====
-- A table of two rows, one with a formula.
use backend_emd.Prelude.{◌≡◌, All, Option, none, some, List, [], ◌∷◌, map}
use backend_emd.Csv.{Text, to_csv}
use backend_emd.Csv.Reader.{read_csv}
use backend_emd.Csv.RoundTrip.{IsPlainText, shown, read_csv-to_csv}

abbrev headers : List Text
headers = (0x61 ∷ []) ∷ (0x62 ∷ []) ∷ []

-- `=1`, and a text with a quote and a comma; then nothing, and a line end.
abbrev cells : List (List (Option Text))
cells =
    (some (0x3d ∷ 0x31 ∷ []) ∷ some (0x22 ∷ 0x2c ∷ []) ∷ []) ∷ (none ∷ some (0x0a ∷ []) ∷ []) ∷ []

read_csv-to_csv_example :
    let table = map (map shown) (map some headers ∷ cells) in
    (read_csv (to_csv headers cells) ≡ some table) × All (All IsPlainText) table
read_csv-to_csv_example = read_csv-to_csv headers cells (λ e. cc) ((λ e. cc), ((λ e. cc), tt))
