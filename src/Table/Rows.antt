-- ===== src/Table/Rows.antt =====
-- src/editor/blocks/structuredBlocks.ts (createDefaultTableRows and normalizeTableRows, on the rows
-- of texts that the operations pass), and the numbers and cells of
-- src/editor/blocks/tableOperations.ts. Rows have cells from the left.
use my_note_book.Base.{
  ℤ, pos, negsuc, ℕ, zero, suc, ◌+◌, ◌/◌, ◌%◌, min, max, String, Option, none, some, List, [], ◌∷◌,
  map, length,
}

-- `index + 1`
unfoldable pub next_index : ℤ → ℤ
next_index (pos n) = pos (suc n)
next_index (negsuc zero) = pos 0
next_index (negsuc (suc n)) = negsuc n

-- The bounds that the operations pass are never negative.
unfoldable pub clamp : ℤ → ℕ → ℕ → ℕ
clamp (pos value) minimum maximum = min (max value minimum) maximum
clamp (negsuc value) minimum maximum = min minimum maximum

unfoldable pub create_default_table_rows : List (List String)
create_default_table_rows = ("字段" ∷ "说明" ∷ []) ∷ ("" ∷ "" ∷ []) ∷ []

unfoldable pub get_table_column_count : List (List String) → ℕ
get_table_column_count [] = 1
get_table_column_count (row ∷ rows) = max (length row) (get_table_column_count rows)

-- `Array.from({ length: width }, …)`: the row's cells, and empty ones where it has none.
unfoldable pub fill_row : ℕ → List String → List String
fill_row zero cells = []
fill_row (suc width) [] = "" ∷ fill_row width []
fill_row (suc width) (cell ∷ cells) = cell ∷ fill_row width cells

unfoldable pub normalize_table_rows : List (List String) → List (List String)
normalize_table_rows [] = create_default_table_rows
normalize_table_rows (row ∷ rows) =
    map (fill_row (get_table_column_count (row ∷ rows))) (row ∷ rows)

-- The `while` loop of `getTableColumnLabel`; a label is the list of its character codes.
unfoldable pub label_from : ℕ → ℕ → List ℕ → Option (List ℕ)
label_from fuel zero label = some label
label_from zero (suc value) label = none
label_from (suc fuel) (suc value) label = label_from fuel (value / 26) ((65 + value % 26) ∷ label)

unfoldable pub get_table_column_label : ℤ → Option (List ℕ)
get_table_column_label (pos index) = label_from (suc index) (suc index) []
get_table_column_label (negsuc index) = label_from 1 1 []
