-- ===== src/Table/Edits.antt =====
-- src/editor/blocks/tableOperations.ts: the operations on rows and columns. A table that was
-- normalised has a row and a column, so `length - 1` and `width - 1` do not stop at 0.
use my_note_book.Base.{
  leb_int, splice_in, without, change_at, item_at, for_from, ℤ, ℕ, suc, ◌-◌, String, List, [], map,
  length, leb, if◌then◌else◌,
}
use my_note_book.Table.Rows.{
  next_index, clamp, get_table_column_count, fill_row, normalize_table_rows,
}

unfoldable pub insert_table_row : List (List String) → ℤ → List (List String)
insert_table_row rows after_index =
    let normalized = normalize_table_rows rows in
    splice_in (clamp (next_index after_index) 0 (length normalized))
      (fill_row (get_table_column_count normalized) []) normalized

unfoldable pub duplicate_table_row : List (List String) → ℤ → List (List String)
duplicate_table_row rows row_index =
    let normalized = normalize_table_rows rows in
    let source_index = clamp row_index 0 (length normalized - 1) in
    splice_in (suc source_index) (item_at [] source_index normalized) normalized

unfoldable pub insert_table_column : List (List String) → ℤ → List (List String)
insert_table_column rows after_index =
    let normalized = normalize_table_rows rows in
    map (splice_in (clamp (next_index after_index) 0 (get_table_column_count normalized)) "")
      normalized

unfoldable pub remove_table_row : List (List String) → ℤ → List (List String)
remove_table_row rows row_index =
    let normalized = normalize_table_rows rows in
    if leb (length normalized) 1
    then normalized
    else without (clamp row_index 0 (length normalized - 1)) normalized

unfoldable pub remove_table_column : List (List String) → ℤ → List (List String)
remove_table_column rows column_index =
    let normalized = normalize_table_rows rows in
    let width = get_table_column_count normalized in
    if leb width 1 then normalized else map (without (clamp column_index 0 (width - 1))) normalized

pub record TableCellAddress : Type 0 where
  pub row : ℤ
  pub column : ℤ

pub record TableCellRange : Type 0 where
  pub start : TableCellAddress
  pub end : TableCellAddress

unfoldable pub lesser : ℤ → ℤ → ℤ
lesser m n = if leb_int m n then m else n

unfoldable pub greater : ℤ → ℤ → ℤ
greater m n = if leb_int m n then n else m

-- The two `for` loops.
unfoldable pub clear_cells : ℕ → ℕ → ℕ → ℕ → List (List String) → List (List String)
clear_cells start_row end_row start_column end_column rows =
    for_from start_row (suc end_row - start_row)
      (λ row_index. change_at row_index (
        for_from start_column (suc end_column - start_column)
          (λ column_index. change_at column_index (λ cell. ""))))
      rows

unfoldable pub clear_table_range : List (List String) → TableCellRange → List (List String)
clear_table_range rows range =
    let normalized = normalize_table_rows rows in
    let width = get_table_column_count normalized in
    clear_cells (clamp (lesser range.start.row range.end.row) 0 (length normalized - 1))
      (clamp (greater range.start.row range.end.row) 0 (length normalized - 1))
      (clamp (lesser range.start.column range.end.column) 0 (width - 1))
      (clamp (greater range.start.column range.end.column) 0 (width - 1)) normalized
