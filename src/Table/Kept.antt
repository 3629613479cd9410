-- ===== src/Table/Kept.antt =====
-- The operations of src/editor/blocks/tableOperations.ts keep a table a table.
use mathlib.Core.Path.{subst}
use my_note_book.Base.{
  splice_in, without, change_at, item_at, for_from, length-splice_in, length-without,
  length-change_at, All-splice_in, All-without, All-change_at, All-item_at, for_from-keeps, ℤ, pos,
  negsuc, ℕ, suc, ◌-◌, ◌≤◌, ◌<◌, arith, String, Bool, true, false, List, [], ◌∷◌, map, length, leb,
  length-map, ◌≡◌, refl, sym, if◌then◌else◌,
}
use my_note_book.Table.Rows.{
  next_index, clamp, get_table_column_count, fill_row, normalize_table_rows,
}
use my_note_book.Table.Edits.{
  insert_table_row, duplicate_table_row, insert_table_column, remove_table_row, remove_table_column,
  TableCellRange, clear_cells, clear_table_range, lesser, greater,
}
use my_note_book.Table.Shape.{IsTable, IsWide, normalize-IsTable, length-fill_row}

pub clamp_bound : (index : ℤ) (bound : ℕ) → clamp index 0 bound ≤ bound
unfolding clamp
clamp_bound (pos n) bound = omega arith
clamp_bound (negsuc n) bound = omega arith

map-splice_in-IsWide :
    (index width : ℕ) (rows : List (List String))
    → IsWide width rows
    → IsWide (suc width) (map (splice_in index "") rows)
map-splice_in-IsWide index width [] wide = tt
map-splice_in-IsWide index width (row ∷ rows) (e, wide) =
    (omega (arith, length-splice_in index "" row, e), map-splice_in-IsWide index width rows wide)

map-without-IsWide :
    (index width : ℕ) (rows : List (List String))
    → index < width
    → IsWide width rows
    → IsWide (width - 1) (map (without index) rows)
map-without-IsWide index width [] bound wide = tt
map-without-IsWide index width (row ∷ rows) bound (e, wide) = (
  omega (arith, length-without index row (omega (arith, bound, e)), e),
  map-without-IsWide index width rows bound wide,
)

clear_cells-IsTable :
    (top bottom left right height width : ℕ) (rows : List (List String))
    → IsTable height width rows
    → IsTable height width (clear_cells top bottom left right rows)
unfolding clear_cells
clear_cells-IsTable top bottom left right height width rows table =
    for_from-keeps (IsTable height width) (λ at. change_at at (clear at)) top (suc bottom - top)
      rows
      (λ at table' shape. (
        omega (arith, length-change_at at (clear at) table', shape.0),
        All-change_at (λ row. length row ≡ width) at (clear at) table' (clear_length at) shape.1,
        shape.2,
        shape.3,
      ))
      table
  where
    clear : ℕ → List String → List String
    clear at = for_from left (suc right - left) (λ column. change_at column (λ cell. ""))

    clear_length : (at : ℕ) (row : List String) → length row ≡ width → length (clear at row) ≡ width
    clear_length at row e =
        for_from-keeps (λ cells. length cells ≡ width) (λ column. change_at column (λ cell. ""))
          left (suc right - left) row
          (λ column cells same. omega (arith, length-change_at column (λ cell. "") cells, same)) e

without-IsTable :
    (index height width : ℕ) (rows : List (List String))
    → index ≤ height - 1
    → IsTable height width rows
    → IsTable
        (if leb height 1 then height else height - 1)
        width
        (if leb (length rows) 1 then rows else without index rows)
without-IsTable index height width rows bound table =
    subst
      (λ count.
        IsTable (if leb height 1 then height else height - 1) width
          (if leb count 1 then rows else without index rows))
      (sym table.0) (by_size (leb height 1) refl)
  where
    by_size :
        (small : Bool)
        → leb height 1 ≡ small
        → IsTable
            (if small then height else height - 1)
            width
            (if small then rows else without index rows)
    by_size true e = table
    by_size false e = (
      omega (arith, length-without index rows (omega (arith, bound, table.0, table.2)), table.0),
      All-without (λ row. length row ≡ width) index rows table.1,
      ground (arith, e),
      table.3,
    )

map-without-IsTable :
    (index height width : ℕ) (rows : List (List String))
    → index ≤ width - 1
    → IsTable height width rows
    → IsTable height
        (if leb width 1 then width else width - 1)
        (if leb width 1 then rows else map (without index) rows)
map-without-IsTable index height width rows bound table = by_size (leb width 1) refl
  where
    by_size :
        (small : Bool)
        → leb width 1 ≡ small
        → IsTable height
            (if small then width else width - 1)
            (if small then rows else map (without index) rows)
    by_size true e = table
    by_size false e = (
      omega (arith, length-map rows (without index), table.0),
      map-without-IsWide index width rows (omega (arith, bound, table.3)) table.1,
      table.2,
      ground (arith, e),
    )

splice_in-IsTable :
    (index height width : ℕ) (row : List String) (rows : List (List String))
    → length row ≡ width
    → IsTable height width rows
    → IsTable (suc height) width (splice_in index row rows)
splice_in-IsTable index height width row rows e table = (
  omega (arith, length-splice_in index row rows, table.0),
  All-splice_in (λ cells. length cells ≡ width) index row rows e table.1,
  omega arith,
  table.3,
)

abbrev pub height_of : List (List String) → ℕ
height_of rows = length (normalize_table_rows rows)

abbrev pub width_of : List (List String) → ℕ
width_of rows = get_table_column_count (normalize_table_rows rows)

-- Inserting, duplicating, removing and clearing turn any rows, padded to a table, into a table: a
-- row or a column more where one is inserted, one less where one is removed and is not the last,
-- and the same size after clearing.
pub edits-IsTable :
    (rows : List (List String)) (index : ℤ) (range : TableCellRange)
    → IsTable (suc (height_of rows)) (width_of rows) (insert_table_row rows index)
      × IsTable (suc (height_of rows)) (width_of rows) (duplicate_table_row rows index)
      × IsTable (height_of rows) (suc (width_of rows)) (insert_table_column rows index)
      × IsTable
          (if leb (height_of rows) 1 then height_of rows else height_of rows - 1)
          (width_of rows)
          (remove_table_row rows index)
      × IsTable
          (height_of rows)
          (if leb (width_of rows) 1 then width_of rows else width_of rows - 1)
          (remove_table_column rows index)
      × IsTable (height_of rows) (width_of rows) (clear_table_range rows range)
unfolding insert_table_row duplicate_table_row insert_table_column remove_table_row
    remove_table_column clear_table_range
edits-IsTable rows index range = (
  splice_in-IsTable (clamp (next_index index) 0 height) height width (fill_row width []) table
      (length-fill_row width []) shape,
  splice_in-IsTable (suc source) height width (item_at [] source table) table
      (All-item_at (λ row. length row ≡ width) [] source table
        (omega (arith, clamp_bound index (height - 1), shape.2)) shape.1)
      shape,
  (
    omega (arith, length-map table (splice_in column "")),
    map-splice_in-IsWide column width table shape.1,
    shape.2,
    omega arith,
  ),
  without-IsTable source height width table (clamp_bound index (height - 1)) shape,
  map-without-IsTable (clamp index 0 (width - 1)) height width table (clamp_bound index (width - 1))
      shape,
  clear_cells-IsTable (clamp (lesser range.start.row range.end.row) 0 (height - 1))
      (clamp (greater range.start.row range.end.row) 0 (height - 1))
      (clamp (lesser range.start.column range.end.column) 0 (width - 1))
      (clamp (greater range.start.column range.end.column) 0 (width - 1)) height width table shape,
)
  where
    table : List (List String)
    table = normalize_table_rows rows

    height : ℕ
    height = length table

    width : ℕ
    width = get_table_column_count table

    shape : IsTable height width table
    shape = normalize-IsTable rows

    source : ℕ
    source = clamp index 0 (height - 1)

    column : ℕ
    column = clamp (next_index index) 0 width
