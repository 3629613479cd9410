-- ===== src/Table/Undo.antt =====
-- Inserting and removing in src/editor/blocks/tableOperations.ts undo each other.
use my_note_book.Base.{
  splice_in, without, ℤ, pos, ℕ, zero, suc, ◌≤◌, arith, String, List, [], ◌∷◌, map, length, ◌≡◌,
  ◌∙◌, refl,
}
use my_note_book.Table.Rows.{next_index, clamp, fill_row, normalize_table_rows}
use my_note_book.Table.Edits.{
  duplicate_table_row, insert_table_row, insert_table_column, remove_table_row, remove_table_column,
  TableCellAddress,
}
use my_note_book.Table.Shape.{IsTable, IsWide, normalize-IsTable, normalize_same, column_count_of}
use my_note_book.Table.Kept.{clamp_bound, height_of, width_of, edits-IsTable}

without-splice_in {ℓ} :
    {A : Type ℓ} (index : ℕ) (item : A) (items : List A)
    → index ≤ length items
    → without index (splice_in index item items) ≡ items
unfolding without splice_in
without-splice_in zero item items bound = refl
without-splice_in (suc index) item [] bound = absurd (omega (arith, bound))
without-splice_in (suc index) item (x ∷ items) bound =
    cc (without-splice_in index item items (omega (arith, bound)))

map-without-splice_in :
    (index width : ℕ) (rows : List (List String))
    → index ≤ width
    → IsWide width rows
    → map (without index) (map (splice_in index "") rows) ≡ rows
map-without-splice_in index width [] bound wide = refl
map-without-splice_in index width (row ∷ rows) bound (e, wide) = cc (
  without-splice_in index "" row (omega (arith, bound, e)),
  map-without-splice_in index width rows bound wide,
)

clamp_inside : (index bound : ℕ) → index ≤ bound → clamp (pos index) 0 bound ≡ index
unfolding clamp
clamp_inside index bound h = omega (arith, h)

remove_at :
    (index height width : ℕ) (table : List (List String))
    → IsTable (suc height) width table
    → 1 ≤ height
    → index ≤ height
    → remove_table_row table (pos index) ≡ without index table
unfolding remove_table_row
remove_at index height width table shape some_height bound =
    rw (normalize_same (suc height) width table shape, shape.0)
      (ground (arith, clamp_inside index height bound, some_height))

remove_column_at :
    (index height width : ℕ) (table : List (List String))
    → IsTable height (suc width) table
    → 1 ≤ width
    → index ≤ width
    → remove_table_column table (pos index) ≡ map (without index) table
unfolding remove_table_column
remove_column_at index height width table shape some_width bound =
    rw
      (
        normalize_same height (suc width) table shape,
        column_count_of height (suc width) table shape,
      )
      (ground (arith, clamp_inside index width bound, some_width))

-- Removing the row that was just inserted, or the column that was, gives back the rows, padded to a
-- table, whatever the index after which it was inserted.
pub remove-insert :
    (rows : List (List String)) (after_index : ℤ)
    → (remove_table_row
          (insert_table_row rows after_index)
          (pos (clamp (next_index after_index) 0 (height_of rows)))
        ≡ normalize_table_rows rows)
      × (remove_table_column
            (insert_table_column rows after_index)
            (pos (clamp (next_index after_index) 0 (width_of rows)))
          ≡ normalize_table_rows rows)
unfolding insert_table_row insert_table_column
remove-insert rows after_index = (
  remove_at row (height_of rows) (width_of rows) (insert_table_row rows after_index) shapes.0
        shape.2 (clamp_bound (next_index after_index) (height_of rows))
      ∙ without-splice_in row (fill_row (width_of rows) []) (normalize_table_rows rows)
          (clamp_bound (next_index after_index) (height_of rows)),
  remove_column_at column (height_of rows) (width_of rows) (insert_table_column rows after_index)
        shapes.2 shape.3 (clamp_bound (next_index after_index) (width_of rows))
      ∙ map-without-splice_in column (width_of rows) (normalize_table_rows rows)
          (clamp_bound (next_index after_index) (width_of rows)) shape.1,
)
  where
    row : ℕ
    row = clamp (next_index after_index) 0 (height_of rows)

    column : ℕ
    column = clamp (next_index after_index) 0 (width_of rows)

    origin : TableCellAddress
    origin = record { row = pos 0; column = pos 0 }

    shape : IsTable (height_of rows) (width_of rows) (normalize_table_rows rows)
    shape = normalize-IsTable rows

    shapes :
        IsTable (suc (height_of rows)) (width_of rows) (insert_table_row rows after_index)
        × IsTable (suc (height_of rows)) (width_of rows) (duplicate_table_row rows after_index)
        × IsTable (height_of rows) (suc (width_of rows)) (insert_table_column rows after_index)
    shapes =
        let all = edits-IsTable rows after_index (record { start = origin; end = origin }) in
        (all.0, all.1, all.2)
