-- ===== src/Table/Shape.antt =====
-- What src/editor/blocks/tableOperations.ts keeps of a table: every row has the same width.
use mathlib.Core.Path.{subst}
use my_note_book.Base.{
  sym, ℕ, zero, suc, ◌≤◌, arith, String, List, [], ◌∷◌, map, length, length-map, ◌≡◌, refl, All,
}
use my_note_book.Table.Rows.{
  create_default_table_rows, get_table_column_count, fill_row, normalize_table_rows,
}

abbrev pub IsWide : ℕ → List (List String) → Type 0
IsWide width rows = All (λ row. length row ≡ width) rows

abbrev pub IsTable : ℕ → ℕ → List (List String) → Type 0
IsTable height width rows = (length rows ≡ height) × IsWide width rows × (1 ≤ height) × (1 ≤ width)

pub length-fill_row : (width : ℕ) (cells : List String) → length (fill_row width cells) ≡ width
unfolding fill_row
length-fill_row zero cells = refl
length-fill_row (suc width) [] = omega (arith, length-fill_row width [])
length-fill_row (suc width) (cell ∷ cells) = omega (arith, length-fill_row width cells)

fill_row_same : (cells : List String) → fill_row (length cells) cells ≡ cells
unfolding fill_row
fill_row_same [] = refl
fill_row_same (cell ∷ cells) = cc (fill_row_same cells)

map-fill_row_same :
    (width : ℕ) (rows : List (List String)) → IsWide width rows → map (fill_row width) rows ≡ rows
map-fill_row_same width [] wide = refl
map-fill_row_same width (row ∷ rows) (e, wide) =
    cc (fill_row_same row, e, map-fill_row_same width rows wide)

map-fill_row-IsWide :
    (width : ℕ) (rows : List (List String)) → IsWide width (map (fill_row width) rows)
map-fill_row-IsWide width [] = tt
map-fill_row-IsWide width (row ∷ rows) = (length-fill_row width row, map-fill_row-IsWide width rows)

column_count_bound :
    (width : ℕ) (rows : List (List String))
    → IsWide width rows
    → 1 ≤ width
    → get_table_column_count rows ≤ width
unfolding get_table_column_count
column_count_bound width [] wide some_width = some_width
column_count_bound width (row ∷ rows) (e, wide) some_width =
    omega (arith, e, column_count_bound width rows wide some_width)

pub column_count_of :
    (height width : ℕ) (rows : List (List String))
    → IsTable height width rows
    → get_table_column_count rows ≡ width
unfolding get_table_column_count
column_count_of height width [] (e, wide, h, w) = absurd (omega (arith, e, h))
column_count_of height width (row ∷ rows) (e, (same, wide), h, w) =
    omega (arith, same, column_count_bound width rows wide w)

column_count_positive : (rows : List (List String)) → 1 ≤ get_table_column_count rows
unfolding get_table_column_count
column_count_positive [] = omega arith
column_count_positive (row ∷ rows) = omega (arith, column_count_positive rows)

pub normalize_same :
    (height width : ℕ) (rows : List (List String))
    → IsTable height width rows
    → normalize_table_rows rows ≡ rows
unfolding normalize_table_rows
normalize_same height width [] (e, wide, h, w) = absurd (omega (arith, e, h))
normalize_same height width (row ∷ rows) table =
    subst (λ columns. map (fill_row columns) (row ∷ rows) ≡ row ∷ rows)
      (sym (column_count_of height width (row ∷ rows) table))
      (map-fill_row_same width (row ∷ rows) table.1)

some-IsTable :
    (rows : List (List String))
    → (height : ℕ) × (width : ℕ) × IsTable height width (normalize_table_rows rows)
unfolding normalize_table_rows create_default_table_rows
some-IsTable [] = (2, 2, (refl, (refl, (refl, tt)), omega arith, omega arith))
some-IsTable (row ∷ rows) =
    let width = get_table_column_count (row ∷ rows) in
    (
      suc (length rows),
      width,
      (
        length-map (row ∷ rows) (fill_row width),
        map-fill_row-IsWide width (row ∷ rows),
        omega arith,
        column_count_positive (row ∷ rows),
      ),
    )

pub normalize-IsTable :
    (rows : List (List String))
    → IsTable
        (length (normalize_table_rows rows))
        (get_table_column_count (normalize_table_rows rows))
        (normalize_table_rows rows)
normalize-IsTable rows =
    let found = some-IsTable rows in measured found.0 found.1 (normalize_table_rows rows) found.2
  where
    measured :
        (height width : ℕ) (table : List (List String))
        → IsTable height width table
        → IsTable (length table) (get_table_column_count table) table
    measured height width table shape = (
      refl,
      subst (λ columns. IsWide columns table) (sym (column_count_of height width table shape))
          shape.1,
      omega (arith, shape.0, shape.2),
      column_count_positive table,
    )
