-- ===== src/Table/Tests.antt =====
-- Tables of two ragged rows.
use my_note_book.Base.{
  leb_int, for_from, change_at, pos, negsuc, ℕ, suc, ◌-◌, String, some, List, [], ◌∷◌, All, leb,
  if◌then◌else◌, ◌≡◌, refl,
}
use my_note_book.Table.Rows.{
  label_from, fill_row, get_table_column_count, next_index, clamp, get_table_column_label,
  normalize_table_rows,
}
use my_note_book.Table.Edits.{
  clear_cells, greater, lesser, TableCellRange, insert_table_row, duplicate_table_row,
  insert_table_column, remove_table_row, remove_table_column, clear_table_range,
}
use my_note_book.Table.Labels.{read_label, IsLetter, get_table_column_label-read_label}
use my_note_book.Table.Shape.{IsTable}
use my_note_book.Table.Kept.{height_of, width_of, edits-IsTable}
use my_note_book.Table.Undo.{remove-insert}

abbrev ragged : List (List String)
ragged = ("a" ∷ []) ∷ ("b" ∷ "c" ∷ []) ∷ []

abbrev corner : TableCellRange
corner = record {
  start = record { row = pos 5; column = pos 1 };
  end = record { row = pos 1; column = negsuc 2 };
}

get_table_column_label-read_label_example :
    (label : List ℕ) × (get_table_column_label (pos 27) ≡ some label)
    × All IsLetter label
    × (read_label 0 label ≡ 28)
get_table_column_label-read_label_example = get_table_column_label-read_label 27

edits-IsTable_example :
    IsTable (suc (height_of ragged)) (width_of ragged) (insert_table_row ragged (negsuc 0))
    × IsTable (suc (height_of ragged)) (width_of ragged) (duplicate_table_row ragged (negsuc 0))
    × IsTable (height_of ragged) (suc (width_of ragged)) (insert_table_column ragged (negsuc 0))
    × IsTable
        (if leb (height_of ragged) 1 then height_of ragged else height_of ragged - 1)
        (width_of ragged)
        (remove_table_row ragged (negsuc 0))
    × IsTable
        (height_of ragged)
        (if leb (width_of ragged) 1 then width_of ragged else width_of ragged - 1)
        (remove_table_column ragged (negsuc 0))
    × IsTable (height_of ragged) (width_of ragged) (clear_table_range ragged corner)
edits-IsTable_example = edits-IsTable ragged (negsuc 0) corner

remove-insert_example :
    (remove_table_row
        (insert_table_row ragged (pos 0))
        (pos (clamp (next_index (pos 0)) 0 (height_of ragged)))
      ≡ normalize_table_rows ragged)
    × (remove_table_column
          (insert_table_column ragged (pos 0))
          (pos (clamp (next_index (pos 0)) 0 (width_of ragged)))
        ≡ normalize_table_rows ragged)
remove-insert_example = remove-insert ragged (pos 0)

label_ab : get_table_column_label (pos 27) ≡ some (65 ∷ 66 ∷ [])
unfolding get_table_column_label label_from
label_ab = refl

clear_corner : clear_table_range ragged corner ≡ ("a" ∷ "" ∷ []) ∷ ("" ∷ "" ∷ []) ∷ []
unfolding clear_table_range clear_cells for_from clamp greater leb_int normalize_table_rows lesser
    change_at fill_row get_table_column_count
clear_corner = refl
