-- ===== src/Table/Labels.antt =====
-- `getTableColumnLabel` of src/editor/blocks/tableOperations.ts, read back as a number.
use my_note_book.Base.{
  pos, ℕ, zero, suc, ◌+◌, ◌-◌, ◌*◌, ◌/◌, ◌%◌, ◌≤◌, arith, some, List, [], ◌∷◌, ◌≡◌, refl, All,
}
use my_note_book.Table.Rows.{label_from, get_table_column_label}

-- A label read as a number in which `A` to `Z` are the digits 1 to 26.
unfoldable pub read_label : ℕ → List ℕ → ℕ
read_label value [] = value
read_label value (code ∷ label) = read_label (value * 26 + (code - 64)) label

abbrev pub IsLetter : ℕ → Type 0
IsLetter code = (65 ≤ code) × (code ≤ 90)

label_from_lem :
    (fuel value : ℕ) (label : List ℕ)
    → value ≤ fuel
    → All IsLetter label
    → (result : List ℕ) × (label_from fuel value label ≡ some result)
      × All IsLetter result
      × (read_label 0 result ≡ read_label value label)
unfolding label_from read_label
label_from_lem fuel zero label enough letters = (label, ground arith, letters, refl)
label_from_lem zero (suc value) label enough letters = absurd (omega (arith, enough))
label_from_lem (suc fuel) (suc value) label enough letters =
    let shorter =
      label_from_lem fuel (value / 26) ((65 + value % 26) ∷ label) (omega (arith, enough))
        ((omega arith, omega arith), letters) in
    (shorter.0, shorter.1, shorter.2, ground (arith, shorter.3, one_more))
  where
    one_more : (value / 26) * 26 + ((65 + value % 26) - 64) ≡ suc value
    one_more = omega arith

-- The label of a column ends, is made of the letters A to Z and, read as a number in which they are
-- the digits 1 to 26, is the column's number counted from 1.
pub get_table_column_label-read_label :
    (index : ℕ)
    → (label : List ℕ) × (get_table_column_label (pos index) ≡ some label)
      × All IsLetter label
      × (read_label 0 label ≡ suc index)
unfolding get_table_column_label read_label
get_table_column_label-read_label index = label_from_lem (suc index) (suc index) [] (omega arith) tt
