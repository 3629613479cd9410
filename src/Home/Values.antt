-- ===== src/Home/Values.antt =====
-- The values of type `unknown` that src/models/home/informationHome.ts reads. A number that is not
-- whole is given by what `Math.round` makes of it.
use my_note_book.Base.{
  ℤ, pos, clamp_integer, ℕ, Bool, true, false, not, String, Option, none, some, List, [], ◌∷◌,
  if◌then◌else◌, ◌==◌,
}

pub data Number : Type 0 where
  whole fraction : ℤ → Number
  not_a_number infinite : Number

mutual
  pub data Value : Type 0 where
    nothing : Value
    boolean : Bool → Value
    number : Number → Value
    string : String → Value
    array : Values → Value
    object : Fields → Value

  pub data Values : Type 0 where
    empty_array : Values
    value_and : Value → Values → Values

  pub data Fields : Type 0 where
    empty_object : Fields
    field_and : String → Value → Fields → Fields

-- `Number.isInteger`
abbrev pub is_integer : Number → Bool
is_integer (whole value) = true
is_integer _ = false

-- `Number.isFinite` and `Math.round`, for the values that are numbers.
abbrev pub finite_round : Value → Option ℤ
finite_round (number (whole value)) = some value
finite_round (number (fraction value)) = some value
finite_round _ = none

-- `Boolean`
unfoldable pub is_truthy : Value → Bool
is_truthy nothing = false
is_truthy (boolean b) = b
is_truthy (number (whole (pos ℕ.zero))) = false
is_truthy (number not_a_number) = false
is_truthy (number _) = true
is_truthy (string s) = not (s == "")
is_truthy (array items) = true
is_truthy (object fields) = true

abbrev pub is_true : Value → Bool
is_true (boolean b) = b
is_true _ = false

abbrev pub string_of : Value → Option String
string_of (string s) = some s
string_of _ = none

abbrev pub items_of : Values → List Value
items_of empty_array = []
items_of (value_and item items) = item ∷ items_of items

-- `Array.isArray`
abbrev pub array_of : Value → Option (List Value)
array_of (array items) = some (items_of items)
array_of _ = none

-- `isRecord`
abbrev pub is_record : Value → Option Fields
is_record (object fields) = some fields
is_record _ = none

-- `isRecord(value) ? value : {}`
abbrev pub fields_of : Value → Fields
fields_of (object fields) = fields
fields_of _ = empty_object

-- `value[name]`
unfoldable pub field : String → Fields → Value
field name empty_object = nothing
field name (field_and key value fields) =
    let rest = field name fields in if key == name then value else rest

-- `clampInteger`, for bounds and fallbacks that are not negative.
unfoldable pub clamp_value : Value → ℕ → ℕ → ℕ → ℕ
clamp_value value minimum maximum fallback = elim (finite_round value) [
  | none ↦ fallback
  | some rounded ↦ clamp_integer rounded minimum maximum
]
