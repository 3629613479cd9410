-- ===== src/Base/Text.antt =====
-- `String.prototype.trim`: the white space and the line ends of ECMAScript, by code point; the length
-- of a text; and natural numbers as text.
use Prim.Native.Nat.{ℕ, zero, suc, ◌+◌, ◌-◌, ◌≤◌, ◌/◌, ◌%◌}
use Prim.Native.String
use Prim.Native.Char.{code}
use Prim.Native.String.{String}
use mathlib.Core.Path.{◌≡◌, refl}
use mathlib.Core.Bool.{Bool, true, false, ◌&&◌, ◌||◌}
use mathlib.Core.List.{List, [], ◌∷◌}
use mathlib.Core.Option.{none, some}
use native.Mathlib.Omega.{arith}
use text.Mathlib.Text.{◌==◌}
use my_note_book.Base.Lists.{get_elem?}
use my_note_book.Base.Tests.{ltb, leb, nat_eq, if◌then◌else◌}

unfoldable pub is_space : ℕ → Bool
is_space c =
    (leb 9 c && leb c 13)
    || nat_eq c 32
    || nat_eq c 160
    || nat_eq c 5760
    || (leb 8192 c && leb c 8202)
    || nat_eq c 8232
    || nat_eq c 8233
    || nat_eq c 8239
    || nat_eq c 8287
    || nat_eq c 12288
    || nat_eq c 65279

unfoldable pub trim_start : String → String
trim_start String.[] = ""
trim_start (String.◌∷◌ c s) =
    let rest = trim_start s in if is_space (code c) then rest else String.◌∷◌ c s

unfoldable pub trim_end : String → String
trim_end String.[] = ""
trim_end (String.◌∷◌ c s) =
    let rest = trim_end s in if rest == "" && is_space (code c) then "" else String.◌∷◌ c rest

unfoldable pub trim : String → String
unfolding trim_start trim_end is_space
trim s = trim_end (trim_start s)

-- `length`, in UTF-16 units.
unfoldable pub utf16_length : String → ℕ
utf16_length String.[] = 0
utf16_length (String.◌∷◌ c s) = (if ltb (code c) 65536 then 1 else 2) + utf16_length s

-- `slice(0, units)` in UTF-16 units; a text has no half of a pair, so a pair that does not fit goes.
unfoldable pub slice_to : ℕ → String → String
slice_to units String.[] = ""
slice_to units (String.◌∷◌ c s) =
    let width : ℕ = if ltb (code c) 65536 then 1 else 2 in
    let rest = slice_to (units - width) s in if ltb units width then "" else String.◌∷◌ c rest

pub utf16_length-slice_to : (units : ℕ) (s : String) → utf16_length (slice_to units s) ≤ units
unfolding utf16_length slice_to
utf16_length-slice_to units String.[] = omega arith
utf16_length-slice_to units (String.◌∷◌ c s) =
    by_width (if ltb (code c) 65536 then 1 else 2) refl
      (utf16_length-slice_to (units - (if ltb (code c) 65536 then 1 else 2)) s)
  where
    by_width :
        (width : ℕ)
        → (if ltb (code c) 65536 then 1 else 2) ≡ width
        → utf16_length (slice_to (units - width) s) ≤ units - width
        → utf16_length (if ltb units width then "" else String.◌∷◌ c (slice_to (units - width) s))
          ≤ units
    by_width width e h = by_test (ltb units width) refl
      where
        by_test :
            (full : Bool)
            → ltb units width ≡ full
            → utf16_length (if full then "" else String.◌∷◌ c (slice_to (units - width) s)) ≤ units
        by_test true f = omega arith
        by_test false f = ground (arith, e, f, h)

trim_test : trim " a b\n" ≡ "a b"
unfolding trim
trim_test = refl

digits : List String
digits = "0" ∷ "1" ∷ "2" ∷ "3" ∷ "4" ∷ "5" ∷ "6" ∷ "7" ∷ "8" ∷ "9" ∷ []

digit : ℕ → String
unfolding digits
digit n = elim (get_elem? digits n) [ none ↦ "" | some text ↦ text ]

-- A round writes the last digit; the number has at most as many digits as its value, and one more.
decimal_rounds : ℕ → ℕ → String
unfolding digit
decimal_rounds zero n = ""
decimal_rounds (suc rounds) n =
    let rest = decimal_rounds rounds (n / 10) in
    if ltb n 10 then digit n else String.◌++◌ rest (digit (n % 10))

-- A natural number in a template literal.
unfoldable pub decimal : ℕ → String
unfolding decimal_rounds
decimal n = decimal_rounds (suc n) n
