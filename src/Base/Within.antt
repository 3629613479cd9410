-- ===== src/Base/Within.antt =====
-- Lists of texts whose items are all in another list.
use Prim.Native.String.{String}
use mathlib.Core.Path.{◌≡◌}
use mathlib.Core.Bool.{true, false}
use mathlib.Core.List.{List, [], ◌∷◌}
use Prim.Native.Nat.{◌≤◌, ◌<◌}
use mathlib.Core.Logic.{inl, inr}
use native.Mathlib.Omega.{arith}
use text.Mathlib.TextEquality.{eq_iff}
use my_note_book.Base.Tests.{Bool-cases}
use my_note_book.Base.Lists.{All-weaken, All, length}
use my_note_book.Base.Dict.{has_refl, remove, has-remove, has}
use my_note_book.Base.Distinct.{AreDistinct}

abbrev pub IsWithinList : List String → List String → Type 0
IsWithinList xs ys = All (λ x. has x ys ≡ true) xs

pub IsWithinList-self : (xs : List String) → IsWithinList xs xs
unfolding has
IsWithinList-self [] = tt
IsWithinList-self (x ∷ xs) = (
  has_refl x xs,
  All-weaken (λ y. has y xs ≡ true) (λ y. has y (x ∷ xs) ≡ true) xs (λ y h. ground (arith, h))
      (IsWithinList-self xs),
)

IsWithinList-remove :
    (x : String) (xs ys : List String)
    → has x xs ≡ false
    → IsWithinList xs ys
    → IsWithinList xs (remove x ys)
unfolding has
IsWithinList-remove x [] ys fresh h = tt
IsWithinList-remove x (z ∷ xs) ys fresh (e, h) = (
  ground (arith, has-remove x z ys, fresh, e, eq_iff x z, eq_iff z x),
  IsWithinList-remove x xs ys (ground (arith, fresh)) h,
)

length-remove_le : (x : String) (ys : List String) → length (remove x ys) ≤ length ys
unfolding remove
length-remove_le x [] = omega arith
length-remove_le x (y ∷ ys) = ground (arith, length-remove_le x ys)

length-remove_lt :
    (x : String) (ys : List String) → has x ys ≡ true → length (remove x ys) < length ys
unfolding remove has
length-remove_lt x [] h = ground (arith, h)
length-remove_lt x (y ∷ ys) h = ground (arith, h, length-remove_lt x ys, length-remove_le x ys)

length-le_of_within :
    (xs ys : List String) → AreDistinct xs → IsWithinList xs ys → length xs ≤ length ys
length-le_of_within [] ys distinct h = omega arith
length-le_of_within (x ∷ xs) ys (fresh, distinct) (e, h) = omega (
  arith,
  length-remove_lt x ys e,
  length-le_of_within xs (remove x ys) distinct (IsWithinList-remove x xs ys fresh h),
)

-- Distinct items of a list that are as many as its own are all of them.
pub IsWithinList-all :
    (xs ys : List String)
    → AreDistinct xs
    → IsWithinList xs ys
    → length xs ≡ length ys
    → (y : String) → has y ys ≡ true
    → has y xs ≡ true
IsWithinList-all xs ys distinct within same y met = elim (Bool-cases (has y xs)) [
  | inl found ↦ found
  | inr missing ↦
      absurd
        (omega (arith, same, length-le_of_within (y ∷ xs) ys (missing, distinct) (met, within)))
]
