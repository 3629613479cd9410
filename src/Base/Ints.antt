-- ===== src/Base/Ints.antt =====
-- Whole numbers; `negsuc n` is -(n + 1).
use Prim.Native.Nat.{ℕ, suc, ◌+◌, ◌-◌, ◌≤◌, min, max}
use mathlib.Core.Path.{◌≡◌}
use mathlib.Core.Bool.{Bool, true, false}
use native.Mathlib.Omega.{arith}
use my_note_book.Base.Tests.{leb, ltb, if◌then◌else◌}

pub data ℤ : Type 0 where
  pos : ℕ → ℤ
  negsuc : ℕ → ℤ

unfoldable pub leb_int : ℤ → ℤ → Bool
leb_int (pos m) (pos n) = leb m n
leb_int (pos m) (negsuc n) = false
leb_int (negsuc m) (pos n) = true
leb_int (negsuc m) (negsuc n) = leb n m

pub leb_int_total : (a b : ℤ) → leb_int a b ≡ false → leb_int b a ≡ true
unfolding leb_int
leb_int_total (pos m) (pos n) h = ground arith
leb_int_total (pos m) (negsuc n) h = ground arith
leb_int_total (negsuc m) (pos n) h = ground arith
leb_int_total (negsuc m) (negsuc n) h = ground arith

-- `Math.max(minimum, Math.min(value, maximum))` for bounds that are not negative.
unfoldable pub clamp_integer : ℤ → ℕ → ℕ → ℕ
clamp_integer (pos value) minimum maximum = max minimum (min value maximum)
clamp_integer (negsuc value) minimum maximum = minimum

pub clamp_integer_bounds :
    (value : ℤ) (minimum maximum : ℕ)
    → minimum ≤ maximum
    → (minimum ≤ clamp_integer value minimum maximum)
      × (clamp_integer value minimum maximum ≤ maximum)
unfolding clamp_integer
clamp_integer_bounds (pos value) minimum maximum h = ground arith
clamp_integer_bounds (negsuc value) minimum maximum h = ground arith

-- `m - n`, which may be below 0.
abbrev minus : ℕ → ℕ → ℤ
minus m n = if ltb m n then negsuc (n - suc m) else pos (m - n)

infixl 60 ◌+ℤ◌
unfoldable pub ◌+ℤ◌ : ℤ → ℤ → ℤ
pos m +ℤ pos n = pos (m + n)
pos m +ℤ negsuc n = minus m (suc n)
negsuc m +ℤ pos n = minus n (suc m)
negsuc m +ℤ negsuc n = negsuc (suc (m + n))
