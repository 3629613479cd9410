-- ===== src/Base/Distinct.antt =====
-- Lists of texts without repetition.
use Prim.Native.String.{String}
use mathlib.Core.Path.{subst, ◌≡◌, refl, sym, ◌∙◌}
use mathlib.Core.Bool.{Bool, true, false, ◌||◌}
use mathlib.Core.List.{List, [], ◌∷◌, ◌++◌}
use mathlib.Core.List.{append-nil, append_assoc}
use Prim.Native.Nat.{◌+◌, ℕ, zero, suc, ◌≤◌}
use mathlib.Core.Logic.{inl, inr}
use native.Mathlib.Omega.{arith}
use text.Mathlib.Text.{◌==◌}
use text.Mathlib.TextEquality.{eq_iff}
use my_note_book.Base.Tests.{eq_of_true, if◌then◌else◌, Bool-cases}
use my_note_book.Base.Lists.{length-append, take, All, All-append, length}
use my_note_book.Base.Dict.{has, add, has-append, has-add}

-- `Array.from(new Set(items))`, from the items of the set so far.
unfoldable pub distinct_onto : List String → List String → List String
distinct_onto seen [] = seen
distinct_onto seen (item ∷ items) = distinct_onto (add item seen) items

abbrev pub AreDistinct : List String → Type 0
AreDistinct [] = Unit
AreDistinct (x ∷ xs) = (has x xs ≡ false) × AreDistinct xs

pub AreDistinct-snoc :
    (xs : List String) (x : String) → has x xs ≡ false → AreDistinct xs → AreDistinct (xs ++ x ∷ [])
unfolding has
AreDistinct-snoc [] x new h = (refl, tt)
AreDistinct-snoc (y ∷ xs) x new (fresh, h) = (
  ground (arith, has-append y xs (x ∷ []), new, fresh, eq_iff y x, eq_iff x y),
  AreDistinct-snoc xs x (ground (arith, new)) h,
)

pub add-AreDistinct : (x : String) (xs : List String) → AreDistinct xs → AreDistinct (add x xs)
unfolding add
add-AreDistinct x xs h = by_test (has x xs) refl
  where
    by_test : (b : Bool) → has x xs ≡ b → AreDistinct (if b then xs else xs ++ x ∷ [])
    by_test true e = h
    by_test false e = AreDistinct-snoc xs x e h

pub distinct_onto-AreDistinct :
    (seen items : List String) → AreDistinct seen → AreDistinct (distinct_onto seen items)
unfolding distinct_onto
distinct_onto-AreDistinct seen [] h = h
distinct_onto-AreDistinct seen (x ∷ items) h =
    distinct_onto-AreDistinct (add x seen) items (add-AreDistinct x seen h)

pub has-distinct_onto :
    (k : String) (seen items : List String)
    → has k (distinct_onto seen items) ≡ (has k seen || has k items)
unfolding distinct_onto has
has-distinct_onto k seen [] = ground arith
has-distinct_onto k seen (x ∷ items) =
    ground (arith, has-distinct_onto k (add x seen) items, has-add x k seen)

abbrev AreNew : List String → List String → Type 0
AreNew seen [] = Unit
AreNew seen (x ∷ xs) = (has x seen ≡ false) × AreNew seen xs

AreNew-add :
    (x : String) (seen items : List String)
    → has x items ≡ false
    → AreNew seen items
    → AreNew (seen ++ x ∷ []) items
unfolding has
AreNew-add x seen [] other h = tt
AreNew-add x seen (y ∷ items) other (fresh, h) = (
  ground (arith, has-append y seen (x ∷ []), fresh, other, eq_iff x y, eq_iff y x),
  AreNew-add x seen items (ground (arith, other)) h,
)

distinct_onto_new :
    (seen items : List String)
    → AreDistinct items
    → AreNew seen items
    → distinct_onto seen items ≡ seen ++ items
unfolding distinct_onto add
distinct_onto_new seen [] h new = ground (arith, append-nil seen)
distinct_onto_new seen (x ∷ items) (fresh, h) (outside, new) = rw outside (
    distinct_onto_new (seen ++ x ∷ []) items h (AreNew-add x seen items fresh new)
    ∙ append_assoc seen (x ∷ []) items)

nothing-AreNew : (items : List String) → AreNew [] items
unfolding has
nothing-AreNew [] = tt
nothing-AreNew (x ∷ items) = (refl, nothing-AreNew items)

pub distinct_onto_same : (items : List String) → AreDistinct items → distinct_onto [] items ≡ items
distinct_onto_same items h = distinct_onto_new [] items h (nothing-AreNew items)

has-take :
    (k : String) (n : ℕ) (items : List String) → has k items ≡ false → has k (take n items) ≡ false
unfolding has
has-take k zero items h = refl
has-take k (suc n) [] h = refl
has-take k (suc n) (x ∷ items) h = ground (arith, h, has-take k n items)

pub take-AreDistinct :
    (n : ℕ) (items : List String) → AreDistinct items → AreDistinct (take n items)
take-AreDistinct zero items h = tt
take-AreDistinct (suc n) [] h = tt
take-AreDistinct (suc n) (x ∷ items) (fresh, h) =
    (has-take x n items fresh, take-AreDistinct n items h)

module _ {κ} (P : String → Type κ) where
  pub All-add : (x : String) (xs : List String) → P x → All P xs → All P (add x xs)
  unfolding add
  All-add x xs p h = by_test (has x xs)
    where
      by_test : (b : Bool) → All P (if b then xs else xs ++ x ∷ [])
      by_test true = h
      by_test false = All-append P xs (x ∷ []) h (p, tt)

  pub All-has : (k : String) (xs : List String) → has k xs ≡ true → All P xs → P k
  unfolding has
  All-has k [] met h = ground (arith, met)
  All-has k (x ∷ xs) met (p, h) = elim (Bool-cases (x == k)) [
    | inl e ↦ subst P (eq_of_true x k e) p
    | inr e ↦ All-has k xs (ground (arith, met, e)) h
  ]

  pub All-distinct_onto :
      (seen items : List String) → All P seen → All P items → All P (distinct_onto seen items)
  unfolding distinct_onto
  All-distinct_onto seen [] h k = h
  All-distinct_onto seen (x ∷ items) h (p, k) =
      All-distinct_onto (add x seen) items (All-add x seen p h) k

length-add_le : (x : String) (seen : List String) → length (add x seen) ≤ suc (length seen)
unfolding add
length-add_le x seen = by_test (has x seen)
  where
    by_test : (b : Bool) → length (if b then seen else seen ++ x ∷ []) ≤ suc (length seen)
    by_test true = omega arith
    by_test false = omega (arith, length-append seen (x ∷ []))

length-distinct_onto_le :
    (seen items : List String) → length (distinct_onto seen items) ≤ length seen + length items
unfolding distinct_onto add
length-distinct_onto_le seen [] = omega arith
length-distinct_onto_le seen (x ∷ items) =
    omega (arith, length-distinct_onto_le (add x seen) items, length-add_le x seen)

-- No item is dropped only where there is none to drop.
length-distinct_onto-AreDistinct :
    (seen items : List String)
    → AreDistinct seen
    → length (distinct_onto seen items) ≡ length seen + length items
    → AreDistinct (seen ++ items)
unfolding distinct_onto add
length-distinct_onto-AreDistinct seen [] h e = subst AreDistinct (sym (append-nil seen)) h
length-distinct_onto-AreDistinct seen (x ∷ items) h e =
    by_test (has x seen) refl (length-distinct_onto-AreDistinct (seen ++ x ∷ []) items) e
  where
    by_test :
        (b : Bool)
        → has x seen ≡ b
        → (AreDistinct (seen ++ x ∷ [])
            → length (distinct_onto (seen ++ x ∷ []) items) ≡ length (seen ++ x ∷ []) + length items
            → AreDistinct ((seen ++ x ∷ []) ++ items))
        → length (distinct_onto (if b then seen else seen ++ x ∷ []) items)
          ≡ length seen + suc (length items)
        → AreDistinct (seen ++ x ∷ items)
    by_test true met rest k = absurd (omega (arith, k, length-distinct_onto_le seen items))
    by_test false new rest k =
        subst AreDistinct (append_assoc seen (x ∷ []) items)
          (rest (AreDistinct-snoc seen x new h) (omega (arith, k, length-append seen (x ∷ []))))

pub AreDistinct-of_length :
    (items : List String) → length (distinct_onto [] items) ≡ length items → AreDistinct items
AreDistinct-of_length items e = length-distinct_onto-AreDistinct [] items tt (omega (arith, e))
