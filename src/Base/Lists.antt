-- ===== src/Base/Lists.antt =====
-- Lists measured by native numbers, under the library's names, and predicates on their items.
use Prim.Native.Nat.{ℕ, zero, suc, ◌+◌, ◌≤◌, ◌<◌}
use mathlib.Core.Path.{◌≡◌, refl, ap}
use mathlib.Core.Bool.{Bool, true, false}
use mathlib.Core.Logic.{◌⊎◌, inl, inr}
use mathlib.Core.List.{List, [], ◌∷◌, ◌++◌, map}
use mathlib.Core.Option.{Option, none, some}
use native.Mathlib.Omega.{arith}
use my_note_book.Base.Tests.{if◌then◌else◌}

module _ {ℓ} {A : Type ℓ} where
  abbrev pub length : List A → ℕ
  length [] = 0
  length (x ∷ xs) = suc (length xs)

  abbrev pub get_elem? : List A → ℕ → Option A
  get_elem? [] i = none
  get_elem? (x ∷ xs) zero = some x
  get_elem? (x ∷ xs) (suc i) = get_elem? xs i

  abbrev pub take : ℕ → List A → List A
  take zero xs = []
  take (suc n) [] = []
  take (suc n) (x ∷ xs) = x ∷ take n xs

  -- `find`: the first item that passes.
  abbrev pub find_first : (A → Bool) → List A → Option A
  find_first p [] = none
  find_first p (x ∷ xs) = if p x then some x else find_first p xs

  -- `filter` by a Boolean test.
  abbrev pub keep : (A → Bool) → List A → List A
  keep p [] = []
  keep p (x ∷ xs) = let rest = keep p xs in if p x then x ∷ rest else rest

  pub length-take : (n : ℕ) (xs : List A) → length (take n xs) ≤ n
  length-take zero xs = omega arith
  length-take (suc n) [] = omega arith
  length-take (suc n) (x ∷ xs) = omega (arith, length-take n xs)

  pub take_all : (n : ℕ) (xs : List A) → length xs ≤ n → take n xs ≡ xs
  take_all zero [] h = refl
  take_all zero (x ∷ xs) h = absurd (omega (arith, h))
  take_all (suc n) [] h = refl
  take_all (suc n) (x ∷ xs) h = cc (take_all n xs (omega (arith, h)))

  pub get_elem?-some : (xs : List A) (i : ℕ) → i < length xs → (x : A) × (get_elem? xs i ≡ some x)
  get_elem?-some [] i h = absurd (omega (arith, h))
  get_elem?-some (x ∷ xs) zero h = (x, refl)
  get_elem?-some (x ∷ xs) (suc i) h = get_elem?-some xs i (omega (arith, h))

  pub length-append : (xs ys : List A) → length (xs ++ ys) ≡ length xs + length ys
  length-append [] ys = omega arith
  length-append (x ∷ xs) ys = omega (arith, length-append xs ys)

module _ {ℓ κ} {A : Type ℓ} (P : A → Type κ) where
  abbrev pub All : List A → Type κ
  All [] = Unit
  All (x ∷ xs) = P x × All xs

  pub All-take : (n : ℕ) (xs : List A) → All xs → All (take n xs)
  All-take zero xs h = tt
  All-take (suc n) [] h = tt
  All-take (suc n) (x ∷ xs) (p, h) = (p, All-take n xs h)

  pub All-append : (xs ys : List A) → All xs → All ys → All (xs ++ ys)
  All-append [] ys hx hy = hy
  All-append (x ∷ xs) ys (p, hx) hy = (p, All-append xs ys hx hy)

module _ {ℓ κ} {A : Type ℓ} {B : Type κ} where
  pub length-map : (xs : List A) (f : A → B) → length (map f xs) ≡ length xs
  length-map [] f = refl
  length-map (x ∷ xs) f = ap suc (length-map xs f)

module _ {ℓ} {A : Type ℓ} (test : A → Bool) where
  pub keep-All : (xs : List A) → All (λ x. test x ≡ true) (keep test xs)
  keep-All [] = tt
  keep-All (x ∷ xs) = by_test (test x) refl (keep-All xs)
    where
      by_test :
          (b : Bool)
          → test x ≡ b
          → All (λ y. test y ≡ true) (keep test xs)
          → All (λ y. test y ≡ true) (if b then x ∷ keep test xs else keep test xs)
      by_test true e rest = (e, rest)
      by_test false e rest = rest

  pub keep_same : (xs : List A) → All (λ x. test x ≡ true) xs → keep test xs ≡ xs
  keep_same [] h = refl
  keep_same (x ∷ xs) (e, h) = rw (e, keep_same xs h) refl

  pub All-keep {κ'} :
      (P : A → Type κ') (xs : List A) → All P xs → All (λ x. P x × (test x ≡ true)) (keep test xs)
  All-keep P [] h = tt
  All-keep P (x ∷ xs) (p, h) = by_test (test x) refl (All-keep P xs h)
    where
      by_test :
          (b : Bool)
          → test x ≡ b
          → All (λ y. P y × (test y ≡ true)) (keep test xs)
          → All (λ y. P y × (test y ≡ true)) (if b then x ∷ keep test xs else keep test xs)
      by_test true e rest = ((p, e), rest)
      by_test false e rest = rest

module _ {A : Type 0} where
  abbrev pub IsAmong : A → List A → Type 0
  IsAmong x [] = ⊥
  IsAmong x (y ∷ ys) = (x ≡ y) ⊎ IsAmong x ys

  pub All-weaken {κ κ'} :
      (P : A → Type κ) (Q : A → Type κ') (xs : List A) → ((x : A) → P x → Q x) → All P xs → All Q xs
  All-weaken P Q [] weaken h = tt
  All-weaken P Q (x ∷ xs) weaken (p, h) = (weaken x p, All-weaken P Q xs weaken h)

  pub All-both {κ κ'} :
      (P : A → Type κ) (Q : A → Type κ') (xs : List A)
      → All P xs
      → All Q xs
      → All (λ x. P x × Q x) xs
  All-both P Q [] h k = tt
  All-both P Q (x ∷ xs) (p, h) (q, k) = ((p, q), All-both P Q xs h k)

  pub IsAmong-self : (xs : List A) → All (λ x. IsAmong x xs) xs
  IsAmong-self [] = tt
  IsAmong-self (x ∷ xs) = (
    inl refl,
    All-weaken (λ y. IsAmong y xs) (λ y. IsAmong y (x ∷ xs)) xs (λ y h. inr h) (IsAmong-self xs),
  )
