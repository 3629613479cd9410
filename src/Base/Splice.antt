-- ===== src/Base/Splice.antt =====
-- Arrays that are spliced, filtered and written by index.
use Prim.Native.Nat.{ℕ, zero, suc, ◌-◌, ◌<◌}
use mathlib.Core.Path.{◌≡◌, refl}
use mathlib.Core.List.{List, [], ◌∷◌}
use native.Mathlib.Omega.{arith}
use my_note_book.Base.Lists.{length, All}

module _ {ℓ} {A : Type ℓ} where
  -- `splice(index, 0, item)`
  unfoldable pub splice_in : ℕ → A → List A → List A
  splice_in zero item items = item ∷ items
  splice_in (suc index) item [] = item ∷ []
  splice_in (suc index) item (x ∷ items) = x ∷ splice_in index item items

  -- `filter((_, at) => at !== index)`
  unfoldable pub without : ℕ → List A → List A
  without index [] = []
  without zero (x ∷ items) = items
  without (suc index) (x ∷ items) = x ∷ without index items

  -- `items[index] = change(items[index])` for an index in bounds
  unfoldable pub change_at : ℕ → (A → A) → List A → List A
  change_at index change [] = []
  change_at zero change (x ∷ items) = change x ∷ items
  change_at (suc index) change (x ∷ items) = x ∷ change_at index change items

  -- `items[index]`, `or_item` out of bounds.
  unfoldable pub item_at : A → ℕ → List A → A
  item_at or_item index [] = or_item
  item_at or_item zero (x ∷ items) = x
  item_at or_item (suc index) (x ∷ items) = item_at or_item index items

  -- `for (let at = start; …)` with `count` rounds.
  unfoldable pub for_from : ℕ → ℕ → (ℕ → A → A) → A → A
  for_from start zero body state = state
  for_from start (suc count) body state = for_from (suc start) count body (body start state)

module _ {ℓ} {A : Type ℓ} where
  pub length-splice_in :
      (index : ℕ) (item : A) (items : List A)
      → length (splice_in index item items) ≡ suc (length items)
  unfolding splice_in
  length-splice_in zero item items = refl
  length-splice_in (suc index) item [] = refl
  length-splice_in (suc index) item (x ∷ items) = omega (arith, length-splice_in index item items)

  pub length-without :
      (index : ℕ) (items : List A)
      → index < length items
      → length (without index items) ≡ length items - 1
  unfolding without
  length-without index [] bound = absurd (omega (arith, bound))
  length-without zero (x ∷ items) bound = omega arith
  length-without (suc index) (x ∷ items) bound =
      omega (arith, length-without index items (omega (arith, bound)), bound)

  pub length-change_at :
      (index : ℕ) (change : A → A) (items : List A)
      → length (change_at index change items) ≡ length items
  unfolding change_at
  length-change_at index change [] = refl
  length-change_at zero change (x ∷ items) = refl
  length-change_at (suc index) change (x ∷ items) =
      omega (arith, length-change_at index change items)

  module _ {κ} (P : A → Type κ) where
    pub All-splice_in :
        (index : ℕ) (item : A) (items : List A)
        → P item
        → All P items
        → All P (splice_in index item items)
    unfolding splice_in
    All-splice_in zero item items p ps = (p, ps)
    All-splice_in (suc index) item [] p ps = (p, tt)
    All-splice_in (suc index) item (x ∷ items) p (q, ps) = (q, All-splice_in index item items p ps)

    pub All-without : (index : ℕ) (items : List A) → All P items → All P (without index items)
    unfolding without
    All-without index [] ps = tt
    All-without zero (x ∷ items) (q, ps) = ps
    All-without (suc index) (x ∷ items) (q, ps) = (q, All-without index items ps)

    pub All-change_at :
        (index : ℕ) (change : A → A) (items : List A)
        → ((x : A) → P x → P (change x))
        → All P items
        → All P (change_at index change items)
    unfolding change_at
    All-change_at index change [] keeps ps = tt
    All-change_at zero change (x ∷ items) keeps (q, ps) = (keeps x q, ps)
    All-change_at (suc index) change (x ∷ items) keeps (q, ps) =
        (q, All-change_at index change items keeps ps)

    pub All-item_at :
        (or_item : A) (index : ℕ) (items : List A)
        → index < length items
        → All P items
        → P (item_at or_item index items)
    unfolding item_at
    All-item_at or_item index [] bound ps = absurd (omega (arith, bound))
    All-item_at or_item zero (x ∷ items) bound (q, ps) = q
    All-item_at or_item (suc index) (x ∷ items) bound (q, ps) =
        All-item_at or_item index items (omega (arith, bound)) ps

    pub for_from-keeps :
        (body : ℕ → A → A) (start count : ℕ) (state : A)
        → ((at : ℕ) (x : A) → P x → P (body at x))
        → P state
        → P (for_from start count body state)
    unfolding for_from
    for_from-keeps body start zero state keeps p = p
    for_from-keeps body start (suc count) state keeps p =
        for_from-keeps body (suc start) count (body start state) keeps (keeps start state p)
