-- ===== src/Tabs/Keys.antt =====
-- The keys of the open tabs in src/features/workspace/components/home/useWorkspaceTabs.ts.
use my_note_book.Base.{
  ℕ, zero, suc, ◌≤◌, ◌<◌, String, Bool, true, false, not, none, some, List, [], ◌∷◌, ◌++◌, map,
  length, keep, keep_same, find_first, without, change_at, All, has, AreDistinct, AreDistinct-snoc,
  eq_iff, eq_refl, ◌==◌, Bool-cases, Option-cases, eq_of_true, ◌⊎◌, inl, inr, arith, ◌≡◌, refl, ap,
  sym,
}
use my_note_book.Tabs.Handlers.{WorkspaceTab, find_index}

abbrev pub keys : List WorkspaceTab → List String
keys tabs = map (λ tab. tab.key) tabs

abbrev pub has_key : String → WorkspaceTab → Bool
has_key key tab = tab.key == key

module _ (test : WorkspaceTab → Bool) where
  -- Where the search stops: at the head, or in the tail.
  find_index-cons :
      (tab : WorkspaceTab) (tabs : List WorkspaceTab) (index : ℕ)
      → find_index test (tab ∷ tabs) ≡ some index
      → ((test tab ≡ true) × (zero ≡ index))
        ⊎ ((at : ℕ) × (test tab ≡ false) × (find_index test tabs ≡ some at) × (suc at ≡ index))
  unfolding find_index
  find_index-cons tab tabs index h = elim (Bool-cases (test tab)) [
    | inl e ↦ inl (e, ground (arith, e, h))
    | inr e ↦ elim (Option-cases (find_index test tabs)) [
      | inl missing ↦ ground (arith, e, h, missing)
      | inr (at, found) ↦ inr (at, e, found, ground (arith, e, h, found))
    ]
  ]

  pub find_index-none :
      (tabs : List WorkspaceTab) → find_index test tabs ≡ none → All (λ tab. test tab ≡ false) tabs
  unfolding find_index
  find_index-none [] h = tt
  find_index-none (tab ∷ tabs) h = elim (Bool-cases (test tab)) [
    | inl e ↦ ground (arith, e, h)
    | inr e ↦ elim (Option-cases (find_index test tabs)) [
      | inl missing ↦ (e, find_index-none tabs missing)
      | inr (at, found) ↦ ground (arith, e, h, found)
    ]
  ]

  pub find_index_bound :
      (tabs : List WorkspaceTab) (index : ℕ)
      → find_index test tabs ≡ some index
      → index < length tabs
  unfolding find_index
  find_index_bound [] index h = ground (arith, h)
  find_index_bound (tab ∷ tabs) index h = elim (find_index-cons tab tabs index h) [
    | inl (e, at_head) ↦ omega (arith, at_head)
    | inr (at, e, found, next) ↦ omega (arith, find_index_bound tabs at found, next)
  ]

other_keys :
    (key : String) (tabs : List WorkspaceTab)
    → has key (keys tabs) ≡ false
    → All (λ tab. not (has_key key tab) ≡ true) tabs
unfolding has
other_keys key [] h = tt
other_keys key (tab ∷ tabs) h = (ground (arith, h), other_keys key tabs (ground (arith, h)))

-- Taking out the first tab of a key takes out all that have it.
pub without-keep :
    (key : String) (tabs : List WorkspaceTab) (index : ℕ)
    → AreDistinct (keys tabs)
    → find_index (has_key key) tabs ≡ some index
    → without index tabs ≡ keep (λ tab. not (has_key key tab)) tabs
unfolding without find_index
without-keep key [] index distinct h = refl
without-keep key (tab ∷ tabs) index (fresh, distinct) h =
    elim (find_index-cons (has_key key) tab tabs index h) [
      | inl (e, at_head) ↦
          rw (← at_head, e)
            (sym (
              keep_same (λ t. not (has_key key t)) tabs
                (other_keys key tabs (rw (← eq_of_true tab.key key e) fresh))))
      | inr (at, e, found, next) ↦
          rw (← next, e) (ap (λ rest. tab ∷ rest) (without-keep key tabs at distinct found))
    ]

-- A tab in the place of one with its key changes no key.
pub keys-change_at :
    (tab : WorkspaceTab) (tabs : List WorkspaceTab) (index : ℕ)
    → find_index (has_key tab.key) tabs ≡ some index
    → keys (change_at index (λ item. tab) tabs) ≡ keys tabs
unfolding change_at find_index
keys-change_at tab [] index h = refl
keys-change_at tab (item ∷ tabs) index h =
    elim (find_index-cons (has_key tab.key) item tabs index h) [
      | inl (e, at_head) ↦
          rw (← at_head) (ap (λ key. key ∷ keys tabs) (sym (eq_of_true item.key tab.key e)))
      | inr (at, e, found, next) ↦
          rw (← next) (ap (λ rest. item.key ∷ rest) (keys-change_at tab tabs at found))
    ]

pub find_first-change_at :
    (tab : WorkspaceTab) (tabs : List WorkspaceTab) (index : ℕ)
    → find_index (has_key tab.key) tabs ≡ some index
    → find_first (has_key tab.key) (change_at index (λ item. tab) tabs) ≡ some tab
unfolding change_at find_index
find_first-change_at tab [] index h = ground (arith, h)
find_first-change_at tab (item ∷ tabs) index h =
    elim (find_index-cons (has_key tab.key) item tabs index h) [
      | inl (e, at_head) ↦ rw (← at_head, eq_refl tab.key) refl
      | inr (at, e, found, next) ↦ rw (← next, e) (find_first-change_at tab tabs at found)
    ]

pub find_first_snoc :
    (tab : WorkspaceTab) (tabs : List WorkspaceTab)
    → All (λ item. has_key tab.key item ≡ false) tabs
    → find_first (has_key tab.key) (tabs ++ tab ∷ []) ≡ some tab
find_first_snoc tab [] h = rw (eq_refl tab.key) refl
find_first_snoc tab (item ∷ tabs) (e, h) = rw e (find_first_snoc tab tabs h)

-- Taking out a tab that fails the test does not change the first that passes.
pub find_first-without :
    (key : String) (tabs : List WorkspaceTab) (index : ℕ)
    → find_index (λ tab. not (has_key key tab)) tabs ≡ some index
    → find_first (has_key key) (without index tabs) ≡ find_first (has_key key) tabs
unfolding without find_index
find_first-without key [] index h = refl
find_first-without key (tab ∷ tabs) index h =
    elim (find_index-cons (λ t. not (has_key key t)) tab tabs index h) [
      | inl (e, at_head) ↦ rw (← at_head) (ground (arith, e))
      | inr (at, e, found, next) ↦
          rw (← next) (ground (arith, e, find_first-without key tabs at found))
    ]

has-keys-without :
    (key : String) (index : ℕ) (tabs : List WorkspaceTab)
    → has key (keys tabs) ≡ false
    → has key (keys (without index tabs)) ≡ false
unfolding without has
has-keys-without key index [] h = refl
has-keys-without key zero (tab ∷ tabs) h = ground (arith, h)
has-keys-without key (suc index) (tab ∷ tabs) h = ground (arith, h, has-keys-without key index tabs)

pub without-AreDistinct :
    (index : ℕ) (tabs : List WorkspaceTab)
    → AreDistinct (keys tabs)
    → AreDistinct (keys (without index tabs))
unfolding without
without-AreDistinct index [] h = tt
without-AreDistinct zero (tab ∷ tabs) (fresh, h) = h
without-AreDistinct (suc index) (tab ∷ tabs) (fresh, h) =
    (has-keys-without tab.key index tabs fresh, without-AreDistinct index tabs h)

keys-append : (xs ys : List WorkspaceTab) → keys (xs ++ ys) ≡ keys xs ++ keys ys
keys-append [] ys = refl
keys-append (x ∷ xs) ys = ap (λ rest. x.key ∷ rest) (keys-append xs ys)

no_key :
    (key : String) (tabs : List WorkspaceTab)
    → All (λ tab. has_key key tab ≡ false) tabs
    → has key (keys tabs) ≡ false
unfolding has
no_key key [] h = refl
no_key key (tab ∷ tabs) (e, h) = rw e (no_key key tabs h)

pub snoc-AreDistinct :
    (tab : WorkspaceTab) (tabs : List WorkspaceTab)
    → All (λ item. has_key tab.key item ≡ false) tabs
    → AreDistinct (keys tabs)
    → AreDistinct (keys (tabs ++ tab ∷ []))
snoc-AreDistinct tab tabs other h =
    rw (keys-append tabs (tab ∷ []))
      (AreDistinct-snoc (keys tabs) tab.key (no_key tab.key tabs other) h)

-- Distinct tabs of one key are at most one.
pub one_key :
    (key : String) (tabs : List WorkspaceTab)
    → AreDistinct (keys tabs)
    → All (λ tab. not (has_key key tab) ≡ false) tabs
    → length tabs ≤ 1
unfolding has
one_key key [] distinct h = omega arith
one_key key (a ∷ []) distinct h = omega arith
one_key key (a ∷ b ∷ tabs) (fresh, distinct) (ea, (eb, h)) =
    ground
      (arith, fresh, ea, eb, eq_iff a.key key, eq_iff b.key key, eq_iff b.key a.key, eq_refl key)
