-- ===== src/Tabs/Trim.antt =====
-- The loop that takes tabs out in src/features/workspace/components/home/useWorkspaceTabs.ts.
use mathlib.Core.Path.{subst}
use my_note_book.Base.{
  sym, ◌⊎◌, ℕ, zero, suc, ◌≤◌, ◌<◌, max, String, Bool, not, none, some, List, length, ltb, without,
  length-without, AreDistinct, arith, Bool-cases, Option-cases, inl, inr, ◌≡◌, refl,
}
use my_note_book.Tabs.Handlers.{WorkspaceTab, find_index, trim_rounds}
use my_note_book.Tabs.Keys.{
  keys, has_key, find_index-none, find_index_bound, without-AreDistinct, one_key,
}

module _ (max_tabs : ℕ) (key : String) where
  abbrev other : WorkspaceTab → Bool
  other tab = not (has_key key tab)

  -- A round ends the loop, or takes a tab out.
  trim_round :
      (rounds : ℕ) (tabs : List WorkspaceTab)
      → ((trim_rounds (suc rounds) max_tabs key tabs ≡ tabs)
          × ((length tabs ≤ max_tabs) ⊎ (find_index other tabs ≡ none)))
        ⊎ ((index : ℕ) × (max_tabs < length tabs)
            × (find_index other tabs ≡ some index)
            × (trim_rounds (suc rounds) max_tabs key tabs
                ≡ trim_rounds rounds max_tabs key (without index tabs)))
  unfolding trim_rounds
  trim_round rounds tabs = elim (Bool-cases (ltb max_tabs (length tabs))) [
    | inr few ↦ inl (ground (arith, few), inl (ground (arith, few)))
    | inl many ↦ elim (Option-cases (find_index other tabs)) [
      | inl stuck ↦ inl (ground (arith, many, stuck), inr stuck)
      | inr (index, found) ↦ inr (index, ground (arith, many), found, ground (arith, many, found))
    ]
  ]

  pub trim_rounds-keeps {κ} :
      (P : List WorkspaceTab → Type κ)
      → ((tabs : List WorkspaceTab) (index : ℕ)
          → find_index other tabs ≡ some index
          → P tabs
          → P (without index tabs))
      → (rounds : ℕ) (tabs : List WorkspaceTab) → P tabs
      → P (trim_rounds rounds max_tabs key tabs)
  unfolding trim_rounds
  trim_rounds-keeps P keeps zero tabs h = h
  trim_rounds-keeps P keeps (suc rounds) tabs h = elim (trim_round rounds tabs) [
    | inl (done, why) ↦ subst P (sym done) h
    | inr (index, many, found, next) ↦
        subst P (sym next)
          (trim_rounds-keeps P keeps rounds (without index tabs) (keeps tabs index found h))
  ]

  no_round : (tabs : List WorkspaceTab) → trim_rounds zero max_tabs key tabs ≡ tabs
  unfolding trim_rounds
  no_round tabs = refl

  -- What is left when the loop ends: at most `max_tabs` tabs, or only those of the active key.
  pub trim_rounds_few :
      (rounds : ℕ) (tabs : List WorkspaceTab)
      → AreDistinct (keys tabs)
      → length tabs ≤ rounds
      → length (trim_rounds rounds max_tabs key tabs) ≤ max max_tabs 1
  trim_rounds_few zero tabs distinct enough = rw (no_round tabs) (omega (arith, enough))
  trim_rounds_few (suc rounds) tabs distinct enough = elim (trim_round rounds tabs) [
    | inl (done, inl few) ↦ rw done (omega (arith, few))
    | inl (done, inr stuck) ↦
        rw done (omega (arith, one_key key tabs distinct (find_index-none other tabs stuck)))
    | inr (index, many, found, next) ↦ rw next (
        trim_rounds_few rounds (without index tabs) (without-AreDistinct index tabs distinct) (
          omega
            (arith, length-without index tabs (find_index_bound other tabs index found), enough)))
  ]
