-- ===== src/Tabs/Closing.antt =====
-- Closing a tab, and all lists of tabs that can be open, in
-- src/features/workspace/components/home/useWorkspaceTabs.ts.
use my_note_book.Base.{
  get_elem?-some, ap, sym, ◌⊎◌, ℕ, ◌-◌, min, String, not, Option, none, some, List, [], ◌∷◌, length,
  keep, without, length-without, get_elem?, AreDistinct, arith, inl, inr, ◌≡◌, refl, ◌∙◌, ◌==◌,
  if◌then◌else◌,
}
use my_note_book.Tabs.Handlers.{
  WorkspaceTab, TabOptions, Activation, activates_fallback, resolve_active_tab, key_of, find_index,
  trim_open_tabs, active_tab_changed, activate_workspace_tab, activate_replacement,
  close_workspace_tab,
}
use my_note_book.Tabs.Keys.{keys, has_key, find_index_bound, without-keep, without-AreDistinct}
use my_note_book.Tabs.Open.{trim_open_tabs-AreDistinct, active_tab_changed-AreDistinct}

replaced :
    (options : TabOptions) (rest : List WorkspaceTab) (index last : ℕ)
    → length rest - 1 ≡ last
    → ((rest ≡ []) × (activate_replacement options rest index ≡ activates_fallback ∷ []))
      ⊎ ((tab : WorkspaceTab) × (get_elem? rest (min index last) ≡ some tab)
          × (activate_replacement options rest index ≡ activate_workspace_tab options tab))
unfolding activate_replacement
replaced options [] index last e = inl (refl, refl)
replaced options (tab ∷ rest) index last e =
    let found = get_elem?-some (tab ∷ rest) (min index last) (omega (arith, e)) in
    inr (found.0, found.1, ground (arith, found.1, e))

-- The tabs of other keys.
abbrev pub without_key : String → List WorkspaceTab → List WorkspaceTab
without_key key tabs = keep (λ tab. not (has_key key tab)) tabs

-- Closing the tab of a key that is open takes out the tab of that key and no other. It activates
-- something only if that tab was active: the fallback if no tab is left, and else the tab that stands
-- in its place afterwards, or the last one if it was the last.
pub close_workspace_tab_lem :
    (options : TabOptions) (key : String) (tabs : List WorkspaceTab) (index : ℕ)
    → AreDistinct (keys tabs)
    → find_index (has_key key) tabs ≡ some index
    → (close_workspace_tab options key tabs ≡ (
      without_key key tabs,
      if key_of (resolve_active_tab options) == key
          then activate_replacement options (without_key key tabs) index
          else [],
    ))
      × (length (without_key key tabs) ≡ length tabs - 1)
      × (((without_key key tabs ≡ [])
            × (activate_replacement options (without_key key tabs) index ≡ activates_fallback ∷ []))
          ⊎ ((tab : WorkspaceTab) × (get_elem? (without_key key tabs) (min index (length tabs - 2))
                ≡ some tab)
              × (activate_replacement options (without_key key tabs) index
                  ≡ activate_workspace_tab options tab)))
unfolding close_workspace_tab activate_replacement
close_workspace_tab_lem options key tabs index distinct found =
    let same = without-keep key tabs index distinct found in
    let bound = find_index_bound (has_key key) tabs index found in
    let size : length (without_key key tabs) ≡ length tabs - 1 =
      ap length (sym same) ∙ length-without index tabs bound in
    (
      ground (arith, found, same),
      size,
      replaced options (without_key key tabs) index (length tabs - 2) (omega (arith, size)),
    )

-- The lists of tabs that can be open: nothing at first, then after each run of a watcher and each
-- closing, whatever the refs are at that time.
pub data IsOpened : List WorkspaceTab → Type 0 where
  no_tabs : IsOpened []
  active_changed :
      {tabs : List WorkspaceTab} (options : TabOptions)
      → IsOpened tabs
      → IsOpened (active_tab_changed options tabs)
  limit_changed :
      {tabs : List WorkspaceTab} (options : TabOptions)
      → IsOpened tabs
      → IsOpened (trim_open_tabs options tabs)
  closed :
      {tabs : List WorkspaceTab} (options : TabOptions) (key : String)
      → IsOpened tabs
      → IsOpened (close_workspace_tab options key tabs).0

close_workspace_tab-AreDistinct :
    (options : TabOptions) (key : String) (tabs : List WorkspaceTab)
    → AreDistinct (keys tabs)
    → AreDistinct (keys (close_workspace_tab options key tabs).0)
unfolding close_workspace_tab
close_workspace_tab-AreDistinct options key tabs h = by_index (find_index (has_key key) tabs)
  where
    by_index :
        (found : Option ℕ)
        → AreDistinct (
            keys (
              (elim found as (λ o. List WorkspaceTab × List Activation) [
                | none ↦ (tabs, [])
                | some index ↦ (
                  without index tabs,
                  if key_of (resolve_active_tab options) == key
                      then activate_replacement options (without index tabs) index
                      else [],
                )
              ]).0))
    by_index none = h
    by_index (some index) = without-AreDistinct index tabs h

-- However the active tab, the limit and the documents change and whatever is closed, no key is ever
-- open twice.
pub IsOpened-AreDistinct : (tabs : List WorkspaceTab) → IsOpened tabs → AreDistinct (keys tabs)
IsOpened-AreDistinct tabs no_tabs = tt
IsOpened-AreDistinct tabs (active_changed {tabs = before} options h) =
    active_tab_changed-AreDistinct options before (IsOpened-AreDistinct before h)
IsOpened-AreDistinct tabs (limit_changed {tabs = before} options h) =
    trim_open_tabs-AreDistinct options before (IsOpened-AreDistinct before h)
IsOpened-AreDistinct tabs (closed {tabs = before} options key h) =
    close_workspace_tab-AreDistinct options key before (IsOpened-AreDistinct before h)
