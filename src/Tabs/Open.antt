-- ===== src/Tabs/Open.antt =====
-- Which tabs are open after the active one changed in
-- src/features/workspace/components/home/useWorkspaceTabs.ts.
use mathlib.Core.Path.{subst}
use my_note_book.Base.{
  IsAmong, All-weaken, IsAmong-self, sym, ◌⊎◌, ℕ, ◌≤◌, max, Option, none, some, List, [], ◌∷◌, ◌++◌,
  length, find_first, change_at, All, All-without, All-append, All-change_at, AreDistinct, arith,
  inl, inr, ◌≡◌, refl, ◌∙◌,
}
use my_note_book.Tabs.Handlers.{
  WorkspaceTab, TabOptions, resolve_active_tab, key_of, find_index, trim_rounds, trim_open_tabs,
  show_tab, active_tab_changed,
}
use my_note_book.Tabs.Keys.{
  keys, has_key, find_index-none, keys-change_at, find_first-change_at, find_first_snoc,
  find_first-without, without-AreDistinct, snoc-AreDistinct,
}
use my_note_book.Tabs.Trim.{trim_rounds-keeps, trim_rounds_few}

show_tab-AreDistinct :
    (tab : WorkspaceTab) (tabs : List WorkspaceTab)
    → AreDistinct (keys tabs)
    → AreDistinct (keys (show_tab tab tabs))
unfolding show_tab
show_tab-AreDistinct tab tabs h = by_index (find_index (has_key tab.key) tabs) refl
  where
    by_index :
        (found : Option ℕ)
        → find_index (has_key tab.key) tabs ≡ found
        → AreDistinct (
            keys (elim found [
              | none ↦ tabs ++ tab ∷ []
              | some index ↦ change_at index (λ item. tab) tabs
            ]))
    by_index none e = snoc-AreDistinct tab tabs (find_index-none (has_key tab.key) tabs e) h
    by_index (some index) e = subst AreDistinct (sym (keys-change_at tab tabs index e)) h

show_tab-found :
    (tab : WorkspaceTab) (tabs : List WorkspaceTab)
    → find_first (has_key tab.key) (show_tab tab tabs) ≡ some tab
unfolding show_tab
show_tab-found tab tabs = by_index (find_index (has_key tab.key) tabs) refl
  where
    by_index :
        (found : Option ℕ)
        → find_index (has_key tab.key) tabs ≡ found
        → find_first (has_key tab.key) (elim found [
          | none ↦ tabs ++ tab ∷ []
          | some index ↦ change_at index (λ item. tab) tabs
        ])
          ≡ some tab
    by_index none e = find_first_snoc tab tabs (find_index-none (has_key tab.key) tabs e)
    by_index (some index) e = find_first-change_at tab tabs index e

show_tab-All {κ} :
    (P : WorkspaceTab → Type κ) (tab : WorkspaceTab) (tabs : List WorkspaceTab)
    → P tab
    → All P tabs
    → All P (show_tab tab tabs)
unfolding show_tab
show_tab-All P tab tabs p h = by_index (find_index (has_key tab.key) tabs)
  where
    by_index :
        (found : Option ℕ)
        → All P (elim found [
          | none ↦ tabs ++ tab ∷ []
          | some index ↦ change_at index (λ item. tab) tabs
        ])
    by_index none = All-append P tabs (tab ∷ []) h (p, tt)
    by_index (some index) = All-change_at P index (λ item. tab) tabs (λ x q. p) h

pub trim_open_tabs-AreDistinct :
    (options : TabOptions) (tabs : List WorkspaceTab)
    → AreDistinct (keys tabs)
    → AreDistinct (keys (trim_open_tabs options tabs))
unfolding trim_open_tabs
trim_open_tabs-AreDistinct options tabs h =
    let key = key_of (resolve_active_tab options) in
    trim_rounds-keeps options.max_tabs key (λ ts. AreDistinct (keys ts))
      (λ ts index found distinct. without-AreDistinct index ts distinct) (length tabs) tabs h

pub active_tab_changed-AreDistinct :
    (options : TabOptions) (tabs : List WorkspaceTab)
    → AreDistinct (keys tabs)
    → AreDistinct (keys (active_tab_changed options tabs))
unfolding active_tab_changed
active_tab_changed-AreDistinct options tabs h = by_tab (resolve_active_tab options)
  where
    by_tab :
        (active : Option WorkspaceTab)
        → AreDistinct (
            keys
              (elim active [ none ↦ tabs | some tab ↦ trim_open_tabs options (show_tab tab tabs) ]))
    by_tab none = h
    by_tab (some tab) =
        trim_open_tabs-AreDistinct options (show_tab tab tabs) (show_tab-AreDistinct tab tabs h)

active_tab_changed_shown :
    (options : TabOptions) (tab : WorkspaceTab) (tabs : List WorkspaceTab)
    → resolve_active_tab options ≡ some tab
    → active_tab_changed options tabs
      ≡ trim_rounds (length (show_tab tab tabs)) options.max_tabs tab.key (show_tab tab tabs)
unfolding active_tab_changed trim_open_tabs
active_tab_changed_shown options tab tabs active = ground (arith, active)

-- When the active tab changes to `tab`, it is open afterwards, as it is now; no key is open twice;
-- there are at most as many tabs as the limit allows, or the active one alone; and every other open
-- tab was open before.
pub active_tab_changed_lem :
    (options : TabOptions) (tab : WorkspaceTab) (tabs : List WorkspaceTab)
    → resolve_active_tab options ≡ some tab
    → AreDistinct (keys tabs)
    → (find_first (has_key tab.key) (active_tab_changed options tabs) ≡ some tab)
      × AreDistinct (keys (active_tab_changed options tabs))
      × (length (active_tab_changed options tabs) ≤ max options.max_tabs 1)
      × All (λ open_tab. (open_tab ≡ tab) ⊎ IsAmong open_tab tabs) (active_tab_changed options tabs)
active_tab_changed_lem options tab tabs active distinct =
    let shown = show_tab tab tabs in
    let rounds = length shown in
    let distinct' = show_tab-AreDistinct tab tabs distinct in
    rw (active_tab_changed_shown options tab tabs active) (
      trim_rounds-keeps options.max_tabs tab.key (λ ts. find_first (has_key tab.key) ts ≡ some tab)
          (λ ts index found kept. find_first-without tab.key ts index found ∙ kept) rounds shown
          (show_tab-found tab tabs),
      trim_rounds-keeps options.max_tabs tab.key (λ ts. AreDistinct (keys ts))
          (λ ts index found h. without-AreDistinct index ts h) rounds shown distinct',
      trim_rounds_few options.max_tabs tab.key rounds shown distinct' (omega arith),
      trim_rounds-keeps options.max_tabs tab.key (All IsOld)
          (λ ts index found h. All-without IsOld index ts h) rounds shown
          (show_tab-All IsOld tab tabs (inl refl)
            (All-weaken (λ t. IsAmong t tabs) IsOld tabs (λ t h. inr h) (IsAmong-self tabs))),
    )
  where
    IsOld : WorkspaceTab → Type 0
    IsOld open_tab = (open_tab ≡ tab) ⊎ IsAmong open_tab tabs
