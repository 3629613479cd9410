-- ===== src/Tabs/Tests.antt =====
-- Tabs of mind maps, at most two.
use Prim.Native.String
use my_note_book.Base.{
  without, ◌-◌, ◌≤◌, max, min, String, false, none, some, List, [], ◌∷◌, length, find_first,
  get_elem?, All, IsAmong, AreDistinct, has, ◌==◌, if◌then◌else◌, ◌≡◌, ◌⊎◌, refl,
}
use my_note_book.Tabs.Handlers.{
  WorkspaceTab, mindmap, MindMapSummary, WorkspaceSurface, TabOptions, activates_fallback,
  resolve_active_tab, mind_map_tab, key_of, find_index, show_tab, trim_open_tabs, trim_rounds,
  active_tab_changed, activate_workspace_tab, activate_replacement, close_workspace_tab,
}
use my_note_book.Tabs.Keys.{keys, has_key}
use my_note_book.Tabs.Open.{active_tab_changed_lem}
use my_note_book.Tabs.Closing.{
  without_key, close_workspace_tab_lem, IsOpened, no_tabs, active_changed, closed,
  IsOpened-AreDistinct,
}

abbrev a_map : String → MindMapSummary
a_map id = record {
  id = id;
  parent_id = none;
  sort_order = 0;
  title = id;
  root_node_id = "r";
  node_count = 1;
  version = 1;
  created_at = 0;
  updated_at = 0;
}

abbrev at_map : String → TabOptions
at_map id = record {
  active_surface = WorkspaceSurface.document;
  max_tabs = 2;
  current_document_id = "";
  documents = [];
  active_mind_map_id = some id;
  mind_maps = a_map "m1" ∷ a_map "m2" ∷ a_map "m3" ∷ [];
  active_workspace_view_id = none;
  workspace_views = [];
  has_action = λ surface. false;
}

abbrev map_tab : String → WorkspaceTab
map_tab id = record { key = String.◌++◌ "mindmap:" id; kind = mindmap; id = id; title = id }

abbrev two_tabs : List WorkspaceTab
two_tabs = map_tab "m1" ∷ map_tab "m2" ∷ []

two_tabs-AreDistinct : AreDistinct (keys two_tabs)
unfolding has
two_tabs-AreDistinct = (refl, (refl, tt))

at_m3 : resolve_active_tab (at_map "m3") ≡ some (map_tab "m3")
unfolding resolve_active_tab mind_map_tab
at_m3 = refl

active_tab_changed_lem_example :
    (find_first (has_key (map_tab "m3").key) (active_tab_changed (at_map "m3") two_tabs)
      ≡ some (map_tab "m3"))
    × AreDistinct (keys (active_tab_changed (at_map "m3") two_tabs))
    × (length (active_tab_changed (at_map "m3") two_tabs) ≤ max 2 1)
    × All
        (λ open_tab. (open_tab ≡ map_tab "m3") ⊎ IsAmong open_tab two_tabs)
        (active_tab_changed (at_map "m3") two_tabs)
active_tab_changed_lem_example =
    active_tab_changed_lem (at_map "m3") (map_tab "m3") two_tabs at_m3 two_tabs-AreDistinct

oldest_goes : active_tab_changed (at_map "m3") two_tabs ≡ map_tab "m2" ∷ map_tab "m3" ∷ []
unfolding active_tab_changed trim_open_tabs trim_rounds show_tab find_index resolve_active_tab
    mind_map_tab without
oldest_goes = refl

m1_first : find_index (has_key "mindmap:m1") two_tabs ≡ some 0
unfolding find_index
m1_first = refl

close_workspace_tab_lem_example :
    (close_workspace_tab (at_map "m1") "mindmap:m1" two_tabs ≡ (
      without_key "mindmap:m1" two_tabs,
      if key_of (resolve_active_tab (at_map "m1")) == "mindmap:m1"
          then activate_replacement (at_map "m1") (without_key "mindmap:m1" two_tabs) 0
          else [],
    ))
    × (length (without_key "mindmap:m1" two_tabs) ≡ length two_tabs - 1)
    × (((without_key "mindmap:m1" two_tabs ≡ [])
          × (activate_replacement (at_map "m1") (without_key "mindmap:m1" two_tabs) 0
              ≡ activates_fallback ∷ []))
        ⊎ ((tab : WorkspaceTab) × (get_elem?
                (without_key "mindmap:m1" two_tabs)
                (min 0 (length two_tabs - 2))
              ≡ some tab)
            × (activate_replacement (at_map "m1") (without_key "mindmap:m1" two_tabs) 0
                ≡ activate_workspace_tab (at_map "m1") tab)))
close_workspace_tab_lem_example =
    close_workspace_tab_lem (at_map "m1") "mindmap:m1" two_tabs 0 two_tabs-AreDistinct m1_first

abbrev three_opened :
    IsOpened
      (close_workspace_tab
        (at_map "m2")
        "mindmap:m1"
        (active_tab_changed (at_map "m2") (active_tab_changed (at_map "m1") []))).0
three_opened =
    closed (at_map "m2") "mindmap:m1"
      (active_changed (at_map "m2") (active_changed (at_map "m1") no_tabs))

IsOpened-AreDistinct_example : AreDistinct (
    keys
      (close_workspace_tab
        (at_map "m2")
        "mindmap:m1"
        (active_tab_changed (at_map "m2") (active_tab_changed (at_map "m1") []))).0)
IsOpened-AreDistinct_example =
    IsOpened-AreDistinct
      (close_workspace_tab (at_map "m2") "mindmap:m1"
        (active_tab_changed (at_map "m2") (active_tab_changed (at_map "m1") []))).0
      three_opened
