-- ===== src/Tabs/Handlers.antt =====
-- src/features/workspace/components/home/useWorkspaceTabs.ts, with displayDocumentTitle of
-- src/models/documents/documentPresentation.ts, the surfaces of
-- src/models/workspace/workspaceSurface.ts and the summaries that name the tabs. The refs that the
-- composable is given are one record, `options`. The two watchers and closing are functions of it
-- and of the open tabs; the activations that a call makes are returned as a list.
use Prim.Native.String
use text.Mathlib.Text.{◌==◌}
use my_note_book.Base.{
  slice_to, ℕ, zero, suc, ◌-◌, min, String, Bool, true, false, not, ◌&&◌, Option, none, some, List,
  [], ◌∷◌, ◌++◌, length, ltb, if◌then◌else◌, find_first, without, change_at, get_elem?, trim,
}
use my_note_book.Documents.{DocumentSummary}
use my_note_book.Documents.Tree.{is_article}

pub data WorkspaceSurface : Type 0 where
  home agent inbox document knowledge plugins automations audit settings : WorkspaceSurface

pub data TabKind : Type 0 where
  document mindmap view surface : TabKind

pub record WorkspaceTab : Type 0 where
  pub key : String
  pub kind : TabKind
  pub id : String
  pub title : String

pub record MindMapSummary : Type 0 where
  pub id : String
  pub parent_id : Option String
  pub sort_order : ℕ
  pub title : String
  pub root_node_id : String
  pub node_count : ℕ
  pub version : ℕ
  pub created_at : ℕ
  pub updated_at : ℕ

pub data StructuredWorkspaceViewType : Type 0 where
  slides uml table dashboard : StructuredWorkspaceViewType

pub record StructuredWorkspaceViewSummary : Type 0 where
  pub id : String
  pub parent_id : Option String
  pub sort_order : ℕ
  pub view_type : StructuredWorkspaceViewType
  pub title : String
  pub pinned_at : Option ℕ
  pub version : ℕ
  pub created_at : ℕ
  pub updated_at : ℕ

-- `has_action` tells for which surfaces `activateSurface` has an entry.
pub record TabOptions : Type 0 where
  pub active_surface : WorkspaceSurface
  pub max_tabs : ℕ
  pub current_document_id : String
  pub documents : List DocumentSummary
  pub active_mind_map_id : Option String
  pub mind_maps : List MindMapSummary
  pub active_workspace_view_id : Option String
  pub workspace_views : List StructuredWorkspaceViewSummary
  pub has_action : String → Bool

pub data Activation : Type 0 where
  activates_document activates_mind_map activates_view activates_surface : String → Activation
  activates_fallback : Activation

unfoldable pub display_document_title : DocumentSummary → String
display_document_title d = if trim d.title == "" then "未命名文档" else slice_to 80 (trim d.title)

-- `title || fallback`
abbrev pub titled : String → String → String
titled title fallback = if title == "" then fallback else title

-- `id` as a condition.
abbrev pub given : Option String → Option String
given none = none
given (some id) = if id == "" then none else some id

-- The persistent surfaces with their ids and titles.
unfoldable pub surface_title : WorkspaceSurface → Option (String × String)
surface_title home = some ("home", "首页")
surface_title agent = some ("agent", "Agent Work")
surface_title inbox = some ("inbox", "收件箱")
surface_title knowledge = some ("knowledge", "知识控制")
surface_title _ = none

unfoldable pub mind_map_tab : List MindMapSummary → String → Option WorkspaceTab
mind_map_tab mind_maps id = elim (find_first (λ candidate. candidate.id == id) mind_maps) [
  | none ↦ none
  | some item ↦ some (record {
    key = String.◌++◌ "mindmap:" item.id;
    kind = mindmap;
    id = item.id;
    title = titled item.title "未命名思维导图";
  })
]

unfoldable pub view_tab : List StructuredWorkspaceViewSummary → String → Option WorkspaceTab
view_tab views id = elim (find_first (λ candidate. candidate.id == id) views) [
  | none ↦ none
  | some item ↦ some (record {
    key = String.◌++◌ "view:" item.id;
    kind = view;
    id = item.id;
    title = titled item.title "未命名视图";
  })
]

unfoldable pub document_tab : List DocumentSummary → String → Option WorkspaceTab
document_tab documents id =
    elim (find_first (λ candidate. candidate.id == id && is_article candidate) documents) [
      | none ↦ none
      | some d ↦ some (record {
        key = String.◌++◌ "document:" d.id;
        kind = TabKind.document;
        id = d.id;
        title = display_document_title d;
      })
    ]

unfoldable pub surface_tab : WorkspaceSurface → Option WorkspaceTab
surface_tab active_surface = elim (surface_title active_surface) [
  | none ↦ none
  | some (id, title) ↦
      some (record { key = String.◌++◌ "surface:" id; kind = surface; id = id; title = title })
]

abbrev pub shows_document : WorkspaceSurface → Bool
shows_document WorkspaceSurface.document = true
shows_document _ = false

unfoldable pub resolve_active_tab : TabOptions → Option WorkspaceTab
resolve_active_tab options =
    if shows_document options.active_surface
    then elim (given options.active_mind_map_id) [
      | some id ↦ mind_map_tab options.mind_maps id
      | none ↦ elim (given options.active_workspace_view_id) [
        | some id ↦ view_tab options.workspace_views id
        | none ↦ document_tab options.documents options.current_document_id
      ]
    ]
    else surface_tab options.active_surface

-- `activeTab.value?.key ?? ''`
abbrev pub key_of : Option WorkspaceTab → String
key_of none = ""
key_of (some tab) = tab.key

-- `findIndex`
unfoldable pub find_index : (WorkspaceTab → Bool) → List WorkspaceTab → Option ℕ
find_index test [] = none
find_index test (tab ∷ tabs) =
    if test tab
    then some 0
    else elim (find_index test tabs) [ none ↦ none | some index ↦ some (suc index) ]

-- The loop of `trimOpenTabs`: each round takes a tab out, so there are at most `length` rounds.
unfoldable pub trim_rounds : ℕ → ℕ → String → List WorkspaceTab → List WorkspaceTab
trim_rounds zero max_tabs active_key tabs = tabs
trim_rounds (suc rounds) max_tabs active_key tabs = elim (ltb max_tabs (length tabs)) [
  | false ↦ tabs
  | true ↦ elim (find_index (λ tab. not (tab.key == active_key)) tabs) [
    | none ↦ tabs
    | some index ↦ trim_rounds rounds max_tabs active_key (without index tabs)
  ]
]

unfoldable pub trim_open_tabs : TabOptions → List WorkspaceTab → List WorkspaceTab
trim_open_tabs options tabs =
    trim_rounds (length tabs) options.max_tabs (key_of (resolve_active_tab options)) tabs

unfoldable pub show_tab : WorkspaceTab → List WorkspaceTab → List WorkspaceTab
show_tab tab tabs = elim (find_index (λ item. item.key == tab.key) tabs) [
  | none ↦ tabs ++ tab ∷ []
  | some index ↦ change_at index (λ item. tab) tabs
]

-- The watcher of the active tab.
unfoldable pub active_tab_changed : TabOptions → List WorkspaceTab → List WorkspaceTab
active_tab_changed options tabs = elim (resolve_active_tab options) [
  | none ↦ tabs
  | some tab ↦ trim_open_tabs options (show_tab tab tabs)
]

unfoldable pub activate_workspace_tab : TabOptions → WorkspaceTab → List Activation
activate_workspace_tab options tab = elim (tab.kind) [
  | document ↦ activates_document tab.id ∷ []
  | mindmap ↦ activates_mind_map tab.id ∷ []
  | view ↦ activates_view tab.id ∷ []
  | surface ↦ if options.has_action tab.id then activates_surface tab.id ∷ [] else []
]

-- What closing the active tab activates: the tab that comes to its place, the last one, or nothing.
unfoldable pub activate_replacement : TabOptions → List WorkspaceTab → ℕ → List Activation
activate_replacement options rest closing_index =
    elim (get_elem? rest (min closing_index (length rest - 1))) [
      | none ↦ activates_fallback ∷ []
      | some tab ↦ activate_workspace_tab options tab
    ]

unfoldable pub close_workspace_tab :
    TabOptions → String → List WorkspaceTab → List WorkspaceTab × List Activation
close_workspace_tab options key tabs = elim (find_index (λ tab. tab.key == key) tabs) [
  | none ↦ (tabs, [])
  | some closing_index ↦ (
    without closing_index tabs,
    if key_of (resolve_active_tab options) == key
        then activate_replacement options (without closing_index tabs) closing_index
        else [],
  )
]
