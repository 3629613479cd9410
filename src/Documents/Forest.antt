-- ===== src/Documents/Forest.antt =====
-- src/models/documents/documentTree.ts: the sidebar's forest. The articles are filed under their
-- parent article, their group or the root, and the lists are then made into trees.
use my_note_book.Base.{
  ℕ, zero, suc, ◌+◌, String, Bool, true, false, not, Option, none, some, List, [], ◌∷◌, ◌++◌, map,
  length, keep, if◌then◌else◌, is_some, Entries, lookup, insert, has, add,
}
use my_note_book.Documents.Defs.{DocumentSummary}
use my_note_book.Documents.Tree.{truthy, is_article, listed, push_at}

-- `resolveParentArticleId`'s loop: whether the cursor comes to an article without a parent article
-- (`true`) or back to one that was visited (`false`).
unfoldable pub walk_to_root : ℕ → Entries DocumentSummary → List String → String → Option Bool
walk_to_root zero article_by_id visited cursor_id = none
walk_to_root (suc fuel) article_by_id visited cursor_id = elim (has cursor_id visited) [
  | true ↦ some false
  | false ↦ elim (lookup cursor_id article_by_id) [
    | none ↦ some true
    | some cursor ↦ elim (truthy (cursor.parent_id)) [
      | none ↦ some true
      | some parent_id ↦ elim (is_some (lookup parent_id article_by_id)) [
        | false ↦ some true
        | true ↦ walk_to_root fuel article_by_id (add cursor_id visited) parent_id
      ]
    ]
  ]
]

unfoldable pub resolve_parent_article_id :
    DocumentSummary → Entries DocumentSummary → Option (Option String)
resolve_parent_article_id document article_by_id = elim (truthy (document.parent_id)) [
  | none ↦ some none
  | some direct_parent_id ↦ elim (is_some (lookup direct_parent_id article_by_id)) [
    | false ↦ some none
    | true ↦
        elim (walk_to_root (suc (length article_by_id)) article_by_id (document.id ∷ [])
          direct_parent_id) [
            | none ↦ none
            | some reached ↦ some (if reached then some direct_parent_id else none)
          ]
  ]
]

-- `new Map(documents.map((document) => [document.id, document]))`
unfoldable pub by_id : List DocumentSummary → Entries DocumentSummary → Entries DocumentSummary
by_id [] entries = entries
by_id (document ∷ documents) entries = by_id documents (insert (document.id) document entries)

-- `parentArticleIds`
unfoldable pub parent_article_ids :
    Entries DocumentSummary
    → List DocumentSummary
    → Entries (Option String)
    → Option (Entries (Option String))
parent_article_ids article_by_id [] ids = some ids
parent_article_ids article_by_id (document ∷ documents) ids =
    elim (resolve_parent_article_id document article_by_id) [
      | none ↦ none
      | some parent_id ↦
          parent_article_ids article_by_id documents (insert (document.id) parent_id ids)
    ]

pub record Filing : Type 0 where
  pub children_by_parent : Entries (List DocumentSummary)
  pub root_articles : List DocumentSummary
  pub root_articles_by_group : Entries (List DocumentSummary)

-- The body of the loop over the articles.
unfoldable pub file_article :
    Entries (Option String) → List String → DocumentSummary → Filing → Filing
file_article parent_ids groups document filing =
    elim (truthy (elim (lookup (document.id) parent_ids) [ none ↦ none | some id ↦ id ])) [
      | some parent_article_id ↦ record {
        children_by_parent = push_at parent_article_id document (filing.children_by_parent);
        root_articles = filing.root_articles;
        root_articles_by_group = filing.root_articles_by_group;
      }
      | none ↦ elim (truthy (document.parent_id)) [
        | none ↦ to_root
        | some group_id ↦ if has group_id groups then to_group group_id else to_root
      ]
    ]
  where
    to_root : Filing
    to_root = record {
      children_by_parent = filing.children_by_parent;
      root_articles = filing.root_articles ++ document ∷ [];
      root_articles_by_group = filing.root_articles_by_group;
    }

    to_group : String → Filing
    to_group group_id = record {
      children_by_parent = filing.children_by_parent;
      root_articles = filing.root_articles;
      root_articles_by_group = push_at group_id document (filing.root_articles_by_group);
    }

unfoldable pub file_articles :
    Entries (Option String) → List String → List DocumentSummary → Filing → Filing
file_articles parent_ids groups [] filing = filing
file_articles parent_ids groups (document ∷ documents) filing =
    file_articles parent_ids groups documents (file_article parent_ids groups document filing)

mutual
  pub data SidebarDocumentNode : Type 0 where
    node : DocumentSummary → SidebarDocumentNodes → SidebarDocumentNode

  pub data SidebarDocumentNodes : Type 0 where
    no_nodes : SidebarDocumentNodes
    more_nodes : SidebarDocumentNode → SidebarDocumentNodes → SidebarDocumentNodes

-- `createNodes` with its own recursive call as a parameter: the `map` over the items.
unfoldable pub nodes_of :
    (List DocumentSummary → Option SidebarDocumentNodes)
    → Entries (List DocumentSummary)
    → List DocumentSummary
    → Option SidebarDocumentNodes
nodes_of create children [] = some no_nodes
nodes_of create children (document ∷ documents) = elim (create (listed children (document.id))) [
  | none ↦ none
  | some below ↦ elim (nodes_of create children documents) [
    | none ↦ none
    | some beside ↦ some (more_nodes (node document below) beside)
  ]
]

unfoldable pub create_nodes :
    ℕ → Entries (List DocumentSummary) → List DocumentSummary → Option SidebarDocumentNodes
create_nodes zero children documents = none
create_nodes (suc fuel) children documents =
    nodes_of (create_nodes fuel children) children documents

unfoldable pub group_nodes :
    ℕ
    → Entries (List DocumentSummary)
    → Entries (List DocumentSummary)
    → Option (Entries SidebarDocumentNodes)
group_nodes fuel children [] = some []
group_nodes fuel children ((group_id, documents) ∷ groups) =
    elim (create_nodes fuel children documents) [
      | none ↦ none
      | some nodes ↦ elim (group_nodes fuel children groups) [
        | none ↦ none
        | some others ↦ some ((group_id, nodes) ∷ others)
      ]
    ]

pub record SidebarDocumentForest : Type 0 where
  pub root_nodes : SidebarDocumentNodes
  pub nodes_by_group : Entries SidebarDocumentNodes

unfoldable pub filing_of : List DocumentSummary → Option Filing
filing_of documents = elim (parent_article_ids (by_id articles []) articles []) [
  | none ↦ none
  | some parent_ids ↦ some (
      file_articles parent_ids groups articles
        (record { children_by_parent = []; root_articles = []; root_articles_by_group = [] }))
]
  where
    articles : List DocumentSummary
    articles = keep is_article documents

    groups : List String
    groups = map (λ document. document.id) (keep (λ document. not (is_article document)) documents)

unfoldable pub build_sidebar_document_forest : List DocumentSummary → Option SidebarDocumentForest
build_sidebar_document_forest documents = elim (filing_of documents) [
  | none ↦ none
  | some filing ↦
      with_roots filing
        (create_nodes (suc (length documents)) (filing.children_by_parent) (filing.root_articles))
]
  where
    with_groups :
        SidebarDocumentNodes → Option (Entries SidebarDocumentNodes) → Option SidebarDocumentForest
    with_groups roots none = none
    with_groups roots (some groups) = some (record { root_nodes = roots; nodes_by_group = groups })

    with_roots : Filing → Option SidebarDocumentNodes → Option SidebarDocumentForest
    with_roots filing none = none
    with_roots filing (some roots) = with_groups roots (
        group_nodes (suc (length documents)) (filing.children_by_parent)
          (filing.root_articles_by_group))

unfoldable mutual
  pub count_node : SidebarDocumentNode → ℕ
  count_node (node document children) = 1 + count_sidebar_document_nodes children

  pub count_sidebar_document_nodes : SidebarDocumentNodes → ℕ
  count_sidebar_document_nodes no_nodes = 0
  count_sidebar_document_nodes (more_nodes n ns) = count_node n + count_sidebar_document_nodes ns
