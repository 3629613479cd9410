-- ===== src/Documents/Tree.antt =====
-- src/models/documents/documentTree.ts: the articles above and below a document. A parent id that
-- is null or empty is no parent. The loops take fuel, and `none` is a run that needs more of it.
use my_note_book.Base.{
  ℕ, zero, suc, String, Bool, true, false, Option, none, some, List, [], ◌∷◌, ◌++◌, ◌==◌, map,
  length, if◌then◌else◌, Entries, lookup, insert, has, add,
}
use my_note_book.Documents.Defs.{DocumentSummary, article, group}

-- `parentId` as a condition.
unfoldable pub truthy : Option String → Option String
truthy none = none
truthy (some id) = if id == "" then none else some id

unfoldable pub is_article : DocumentSummary → Bool
is_article document = elim (document.document_kind) [ article ↦ true | group ↦ false ]

-- `map.get(id) ?? []`
unfoldable pub listed : Entries (List DocumentSummary) → String → List DocumentSummary
listed lists id = elim (lookup id lists) [ none ↦ [] | some documents ↦ documents ]

-- The three lines that append a document to the list at a key.
unfoldable pub push_at :
    String → DocumentSummary → Entries (List DocumentSummary) → Entries (List DocumentSummary)
push_at id document lists = insert id (listed lists id ++ document ∷ []) lists

-- The `while` loop of `collectDocumentAncestors`.
unfoldable pub ancestors_from :
    ℕ
    → Entries DocumentSummary
    → List String
    → List DocumentSummary
    → Option String
    → Option (List DocumentSummary)
ancestors_from zero document_by_id visited ancestors parent_id = none
ancestors_from (suc fuel) document_by_id visited ancestors parent_id = elim (truthy parent_id) [
  | none ↦ some ancestors
  | some id ↦ elim (has id visited) [
    | true ↦ some ancestors
    | false ↦ elim (lookup id document_by_id) [
      | none ↦ some ancestors
      | some parent ↦
          ancestors_from fuel document_by_id (add id visited) (ancestors ++ parent ∷ [])
            (parent.parent_id)
    ]
  ]
]

unfoldable pub collect_document_ancestors :
    DocumentSummary → Entries DocumentSummary → Option (List DocumentSummary)
collect_document_ancestors document document_by_id =
    ancestors_from (suc (length document_by_id)) document_by_id (document.id ∷ []) []
      (document.parent_id)

unfoldable pub some_with_id : String → List DocumentSummary → Bool
some_with_id id documents = has id (map (λ document. document.id) documents)

unfoldable pub is_document_descendant_of :
    DocumentSummary → String → Entries DocumentSummary → Option Bool
is_document_descendant_of document ancestor_id document_by_id =
    elim (collect_document_ancestors document document_by_id) [
      | none ↦ none
      | some ancestors ↦ some (some_with_id ancestor_id ancestors)
    ]

-- The loop of `collectArticleDescendants` that fills `childrenByParent`.
unfoldable pub children_by_parent :
    List DocumentSummary → Entries (List DocumentSummary) → Entries (List DocumentSummary)
children_by_parent [] lists = lists
children_by_parent (document ∷ documents) lists = children_by_parent documents (
    if is_article document
    then elim (document.parent_id) [ none ↦ lists | some id ↦ push_at id document lists ]
    else lists)

pub record Descent : Type 0 where
  pub visited : List String
  pub descendants : List DocumentSummary

-- `visit` with its own recursive call as a parameter: the loop over the children.
unfoldable pub visit_each :
    (String → Descent → Option Descent) → List DocumentSummary → Descent → Option Descent
visit_each visit [] descent = some descent
visit_each visit (child ∷ children) descent = elim (has (child.id) (descent.visited)) [
  | true ↦ visit_each visit children descent
  | false ↦
      elim (visit (child.id) (record {
        visited = add (child.id) (descent.visited);
        descendants = descent.descendants ++ child ∷ [];
      })) [ none ↦ none | some descent' ↦ visit_each visit children descent' ]
]

unfoldable pub visit : ℕ → Entries (List DocumentSummary) → String → Descent → Option Descent
visit zero children id descent = none
visit (suc fuel) children id descent = visit_each (visit fuel children) (listed children id) descent

unfoldable pub collect_article_descendants :
    List DocumentSummary → String → Option (List DocumentSummary)
collect_article_descendants documents parent_id =
    elim (visit (suc (length documents)) (children_by_parent documents []) parent_id
      (record { visited = parent_id ∷ []; descendants = [] })) [
        | none ↦ none
        | some descent ↦ some (descent.descendants)
      ]
