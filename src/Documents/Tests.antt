-- ===== src/Documents/Tests.antt =====
-- The document tree on two documents that are each other's parent and one below them.
use my_note_book.Base.{
  keep, has, add, insert, String, Bool, true, false, none, some, List, [], ◌∷◌, lookup, Entries,
  arith, eq_iff, ◌≡◌, ◌≢◌, ◌↔◌, refl,
}
use my_note_book.Documents.Defs.{DocumentSummary, article}
use my_note_book.Documents.Tree.{
  visit, visit_each, listed, children_by_parent, is_article, push_at, truthy,
  collect_document_ancestors, is_document_descendant_of, collect_article_descendants,
  ancestors_from,
}
use my_note_book.Documents.Ancestors.{IsAbove, is_document_descendant_of-IsAbove}
use my_note_book.Documents.Walk.{IsKeyed}
use my_note_book.Documents.Forest.{Filing, filing_of}
use my_note_book.Documents.Filed.{count, filed, filing_of-filed}
use my_note_book.Documents.Descendants.{AreClosed, collect_article_descendants-AreClosed}
use my_note_book.Documents.Chain.{IsWayUp, IsDistinct, collect_document_ancestors-IsWayUp}

abbrev an_article : String → String → DocumentSummary
an_article id parent = record {
  id = id;
  parent_id = some parent;
  document_kind = article;
  title = id;
  tags = [];
  source_url = "";
  author = "";
  description = "";
  plain_text = "";
  character_count = none;
  revision = 1;
  sort_order = 0;
  is_deleted = false;
  created_at = 0;
  updated_at = 0;
}

abbrev entry_a : DocumentSummary
entry_a = an_article "a" "b"

abbrev entry_b : DocumentSummary
entry_b = an_article "b" "a"

abbrev leaf : DocumentSummary
leaf = an_article "c" "a"

abbrev entries : Entries DocumentSummary
entries = ("a", entry_a) ∷ ("b", entry_b) ∷ ("c", leaf) ∷ []

entries-IsKeyed : IsKeyed entries
unfolding lookup
entries-IsKeyed id d h = ground (arith, h, eq_iff "a" id, eq_iff "b" id, eq_iff "c" id)

is_document_descendant_of-IsAbove_example :
    (answer : Bool) × (is_document_descendant_of leaf "b" entries ≡ some answer)
    × ((answer ≡ true) ↔ (leaf.id ≢ "b") × IsAbove entries leaf.parent_id "b")
unfolding lookup
is_document_descendant_of-IsAbove_example =
    is_document_descendant_of-IsAbove leaf "b" entries entries-IsKeyed refl

collect_document_ancestors-IsWayUp_example :
    (ds : List DocumentSummary) × (collect_document_ancestors leaf entries ≡ some ds)
    × IsWayUp entries leaf.parent_id ds
    × IsDistinct (leaf ∷ ds)
collect_document_ancestors-IsWayUp_example =
    collect_document_ancestors-IsWayUp leaf entries entries-IsKeyed

filing_of-filed_example :
    (filing : Filing) × (filing_of (entry_a ∷ entry_b ∷ leaf ∷ []) ≡ some filing)
    × ((test : DocumentSummary → Bool)
        → filed test filing ≡ count test (keep is_article (entry_a ∷ entry_b ∷ leaf ∷ [])))
filing_of-filed_example = filing_of-filed (entry_a ∷ entry_b ∷ leaf ∷ [])

collect_article_descendants-AreClosed_example :
    (descendants : List DocumentSummary) × (collect_article_descendants
        (entry_a ∷ entry_b ∷ leaf ∷ [])
        "a"
      ≡ some descendants)
    × AreClosed (entry_a ∷ entry_b ∷ leaf ∷ []) "a" descendants
collect_article_descendants-AreClosed_example =
    collect_article_descendants-AreClosed (entry_a ∷ entry_b ∷ leaf ∷ []) "a"

ancestors_in_cycle : collect_document_ancestors leaf entries ≡ some (entry_a ∷ entry_b ∷ [])
unfolding collect_document_ancestors ancestors_from truthy has lookup add
ancestors_in_cycle = refl

descendants_in_cycle :
    collect_article_descendants (entry_a ∷ entry_b ∷ leaf ∷ []) "a" ≡ some (entry_b ∷ leaf ∷ [])
unfolding collect_article_descendants visit visit_each listed lookup children_by_parent is_article
    push_at insert has add
descendants_in_cycle = refl
