-- ===== src/Documents/Chain.antt =====
-- `collectDocumentAncestors` of src/models/documents/documentTree.ts: the list is a way up.
use mathlib.Core.Path.{subst}
use my_note_book.Base.{
  String, true, false, Option, some, List, [], ◌∷◌, arith, has, add, has-add, eq_iff, lookup,
  Entries, ◌≡◌, sym, Bool-cases, inl, inr,
}
use my_note_book.Documents.Defs.{DocumentSummary}
use my_note_book.Documents.Tree.{truthy, some_with_id, collect_document_ancestors}
use my_note_book.Documents.Walk.{IsKeyed, Ancestry, Ancestry-new, collect_document_ancestors_lem}

-- Each document is the one that the map has at its predecessor's parent id.
abbrev pub IsWayUp : Entries DocumentSummary → Option String → List DocumentSummary → Type 0
IsWayUp m p [] = Unit
IsWayUp m p (d ∷ ds) = (truthy p ≡ some d.id) × (lookup d.id m ≡ some d) × IsWayUp m d.parent_id ds

abbrev pub IsDistinct : List DocumentSummary → Type 0
IsDistinct [] = Unit
IsDistinct (d ∷ ds) = (some_with_id d.id ds ≡ false) × IsDistinct ds

module _ (m : Entries DocumentSummary) (keyed : IsKeyed m) where
  Ancestry-IsWayUp :
      (seen : List String) (p : Option String) (ds : List DocumentSummary)
      → Ancestry m seen p ds
      → IsWayUp m p ds
  Ancestry-IsWayUp seen p [] way = tt
  Ancestry-IsWayUp seen p (d ∷ ds) (id, at, new, hit, rest) = (
    rw (keyed id d hit) at,
    subst (λ key. lookup key m ≡ some d) (sym (keyed id d hit)) hit,
    Ancestry-IsWayUp (add id seen) d.parent_id ds rest,
  )

  not_met_again :
      (seen : List String) (p : Option String) (ds : List DocumentSummary) (k : String)
      → Ancestry m seen p ds
      → has k seen ≡ true
      → some_with_id k ds ≡ false
  not_met_again seen p ds k way met = elim (Bool-cases (some_with_id k ds)) [
    | inl again ↦ ground (arith, Ancestry-new m keyed seen p ds k way again, met)
    | inr absent ↦ absent
  ]

  Ancestry-IsDistinct :
      (seen : List String) (p : Option String) (ds : List DocumentSummary)
      → Ancestry m seen p ds
      → IsDistinct ds
  Ancestry-IsDistinct seen p [] way = tt
  Ancestry-IsDistinct seen p (d ∷ ds) (id, at, new, hit, rest) = (
    not_met_again (add id seen) d.parent_id ds d.id rest
        (ground (arith, has-add id d.id seen, keyed id d hit, eq_iff id d.id)),
    Ancestry-IsDistinct (add id seen) d.parent_id ds rest,
  )

-- In a map that files each document under its id, the walk up from any document ends; its list is a
-- way up along the parent ids, in which no id stands twice and the document's own does not stand.
pub collect_document_ancestors-IsWayUp :
    (document : DocumentSummary) (m : Entries DocumentSummary)
    → IsKeyed m
    → (ds : List DocumentSummary) × (collect_document_ancestors document m ≡ some ds)
      × IsWayUp m document.parent_id ds
      × IsDistinct (document ∷ ds)
unfolding has
collect_document_ancestors-IsWayUp document m keyed =
    let found = collect_document_ancestors_lem document m in
    (
      found.0,
      found.1,
      Ancestry-IsWayUp m keyed (document.id ∷ []) document.parent_id found.0 found.2,
      (
        not_met_again m keyed (document.id ∷ []) document.parent_id found.0 document.id found.2
            (ground (arith, eq_iff document.id document.id)),
        Ancestry-IsDistinct m keyed (document.id ∷ []) document.parent_id found.0 found.2,
      ),
    )
