-- ===== src/Documents/Ancestors.antt =====
-- `collectDocumentAncestors` and `isDocumentDescendantOf` of src/models/documents/documentTree.ts
-- against the relation "is above", for any map of documents, cyclic ones included.
use my_note_book.Base.{
  String, Bool, true, ◌||◌, Option, some, List, [], ◌∷◌, ◌==◌, arith, Entries, lookup, has, add,
  has-add, eq_iff, ◌≡◌, ◌≢◌, ◌↔◌, ◌⊎◌, inl, inr, Bool-cases, eq_of_true,
}
use my_note_book.Documents.Defs.{DocumentSummary}
use my_note_book.Documents.Tree.{truthy, some_with_id, is_document_descendant_of}
use my_note_book.Documents.Walk.{
  IsKeyed, Ancestry, Ancestry-new, same_id, collect_document_ancestors_lem,
}

module _ (m : Entries DocumentSummary) where
  -- Above a parent id stand the documents on the way up from it.
  pub data IsAbove : Option String → String → Type 0 where
    parent_above :
        (p : Option String) (id : String) (d : DocumentSummary)
        → truthy p ≡ some id
        → lookup id m ≡ some d
        → IsAbove p id
    further_above :
        (p : Option String) (id k : String) (d : DocumentSummary)
        → truthy p ≡ some id
        → lookup id m ≡ some d
        → IsAbove (d.parent_id) k
        → IsAbove p k

  Ancestry-IsAbove :
      IsKeyed m
      → (seen : List String) (p : Option String) (ds : List DocumentSummary) (k : String)
      → Ancestry m seen p ds
      → some_with_id k ds ≡ true
      → IsAbove p k
  unfolding some_with_id has
  Ancestry-IsAbove keyed seen p [] k way h = ground (arith, h)
  Ancestry-IsAbove keyed seen p (d ∷ ds) k (id, found, new, hit, rest) h =
      elim (Bool-cases (d.id == k)) [
        | inl e ↦ rw (← eq_of_true (d.id) k e, keyed id d hit) (parent_above p id d found hit)
        | inr e ↦
            further_above p id k d found hit
              (Ancestry-IsAbove keyed (add id seen) (d.parent_id) ds k rest (ground (arith, e, h)))
      ]

  Ancestry-start :
      IsKeyed m
      → (seen : List String) (p : Option String) (ds : List DocumentSummary) → Ancestry m seen p ds
      → (id : String) (e : DocumentSummary) → truthy p ≡ some id
      → lookup id m ≡ some e
      → (has id seen || some_with_id id ds) ≡ true
  unfolding some_with_id has
  Ancestry-start keyed seen p [] way id e at found = elim (way id at) [
    | inl old ↦ ground (arith, old)
    | inr missing ↦ ground (arith, missing, found)
  ]
  Ancestry-start keyed seen p (d ∷ ds) (other, at_other, new, hit, rest) id e at found =
      ground (arith, same_id (truthy p) id other at at_other, keyed other d hit, eq_iff (d.id) id)

  -- The documents that the walk has met are closed under "the parent of", but for its own cursor.
  abbrev IsOpenAt : List String → Option String → Type 0
  IsOpenAt seen p =
      (k id : String) (d e : DocumentSummary)
      → has k seen ≡ true
      → lookup k m ≡ some d
      → truthy (d.parent_id) ≡ some id
      → lookup id m ≡ some e
      → (has id seen ≡ true) ⊎ (truthy p ≡ some id)

  add-IsOpenAt :
      (seen : List String) (p : Option String) (other : String) (d : DocumentSummary)
      → truthy p ≡ some other
      → lookup other m ≡ some d
      → IsOpenAt seen p
      → IsOpenAt (add other seen) (d.parent_id)
  add-IsOpenAt seen p other d at hit is_open k id d' e met found up above =
      elim (Bool-cases (other == k)) [
        | inl same ↦ inr (moved (eq_of_true other k same))
        | inr differs ↦
            elim (is_open k id d' e (ground (arith, met, differs, has-add other k seen)) found up
              above) [
                | inl old ↦ inl (ground (arith, old, has-add other id seen))
                | inr next ↦ inl (
                    ground (
                      arith,
                      has-add other id seen,
                      same_id (truthy p) other id at next,
                      eq_iff other id,
                    ))
              ]
      ]
    where
      same_document : some d ≡ some d' → d ≡ d'
      same_document h = cc h

      moved : other ≡ k → truthy (d.parent_id) ≡ some id
      moved same = rw (same_document (cc (same, hit, found))) up

  Ancestry-closed :
      IsKeyed m
      → (seen : List String) (p : Option String) (ds : List DocumentSummary) → Ancestry m seen p ds
      → IsOpenAt seen p
      → (k id : String) (d e : DocumentSummary) → (has k seen || some_with_id k ds) ≡ true
      → lookup k m ≡ some d
      → truthy (d.parent_id) ≡ some id
      → lookup id m ≡ some e
      → (has id seen || some_with_id id ds) ≡ true
  unfolding some_with_id has
  Ancestry-closed keyed seen p [] way is_open k id d e met found up above =
      elim (is_open k id d e (ground (arith, met)) found up above) [
        | inl old ↦ ground (arith, old)
        | inr next ↦ Ancestry-start keyed seen p [] way id e next above
      ]
  Ancestry-closed keyed seen p (d' ∷ ds) (other, at, new, hit, rest) is_open k id d e met found up
        above =
      ground (
        arith,
        met,
        has-add other k seen,
        has-add other id seen,
        keyed other d' hit,
        eq_iff (d'.id) k,
        eq_iff (d'.id) id,
        eq_iff other k,
        eq_iff other id,
        Ancestry-closed keyed (add other seen) (d'.parent_id) ds rest
            (add-IsOpenAt seen p other d' at hit is_open) k id d e,
      )

  -- What is above a document that the walk has met, it has met.
  IsAbove-met :
      IsKeyed m
      → (seen : List String) (p : Option String) (ds : List DocumentSummary) → Ancestry m seen p ds
      → IsOpenAt seen p
      → (q : Option String) (k : String)
      → ((id : String) (e : DocumentSummary)
          → truthy q ≡ some id
          → lookup id m ≡ some e
          → (has id seen || some_with_id id ds) ≡ true)
      → IsAbove q k
      → (has k seen || some_with_id k ds) ≡ true
  IsAbove-met keyed seen p ds way is_open _ _ start (parent_above q k d at hit) = start k d at hit
  IsAbove-met keyed seen p ds way is_open _ _ start (further_above q id k d at hit above) =
      IsAbove-met keyed seen p ds way is_open (d.parent_id) k
        (λ next e at_next found.
          Ancestry-closed keyed seen p ds way is_open id next d e (start id d at hit) hit at_next
            found)
        above

ancestors_from_none_seen :
    (document : DocumentSummary) (m : Entries DocumentSummary)
    → lookup (document.id) m ≡ some document
    → IsOpenAt m (document.id ∷ []) (document.parent_id)
unfolding has
ancestors_from_none_seen document m own k id d e met found up above =
    inr (same (cc (own, key, found)))
  where
    key : document.id ≡ k
    key = ground (arith, met, eq_iff (document.id) k)

    same_document : some document ≡ some d → document ≡ d
    same_document h = cc h

    same : some document ≡ some d → truthy (document.parent_id) ≡ some id
    same h = rw (same_document h) up

-- For a document of a map that files each document under its id, the test for a descendant ends,
-- also when the links form a cycle, and passes for exactly the ids, other than the document's own,
-- of the documents that stand above it.
pub is_document_descendant_of-IsAbove :
    (document : DocumentSummary) (ancestor_id : String) (m : Entries DocumentSummary)
    → IsKeyed m
    → lookup (document.id) m ≡ some document
    → (answer : Bool) × (is_document_descendant_of document ancestor_id m ≡ some answer)
      × ((answer ≡ true) ↔ (document.id ≢ ancestor_id) × IsAbove m (document.parent_id) ancestor_id)
unfolding is_document_descendant_of has
is_document_descendant_of-IsAbove document k m keyed own =
    let found = collect_document_ancestors_lem document m in
    (
      some_with_id k found.0,
      ground (arith, found.1),
      (
        λ pass. (
          λ same. ground (
            arith,
            Ancestry-new m keyed (document.id ∷ []) (document.parent_id) found.0 k found.2 pass,
            eq_iff (document.id) k,
            same,
          ),
          Ancestry-IsAbove m keyed (document.id ∷ []) (document.parent_id) found.0 k found.2 pass,
        ),
        λ (differs, above). ground (
          arith,
          eq_iff (document.id) k,
          differs,
          IsAbove-met m keyed (document.id ∷ []) (document.parent_id) found.0 found.2
              (ancestors_from_none_seen document m own) (document.parent_id) k
              (Ancestry-start m keyed (document.id ∷ []) (document.parent_id) found.0 found.2)
              above,
        ),
      ),
    )
