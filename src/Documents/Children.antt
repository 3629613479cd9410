-- ===== src/Documents/Children.antt =====
-- The lists of children that `collectArticleDescendants` of src/models/documents/documentTree.ts
-- fills: they hold documents of the list only, and every article under its parent.
use mathlib.Core.Path.{subst}
use my_note_book.Base.{
  sym, eq_refl, eq_of_true, ◌==◌, String, Bool, true, false, ◌||◌, Option, none, some, List, [],
  ◌∷◌, ◌++◌, arith, if◌then◌else◌, Entries, lookup, has, ◌≡◌, ◌⊎◌, refl, Bool-cases, All,
  lookup-insert, All-append, inl, inr,
}
use my_note_book.Documents.Defs.{DocumentSummary}
use my_note_book.Documents.Tree.{is_article, listed, push_at, some_with_id, children_by_parent}

pub some_with_id-append :
    (k : String) (d : DocumentSummary) (ds : List DocumentSummary)
    → some_with_id k (ds ++ d ∷ []) ≡ (d.id == k || some_with_id k ds)
unfolding some_with_id has
some_with_id-append k d [] = refl
some_with_id-append k d (e ∷ ds) = ground (arith, some_with_id-append k d ds)

abbrev pub IsKnown : List DocumentSummary → Entries (List DocumentSummary) → Type 0
IsKnown universe lists =
    (id : String) → All (λ d. some_with_id d.id universe ≡ true) (listed lists id)

-- Every article whose parent is `id` is in the list at `id`, under its own id.
abbrev pub AreListed : List DocumentSummary → Entries (List DocumentSummary) → Type 0
AreListed documents lists =
    All
      (λ d.
        (id : String)
        → is_article d ≡ true
        → d.parent_id ≡ some id
        → some_with_id d.id (listed lists id) ≡ true)
      documents

listed-push_at :
    (id other : String) (d : DocumentSummary) (lists : Entries (List DocumentSummary))
    → listed (push_at id d lists) other
      ≡ (if id == other then listed lists id ++ d ∷ [] else listed lists other)
unfolding listed push_at
listed-push_at id other d lists =
    ground (arith, lookup-insert id other (listed lists id ++ d ∷ []) lists)

pub nothing-IsKnown : (universe : List DocumentSummary) → IsKnown universe []
unfolding listed lookup
nothing-IsKnown universe id = tt

push_at-IsKnown :
    (universe : List DocumentSummary) (id : String) (d : DocumentSummary)
    (lists : Entries (List DocumentSummary))
    → some_with_id d.id universe ≡ true
    → IsKnown universe lists
    → IsKnown universe (push_at id d lists)
push_at-IsKnown universe id d lists here known other =
    subst (λ ds. All (λ e. some_with_id e.id universe ≡ true) ds)
      (sym (listed-push_at id other d lists)) (by_key (id == other))
  where
    by_key :
        (same : Bool)
        → All
            (λ e. some_with_id e.id universe ≡ true)
            (if same then listed lists id ++ d ∷ [] else listed lists other)
    by_key true =
        All-append (λ e. some_with_id e.id universe ≡ true) (listed lists id) (d ∷ []) (known id)
          (here, tt)
    by_key false = known other

listing-IsKnown :
    (universe : List DocumentSummary) (d : DocumentSummary) (lists : Entries (List DocumentSummary))
    (wanted : Bool) (at : Option String)
    → some_with_id d.id universe ≡ true
    → IsKnown universe lists
    → IsKnown universe
        (if wanted then elim at [ none ↦ lists | some id ↦ push_at id d lists ] else lists)
listing-IsKnown universe d lists true none here known = known
listing-IsKnown universe d lists true (some id) here known =
    push_at-IsKnown universe id d lists here known
listing-IsKnown universe d lists false at here known = known

pub children_by_parent-IsKnown :
    (universe documents : List DocumentSummary) (lists : Entries (List DocumentSummary))
    → All (λ d. some_with_id d.id universe ≡ true) documents
    → IsKnown universe lists
    → IsKnown universe (children_by_parent documents lists)
unfolding children_by_parent
children_by_parent-IsKnown universe [] lists all known = known
children_by_parent-IsKnown universe (d ∷ documents) lists (here, all) known =
    children_by_parent-IsKnown universe documents
      (if is_article d
        then elim d.parent_id [ none ↦ lists | some id ↦ push_at id d lists ]
        else lists)
      all (listing-IsKnown universe d lists (is_article d) d.parent_id here known)

pub every_document_known :
    (universe documents : List DocumentSummary)
    → ((k : String) → some_with_id k documents ≡ true → some_with_id k universe ≡ true)
    → All (λ d. some_with_id d.id universe ≡ true) documents
unfolding some_with_id has
every_document_known universe [] inside = tt
every_document_known universe (d ∷ documents) inside = (
  inside d.id (ground (arith, eq_refl d.id)),
  every_document_known universe documents (λ k h. inside k (ground (arith, h))),
)

push_at-kept :
    (k id other : String) (d : DocumentSummary) (lists : Entries (List DocumentSummary))
    → some_with_id k (listed lists id) ≡ true
    → some_with_id k (listed (push_at other d lists) id) ≡ true
push_at-kept k id other d lists h =
    rw (listed-push_at other id d lists) (by_key (Bool-cases (other == id)))
  where
    by_key :
        ((other == id) ≡ true) ⊎ ((other == id) ≡ false)
        → some_with_id k (if other == id then listed lists other ++ d ∷ [] else listed lists id)
          ≡ true
    by_key (inr e) = rw e h
    by_key (inl e) =
        rw (e, some_with_id-append k d (listed lists other), eq_of_true other id e)
          (ground (arith, h))

listing-kept :
    (k id : String) (d : DocumentSummary) (lists : Entries (List DocumentSummary)) (wanted : Bool)
    (at : Option String)
    → some_with_id k (listed lists id) ≡ true
    → some_with_id k (
        listed
          (if wanted then elim at [ none ↦ lists | some other ↦ push_at other d lists ] else lists)
          id)
      ≡ true
listing-kept k id d lists true none h = h
listing-kept k id d lists true (some other) h = push_at-kept k id other d lists h
listing-kept k id d lists false at h = h

children_by_parent-kept :
    (documents : List DocumentSummary) (lists : Entries (List DocumentSummary)) (k id : String)
    → some_with_id k (listed lists id) ≡ true
    → some_with_id k (listed (children_by_parent documents lists) id) ≡ true
unfolding children_by_parent
children_by_parent-kept [] lists k id h = h
children_by_parent-kept (d ∷ documents) lists k id h =
    children_by_parent-kept documents
      (if is_article d
        then elim d.parent_id [ none ↦ lists | some other ↦ push_at other d lists ]
        else lists)
      k id (listing-kept k id d lists (is_article d) d.parent_id h)

push_at-here :
    (id : String) (d : DocumentSummary) (lists : Entries (List DocumentSummary))
    → some_with_id d.id (listed (push_at id d lists) id) ≡ true
push_at-here id d lists =
    rw
      (
        listed-push_at id id d lists,
        eq_refl id,
        some_with_id-append d.id d (listed lists id),
        eq_refl d.id,
      )
      refl

pub children_by_parent-AreListed :
    (documents : List DocumentSummary) (lists : Entries (List DocumentSummary))
    → AreListed documents (children_by_parent documents lists)
unfolding children_by_parent
children_by_parent-AreListed [] lists = tt
children_by_parent-AreListed (d ∷ documents) lists = (
  λ id wanted up.
      children_by_parent-kept documents
        (if is_article d
          then elim d.parent_id [ none ↦ lists | some other ↦ push_at other d lists ]
          else lists)
        d.id id (rw (wanted, up) (push_at-here id d lists)),
  children_by_parent-AreListed documents (
      if is_article d
      then elim d.parent_id [ none ↦ lists | some other ↦ push_at other d lists ]
      else lists),
)
