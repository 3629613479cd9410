-- ===== src/Documents/Descendants.antt =====
-- `collectArticleDescendants` of src/models/documents/documentTree.ts: the visit ends, and what it
-- has visited is closed under "a child of".
use mathlib.Core.Path.{subst}
use my_note_book.Base.{
  eq_refl, eq_of_true, ◌==◌, ℕ, zero, suc, ◌<◌, ◌≤◌, String, true, false, ◌||◌, Option, some, List,
  [], ◌∷◌, ◌++◌, arith, length, if◌then◌else◌, Entries, has, add, has-add, eq_iff, ◌≡◌, ◌⊎◌, refl,
  Bool-cases, All, inl, inr,
}
use my_note_book.Documents.Defs.{DocumentSummary}
use my_note_book.Documents.Tree.{
  is_article, listed, some_with_id, children_by_parent, Descent, visit, visit_each,
  collect_article_descendants,
}
use my_note_book.Documents.Children.{
  IsKnown, AreListed, nothing-IsKnown, children_by_parent-IsKnown, every_document_known,
  children_by_parent-AreListed, some_with_id-append,
}

-- The documents of a list that are not visited yet.
unfoldable left : List DocumentSummary → List String → ℕ
left [] visited = 0
left (d ∷ ds) visited = let rest = left ds visited in if has d.id visited then rest else suc rest

left_bound : (ds : List DocumentSummary) (visited : List String) → left ds visited ≤ length ds
unfolding left
left_bound [] visited = omega arith
left_bound (d ∷ ds) visited = ground (arith, left_bound ds visited)

abbrev Grows : List String → List String → Type 0
Grows before after = (k : String) → has k before ≡ true → has k after ≡ true

left_le :
    (ds : List DocumentSummary) (before after : List String)
    → Grows before after
    → left ds after ≤ left ds before
unfolding left
left_le [] before after grows = omega arith
left_le (d ∷ ds) before after grows =
    let here = grows d.id in ground (arith, left_le ds before after grows, here)

add-Grows : (id : String) (visited : List String) → Grows visited (add id visited)
add-Grows id visited k h = ground (arith, has-add id k visited, h)

left-add_lt :
    (ds : List DocumentSummary) (id : String) (visited : List String)
    → has id visited ≡ false
    → some_with_id id ds ≡ true
    → left ds (add id visited) < left ds visited
unfolding left some_with_id has
left-add_lt [] id visited new h = ground (arith, h)
left-add_lt (d ∷ ds) id visited new h = ground (
  arith,
  has-add id d.id visited,
  left_le ds visited (add id visited) (add-Grows id visited),
  left-add_lt ds id visited new,
  eq_iff d.id id,
  eq_iff id d.id,
  same_key d.id,
)
  where
    same_key : (key : String) → key ≡ id → has key visited ≡ false
    same_key key e = rw e new

has-add_self : (id : String) (visited : List String) → has id (add id visited) ≡ true
has-add_self id visited = ground (arith, has-add id id visited, eq_refl id)

abbrev AreVisited : List String → List DocumentSummary → Type 0
AreVisited visited ds = All (λ d. has d.id visited ≡ true) ds

AreVisited-grow :
    (before after : List String) (ds : List DocumentSummary)
    → Grows before after
    → AreVisited before ds
    → AreVisited after ds
AreVisited-grow before after [] grows h = tt
AreVisited-grow before after (d ∷ ds) grows (e, h) =
    (grows d.id e, AreVisited-grow before after ds grows h)

visit_each_new :
    (visiting : String → Descent → Option Descent) (d : DocumentSummary) (ds : List DocumentSummary)
    (s t u : Descent)
    → has d.id s.visited ≡ false
    → visiting d.id (record { visited = add d.id s.visited; descendants = s.descendants ++ d ∷ [] })
      ≡ some t
    → visit_each visiting ds t ≡ some u
    → visit_each visiting (d ∷ ds) s ≡ some u
unfolding visit_each
visit_each_new visiting d ds s t u new below rest = ground (arith, new, below, rest)

module _ (parent_id : String) where
  -- Visited are the document at which the visit began and its descendants so far.
  abbrev IsMatched : Descent → Type 0
  IsMatched s = (k : String) → has k s.visited ≡ (parent_id == k || some_with_id k s.descendants)

  entered-IsMatched :
      (d : DocumentSummary) (s : Descent)
      → IsMatched s
      → IsMatched (record { visited = add d.id s.visited; descendants = s.descendants ++ d ∷ [] })
  entered-IsMatched d s same k =
      ground (arith, same k, has-add d.id k s.visited, some_with_id-append k d s.descendants)

module _ (parent_id : String) (universe : List DocumentSummary)
    (children : Entries (List DocumentSummary)) where
  -- What a visit does: it forgets nothing, and visits the children of all that it visits.
  abbrev Closes : List String → List String → Type 0
  Closes before after =
      Grows before after
      × ((k : String)
          → has k after ≡ true
          → (has k before ≡ true) ⊎ AreVisited after (listed children k))

  Closes-trans :
      (first second third : List String)
      → Closes first second
      → Closes second third
      → Closes first third
  Closes-trans first second third (grows, closed) (grows', closed') = (
    λ k h. grows' k (grows k h),
    λ k h. elim (closed' k h) [
      | inr done ↦ inr done
      | inl old ↦ elim (closed k old) [
        | inl older ↦ inl older
        | inr done ↦ inr (AreVisited-grow second third (listed children k) grows' done)
      ]
    ],
  )

  entered-Closes :
      (id : String) (before after : List String)
      → Closes (add id before) after
      → AreVisited after (listed children id)
      → Closes before after
  entered-Closes id before after (grows, closed) below = (
    λ k h. grows k (add-Grows id before k h),
    λ k h. elim (closed k h) [
      | inr done ↦ inr done
      | inl old ↦ elim (Bool-cases (id == k)) [
        | inl same ↦
            inr (subst (λ key. AreVisited after (listed children key)) (eq_of_true id k same) below)
        | inr differs ↦ inl (ground (arith, has-add id k before, old, differs))
      ]
    ],
  )

  abbrev IsVisiting : ℕ → (String → Descent → Option Descent) → Type 0
  IsVisiting fuel visiting =
      (id : String) (s : Descent)
      → left universe s.visited < fuel
      → (t : Descent) × (visiting id s ≡ some t)
        × Closes s.visited t.visited
        × AreVisited t.visited (listed children id)
        × (IsMatched parent_id s → IsMatched parent_id t)

  visit_each_lem :
      (fuel : ℕ) (visiting : String → Descent → Option Descent)
      → IsVisiting fuel visiting
      → (ds : List DocumentSummary) (s : Descent) → All (λ d. some_with_id d.id universe ≡ true) ds
      → left universe s.visited ≤ fuel
      → (t : Descent) × (visit_each visiting ds s ≡ some t)
        × Closes s.visited t.visited
        × AreVisited t.visited ds
        × (IsMatched parent_id s → IsMatched parent_id t)
  unfolding visit_each
  visit_each_lem fuel visiting visits [] s known enough =
      (s, refl, ((λ k h. h), (λ k h. inl h)), tt, λ same. same)
  visit_each_lem fuel visiting visits (d ∷ ds) s (here, known) enough =
      elim (Bool-cases (has d.id s.visited)) [
        | inl old ↦
            let rest = visit_each_lem fuel visiting visits ds s known enough in
            (rest.0, ground (arith, old, rest.1), rest.2, (rest.2.0 d.id old, rest.3), rest.4)
        | inr new ↦
            let entered : Descent = record {
              visited = add d.id s.visited;
              descendants = s.descendants ++ d ∷ [];
            } in
            let below =
              visits d.id entered
                (omega (arith, enough, left-add_lt universe d.id s.visited new here)) in
            let rest = visit_each_lem fuel visiting visits ds below.0 known (
              omega (
                arith,
                enough,
                left_le universe s.visited below.0.visited
                    (λ k h. below.2.0 k (add-Grows d.id s.visited k h)),
              )) in
            (
              rest.0,
              visit_each_new visiting d ds s below.0 rest.0 new below.1 rest.1,
              Closes-trans s.visited below.0.visited rest.0.visited
                  (entered-Closes d.id s.visited below.0.visited below.2 below.3) rest.2,
              (rest.2.0 d.id (below.2.0 d.id (has-add_self d.id s.visited)), rest.3),
              λ same. rest.4 (below.4 (entered-IsMatched parent_id d s same)),
            )
      ]

  visit_lem :
      ((id : String) → All (λ d. some_with_id d.id universe ≡ true) (listed children id))
      → (fuel : ℕ) → IsVisiting fuel (visit fuel children)
  unfolding visit
  visit_lem known zero id s enough = absurd (omega (arith, enough))
  visit_lem known (suc fuel) id s enough =
      visit_each_lem fuel (visit fuel children) (visit_lem known fuel) (listed children id) s
        (known id) (omega (arith, enough))

AreVisited-at :
    (visited : List String) (ds : List DocumentSummary) (k : String)
    → AreVisited visited ds
    → some_with_id k ds ≡ true
    → has k visited ≡ true
unfolding some_with_id has
AreVisited-at visited [] k all h = ground (arith, h)
AreVisited-at visited (d ∷ ds) k (here, all) h = elim (Bool-cases (d.id == k)) [
  | inl same ↦ subst (λ key. has key visited ≡ true) (eq_of_true d.id k same) here
  | inr differs ↦ AreVisited-at visited ds k all (ground (arith, h, differs))
]

-- Below the document at which the collecting begins, or below a descendant, are only descendants.
abbrev pub AreClosed : List DocumentSummary → String → List DocumentSummary → Type 0
AreClosed documents parent_id descendants =
    All
      (λ d.
        (id : String)
        → is_article d ≡ true
        → d.parent_id ≡ some id
        → (parent_id == id || some_with_id id descendants) ≡ true
        → (parent_id == d.id || some_with_id d.id descendants) ≡ true)
      documents

closing :
    (lists : Entries (List DocumentSummary)) (parent_id : String) (t : Descent)
    → ((k : String) → has k t.visited ≡ true → AreVisited t.visited (listed lists k))
    → IsMatched parent_id t
    → (documents : List DocumentSummary) → AreListed documents lists
    → AreClosed documents parent_id t.descendants
closing lists parent_id t closed same [] all = tt
closing lists parent_id t closed same (d ∷ documents) (here, all) = (
  λ id wanted up above. rw (← same d.id) (
      AreVisited-at t.visited (listed lists id) d.id (closed id (rw (same id) above))
        (here id wanted up)),
  closing lists parent_id t closed same documents all,
)

start-IsMatched :
    (parent_id : String)
    → IsMatched parent_id (record { visited = parent_id ∷ []; descendants = [] })
unfolding some_with_id has
start-IsMatched parent_id k = refl

-- Collecting the descendants of a document ends. Every article whose parent is that document or one
-- of the collected articles is collected, or is that document itself, also where links form cycles.
pub collect_article_descendants-AreClosed :
    (documents : List DocumentSummary) (parent_id : String)
    → (descendants : List DocumentSummary) × (collect_article_descendants documents parent_id
        ≡ some descendants)
      × AreClosed documents parent_id descendants
unfolding collect_article_descendants has
collect_article_descendants-AreClosed documents parent_id = (
  found.0.descendants,
  ground (arith, found.1),
  closing lists parent_id found.0 closed (found.4 (start-IsMatched parent_id)) documents
      (children_by_parent-AreListed documents []),
)
  where
    lists : Entries (List DocumentSummary)
    lists = children_by_parent documents []

    start : Descent
    start = record { visited = parent_id ∷ []; descendants = [] }

    known : IsKnown documents lists
    known =
        children_by_parent-IsKnown documents documents []
          (every_document_known documents documents (λ k h. h)) (nothing-IsKnown documents)

    found :
        (t : Descent) × (visit (suc (length documents)) lists parent_id start ≡ some t)
        × Closes parent_id documents lists start.visited t.visited
        × AreVisited t.visited (listed lists parent_id)
        × (IsMatched parent_id start → IsMatched parent_id t)
    found =
        visit_lem parent_id documents lists known (suc (length documents)) parent_id start
          (omega (arith, left_bound documents start.visited))

    closed :
        (k : String) → has k found.0.visited ≡ true → AreVisited found.0.visited (listed lists k)
    closed k h = elim (found.2.1 k h) [
      | inl old ↦
          subst (λ key. AreVisited found.0.visited (listed lists key))
            (eq_of_true parent_id k (ground (arith, old))) found.3
      | inr done ↦ done
    ]
