-- ===== src/Documents/Filed.antt =====
-- The sidebar's forest in src/models/documents/documentTree.ts: resolving the parent articles ends,
-- and every article is filed in exactly one list.
use my_note_book.Base.{
  map, not, ℕ, zero, suc, ◌+◌, ◌<◌, String, Bool, true, false, Option, none, some, List, [], ◌∷◌,
  ◌++◌, arith, length, keep, if◌then◌else◌, is_some, Entries, lookup, insert, has, add, ◌≡◌, refl,
  Bool-cases, Option-cases, inl, inr,
}
use my_note_book.Documents.Defs.{DocumentSummary}
use my_note_book.Documents.Tree.{truthy, is_article, listed, push_at}
use my_note_book.Documents.Walk.{unseen, unseen_bound, unseen-add_lt}
use my_note_book.Documents.Forest.{
  walk_to_root, resolve_parent_article_id, by_id, parent_article_ids, Filing, file_article,
  file_articles, filing_of,
}

walk_to_root-some :
    (fuel : ℕ) (m : Entries DocumentSummary) (visited : List String) (cursor : String)
    → unseen visited m < fuel
    → (reached : Bool) × (walk_to_root fuel m visited cursor ≡ some reached)
unfolding walk_to_root
walk_to_root-some zero m visited cursor enough = absurd (omega (arith, enough))
walk_to_root-some (suc fuel) m visited cursor enough = elim (Bool-cases (has cursor visited)) [
  | inl old ↦ (false, ground (arith, old))
  | inr new ↦ elim (Option-cases (lookup cursor m)) [
    | inl missing ↦ (true, ground (arith, new, missing))
    | inr (d, hit) ↦ elim (Option-cases (truthy d.parent_id)) [
      | inl top ↦ (true, ground (arith, new, hit, top))
      | inr (id, up) ↦ elim (Bool-cases (is_some (lookup id m))) [
        | inl above ↦
            let next =
              walk_to_root-some fuel m (add cursor visited) id
                (omega (arith, enough, unseen-add_lt cursor visited m d new hit)) in
            (next.0, ground (arith, new, hit, up, above, next.1))
        | inr absent ↦ (true, ground (arith, new, hit, up, absent))
      ]
    ]
  ]
]

resolve_parent_article_id-some :
    (d : DocumentSummary) (m : Entries DocumentSummary)
    → (id : Option String) × (resolve_parent_article_id d m ≡ some id)
unfolding resolve_parent_article_id
resolve_parent_article_id-some d m = elim (Option-cases (truthy d.parent_id)) [
  | inl top ↦ (none, ground (arith, top))
  | inr (id, up) ↦ elim (Bool-cases (is_some (lookup id m))) [
    | inl above ↦
        let walk =
          walk_to_root-some (suc (length m)) m (d.id ∷ []) id
            (omega (arith, unseen_bound (d.id ∷ []) m)) in
        ((if walk.0 then some id else none), ground (arith, up, above, walk.1))
    | inr absent ↦ (none, ground (arith, up, absent))
  ]
]

parent_article_ids-some :
    (m : Entries DocumentSummary) (documents : List DocumentSummary)
    (before : Entries (Option String))
    → (ids : Entries (Option String)) × (parent_article_ids m documents before ≡ some ids)
unfolding parent_article_ids
parent_article_ids-some m [] before = (before, refl)
parent_article_ids-some m (d ∷ documents) before =
    let found = resolve_parent_article_id-some d m in
    let rest = parent_article_ids-some m documents (insert d.id found.0 before) in
    (rest.0, ground (arith, found.1, rest.1))

-- How many documents of a list pass a test, and how many of the lists of a map.
module _ (test : DocumentSummary → Bool) where
  unfoldable pub count : List DocumentSummary → ℕ
  count [] = 0
  count (d ∷ ds) = let rest = count ds in if test d then suc rest else rest

  unfoldable pub total : Entries (List DocumentSummary) → ℕ
  total [] = 0
  total (entry ∷ lists) = count entry.1 + total lists

  unfoldable pub filed : Filing → ℕ
  filed filing =
      count filing.root_articles
      + total filing.children_by_parent
      + total filing.root_articles_by_group

  count-nil : count [] ≡ 0
  unfolding count
  count-nil = refl

  count-append : (ds es : List DocumentSummary) → count (ds ++ es) ≡ count ds + count es
  unfolding count
  count-append [] es = omega arith
  count-append (d ∷ ds) es = ground (arith, count-append ds es)

  total-insert :
      (id : String) (ds : List DocumentSummary) (lists : Entries (List DocumentSummary))
      → total (insert id ds lists) + count (listed lists id) ≡ total lists + count ds
  unfolding total insert listed lookup count
  total-insert id ds [] = omega arith
  total-insert id ds (entry ∷ lists) = ground (arith, total-insert id ds lists)

  total-push_at :
      (id : String) (d : DocumentSummary) (lists : Entries (List DocumentSummary))
      → total (push_at id d lists) ≡ total lists + count (d ∷ [])
  unfolding push_at
  total-push_at id d lists = omega (
    arith,
    total-insert id (listed lists id ++ d ∷ []) lists,
    count-append (listed lists id) (d ∷ []),
  )

  filed-empty :
      filed (record { children_by_parent = []; root_articles = []; root_articles_by_group = [] })
      ≡ 0
  unfolding filed count total
  filed-empty = refl

  filed-file_article :
      (ids : Entries (Option String)) (groups : List String) (d : DocumentSummary) (filing : Filing)
      → filed (file_article ids groups d filing) ≡ filed filing + count (d ∷ [])
  unfolding file_article filed
  filed-file_article ids groups d filing =
      elim (Option-cases (truthy (elim (lookup d.id ids) [ none ↦ none | some id ↦ id ]))) [
        | inr (id, child) ↦ ground (arith, child, total-push_at id d filing.children_by_parent)
        | inl top ↦ elim (Option-cases (truthy d.parent_id)) [
          | inl loose ↦ ground (arith, top, loose, count-append filing.root_articles (d ∷ []))
          | inr (id, grouped) ↦ ground (
            arith,
            top,
            grouped,
            count-append filing.root_articles (d ∷ []),
            total-push_at id d filing.root_articles_by_group,
          )
        ]
      ]

  filed-file_articles :
      (ids : Entries (Option String)) (groups : List String) (ds : List DocumentSummary)
      (filing : Filing)
      → filed (file_articles ids groups ds filing) ≡ filed filing + count ds
  unfolding file_articles
  filed-file_articles ids groups [] filing = omega (arith, count-nil)
  filed-file_articles ids groups (d ∷ ds) filing = omega (
    arith,
    filed-file_articles ids groups ds (file_article ids groups d filing),
    filed-file_article ids groups d filing,
    count-append (d ∷ []) ds,
  )

-- Filing the documents for the sidebar always ends, and of the documents that pass any test there
-- are as many in the filed lists (the root's, the groups' and the articles' own) together as there
-- are articles among the documents: no article is lost and none is listed twice.
pub filing_of-filed :
    (documents : List DocumentSummary)
    → (filing : Filing) × (filing_of documents ≡ some filing)
      × ((test : DocumentSummary → Bool)
          → filed test filing ≡ count test (keep is_article documents))
unfolding filing_of
filing_of-filed documents = (
  file_articles ids.0 groups articles nothing,
  ground (arith, ids.1),
  λ test. omega (arith, filed-file_articles test ids.0 groups articles nothing, filed-empty test),
)
  where
    articles : List DocumentSummary
    articles = keep is_article documents

    groups : List String
    groups = map (λ document. document.id) (keep (λ document. not (is_article document)) documents)

    nothing : Filing
    nothing = record { children_by_parent = []; root_articles = []; root_articles_by_group = [] }

    ids :
        (ids : Entries (Option String)) × (parent_article_ids (by_id articles []) articles []
          ≡ some ids)
    ids = parent_article_ids-some (by_id articles []) articles []
