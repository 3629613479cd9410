-- ===== src/Documents/Walk.antt =====
-- The `while` loop of `collectDocumentAncestors` in src/models/documents/documentTree.ts: it ends,
-- and what it appends.
use my_note_book.Base.{
  ℕ, zero, suc, ◌≤◌, ◌<◌, String, true, false, Option, none, some, List, [], ◌∷◌, ◌++◌, ◌==◌,
  append_assoc, append-nil, arith, length, if◌then◌else◌, Entries, lookup, has, add, has-add,
  eq_iff, ◌≡◌, ◌⊎◌, inl, inr, Bool-cases, Option-cases, eq_of_true,
}
use my_note_book.Documents.Defs.{DocumentSummary}
use my_note_book.Documents.Tree.{truthy, ancestors_from, collect_document_ancestors, some_with_id}

-- The entries whose keys the walk has not visited.
unfoldable pub unseen : List String → Entries DocumentSummary → ℕ
unseen visited [] = 0
unseen visited (entry ∷ entries) =
    let rest = unseen visited entries in if has (entry.0) visited then rest else suc rest

pub unseen_bound :
    (visited : List String) (m : Entries DocumentSummary) → unseen visited m ≤ length m
unfolding unseen
unseen_bound visited [] = omega arith
unseen_bound visited (entry ∷ m) = ground (arith, unseen_bound visited m)

unseen-add_le :
    (id : String) (visited : List String) (m : Entries DocumentSummary)
    → unseen (add id visited) m ≤ unseen visited m
unfolding unseen
unseen-add_le id visited [] = omega arith
unseen-add_le id visited (entry ∷ m) =
    ground (arith, has-add id (entry.0) visited, unseen-add_le id visited m)

pub unseen-add_lt :
    (id : String) (visited : List String) (m : Entries DocumentSummary) (d : DocumentSummary)
    → has id visited ≡ false
    → lookup id m ≡ some d
    → unseen (add id visited) m < unseen visited m
unfolding unseen lookup
unseen-add_lt id visited [] d new h = ground arith
unseen-add_lt id visited (entry ∷ m) d new h = ground (
  arith,
  has-add id (entry.0) visited,
  unseen-add_le id visited m,
  unseen-add_lt id visited m d new,
  eq_iff id (entry.0),
  eq_iff (entry.0) id,
  same_key (entry.0),
)
  where
    same_key : (key : String) → key ≡ id → has key visited ≡ false
    same_key key e = rw e new

pub same_id : (o : Option String) (id other : String) → o ≡ some id → o ≡ some other → id ≡ other
same_id o id other e f = cc (e, f)

module _ (m : Entries DocumentSummary) where
  -- The list that the loop still appends when it stands at `parent_id`.
  abbrev pub Ancestry : List String → Option String → List DocumentSummary → Type 0
  Ancestry seen parent_id [] =
      (id : String) → truthy parent_id ≡ some id → (has id seen ≡ true) ⊎ (lookup id m ≡ none)
  Ancestry seen parent_id (d ∷ ds) =
      (id : String) × (truthy parent_id ≡ some id)
      × (has id seen ≡ false)
      × (lookup id m ≡ some d)
      × Ancestry (add id seen) (d.parent_id) ds

  ancestors_from_lem :
      (fuel : ℕ) (seen : List String) (before : List DocumentSummary) (parent_id : Option String)
      → unseen seen m < fuel
      → (ds : List DocumentSummary) × (ancestors_from fuel m seen before parent_id
          ≡ some (before ++ ds))
        × Ancestry seen parent_id ds
  unfolding ancestors_from
  ancestors_from_lem zero seen before parent_id enough = absurd (omega (arith, enough))
  ancestors_from_lem (suc fuel) seen before parent_id enough =
      elim (Option-cases (truthy parent_id)) [
        | inl none_left ↦
            ([], ground (arith, none_left, append-nil before), λ id e. ground (arith, e, none_left))
        | inr (id, found) ↦ elim (Bool-cases (has id seen)) [
          | inl old ↦ (
            [],
            ground (arith, found, old, append-nil before),
            λ other e. inl (rw (← same_id (truthy parent_id) id other found e) old),
          )
          | inr new ↦ elim (Option-cases (lookup id m)) [
            | inl missing ↦ (
              [],
              ground (arith, found, new, missing, append-nil before),
              λ other e. inr (rw (← same_id (truthy parent_id) id other found e) missing),
            )
            | inr (d, hit) ↦
                let next =
                  ancestors_from_lem fuel (add id seen) (before ++ d ∷ []) (d.parent_id)
                    (omega (arith, enough, unseen-add_lt id seen m d new hit)) in
                (
                  d ∷ next.0,
                  ground (arith, found, new, hit, next.1, append_assoc before (d ∷ []) next.0),
                  (id, found, new, hit, next.2),
                )
          ]
        ]
      ]

  -- The map files each document under its own id.
  abbrev pub IsKeyed : Type 0
  IsKeyed = (id : String) (d : DocumentSummary) → lookup id m ≡ some d → d.id ≡ id

  pub Ancestry-new :
      IsKeyed
      → (seen : List String) (p : Option String) (ds : List DocumentSummary) (k : String)
      → Ancestry seen p ds
      → some_with_id k ds ≡ true
      → has k seen ≡ false
  unfolding some_with_id has
  Ancestry-new keyed seen p [] k way h = ground (arith, h)
  Ancestry-new keyed seen p (d ∷ ds) k (id, found, new, hit, rest) h =
      elim (Bool-cases (d.id == k)) [
        | inl e ↦ rw (← eq_of_true (d.id) k e, keyed id d hit) new
        | inr e ↦ ground (
          arith,
          Ancestry-new keyed (add id seen) (d.parent_id) ds k rest,
          e,
          h,
          has-add id k seen,
        )
      ]

pub collect_document_ancestors_lem :
    (document : DocumentSummary) (m : Entries DocumentSummary)
    → (ds : List DocumentSummary) × (collect_document_ancestors document m ≡ some ds)
      × Ancestry m (document.id ∷ []) (document.parent_id) ds
unfolding collect_document_ancestors
collect_document_ancestors_lem document m =
    ancestors_from_lem m (suc (length m)) (document.id ∷ []) [] (document.parent_id)
      (omega (arith, unseen_bound (document.id ∷ []) m))
