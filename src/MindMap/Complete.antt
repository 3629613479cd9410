-- ===== src/MindMap/Complete.antt =====
-- What readMindMapSubtree of src/models/workspace/mindMap.ts reads when it leaves nothing out.
use mathlib.Core.List.{Perm}
use mathlib.Core.Path.{subst}
use my_note_book.Base.{
  lookup, some, if◌then◌else◌, ℕ, zero, suc, leb, Bool, true, false, String, List, [], ◌∷◌, map,
  Entries, inl, inr, Bool-cases, arith, ◌≡◌, refl, sym, ap, ◌∙◌,
}
use my_note_book.MindMap.Content.{
  MindMapNode, MindMapDocument, children_at, values, sort_nodes, group_children,
}
use my_note_book.MindMap.Subtree.{
  MindMapSubtreeQuery, MindMapSubtreeNode, subtree, MindMapSubtreeNodes, no_children, child_and,
  MindMapSubtreeResult, Progress, project_each, subtree_of, project, clamp_query, has_items,
  start_id, read_from, read_mind_map_subtree, read_mind_map_subtree-inr,
}
use my_note_book.MindMap.Children.{children_of, group_children_lem}
use my_note_book.MindMap.Sorted.{IsTotal, IsOrdered, sort_nodes-perm, sort_nodes-IsOrdered}

abbrev pub id_of : MindMapSubtreeNode → String
id_of (subtree id text remark sources items) = id

abbrev pub ids_of : MindMapSubtreeNodes → List String
ids_of no_children = []
ids_of (child_and child others) = id_of child ∷ ids_of others

-- Each node of a tree has below it just the ids that `below` gives for its own.
unfoldable mutual
  pub IsComplete : (String → List String) → MindMapSubtreeNode → Type 0
  IsComplete below (subtree id text remark sources items) =
      (ids_of items ≡ below id) × AreComplete below items

  pub AreComplete : (String → List String) → MindMapSubtreeNodes → Type 0
  AreComplete below no_children = Unit
  AreComplete below (child_and child others) = IsComplete below child × AreComplete below others

module _ {V : Type 0} (max_nodes : ℕ) (below : String → List String) where
  abbrev IsFaithful : (MindMapNode V → Progress → MindMapSubtreeNode × Progress) → Type 0
  IsFaithful projecting =
      (node : MindMapNode V) (p : Progress)
      → (id_of (projecting node p).0 ≡ node.id)
        × ((projecting node p).1.truncated ≡ false
            → (p.truncated ≡ false) × IsComplete below (projecting node p).0)

  project_each_more :
      (projecting : MindMapNode V → Progress → MindMapSubtreeNode × Progress)
      (child : MindMapNode V) (children : List (MindMapNode V)) (p : Progress)
      → leb max_nodes p.returned_nodes ≡ false
      → project_each projecting max_nodes (child ∷ children) p ≡ (
        child_and
            (projecting child p).0
            (project_each projecting max_nodes children (projecting child p).1).0,
        (project_each projecting max_nodes children (projecting child p).1).1,
      )
  unfolding project_each
  project_each_more projecting child children p more = ground (arith, more)

  joined :
      (projecting : MindMapNode V → Progress → MindMapSubtreeNode × Progress)
      → IsFaithful projecting
      → (child : MindMapNode V) (children : List (MindMapNode V)) (p : Progress)
      → let q = (projecting child p).1 in
        let others = project_each projecting max_nodes children q in
        (others.1.truncated ≡ false
          → (q.truncated ≡ false)
            × (ids_of others.0 ≡ map (λ node. node.id) children)
            × AreComplete below others.0)
        → others.1.truncated ≡ false
        → (p.truncated ≡ false)
          × (id_of (projecting child p).0 ∷ ids_of others.0
              ≡ child.id ∷ map (λ node. node.id) children)
          × AreComplete below (child_and (projecting child p).0 others.0)
  unfolding IsComplete
  joined projecting faithful child children p rest whole =
      let first = faithful child p in
      let after = rest whole in
      let before = first.1 after.0 in (before.0, cc (first.0, after.1), (before.1, after.2))

  project_each_complete :
      (projecting : MindMapNode V → Progress → MindMapSubtreeNode × Progress)
      → IsFaithful projecting
      → (children : List (MindMapNode V)) (p : Progress)
      → (project_each projecting max_nodes children p).1.truncated ≡ false
      → (p.truncated ≡ false)
        × (ids_of (project_each projecting max_nodes children p).0 ≡ map (λ node. node.id) children)
        × AreComplete below (project_each projecting max_nodes children p).0
  unfolding project_each IsComplete
  project_each_complete projecting faithful [] p whole = (whole, refl, tt)
  project_each_complete projecting faithful (child ∷ children) p whole =
      elim (Bool-cases (leb max_nodes p.returned_nodes)) [
        | inl full ↦ ground (arith, full, whole)
        | inr more ↦
            subst
              (λ r.
                r.1.truncated ≡ false
                → (p.truncated ≡ false)
                  × (ids_of r.0 ≡ child.id ∷ map (λ node. node.id) children)
                  × AreComplete below r.0)
              (sym (project_each_more projecting child children p more))
              (joined projecting faithful child children p
                (project_each_complete projecting faithful children (projecting child p).1))
              whole
      ]

  project_complete :
      (query : MindMapSubtreeQuery) (lists : Entries (List (MindMapNode V)))
      → ((id : String) → map (λ node. node.id) (children_at lists id) ≡ below id)
      → (levels : ℕ) → IsFaithful (project query lists max_nodes levels)
  unfolding project subtree_of IsComplete
  project_complete query lists lists_below zero node p =
      (refl, λ whole. leaf (children_at lists node.id) (lists_below node.id) whole)
    where
      leaf :
          (children : List (MindMapNode V))
          → map (λ n. n.id) children ≡ below node.id
          → (if has_items children then true else p.truncated) ≡ false
          → (p.truncated ≡ false) × (◌≡◌ {A = List String} [] (below node.id) × Unit {0})
      leaf [] e whole = (whole, (e, tt))
      leaf (child ∷ children) e whole = ground (arith, whole)
  project_complete query lists lists_below (suc levels) node p = (
    refl,
    λ whole.
        let found =
          project_each_complete (project query lists max_nodes levels)
            (project_complete query lists lists_below levels) (children_at lists node.id)
            (record p { returned_nodes = suc p.returned_nodes }) whole in
        (found.0, (found.1 ∙ lists_below node.id, found.2)),
  )

-- The ids of the nodes whose parent has an id, sorted.
abbrev ids_below :
    {V : Type 0} → (String → String → Bool) → MindMapDocument V → String → List String
ids_below id_le document id =
    map (λ node. node.id) (sort_nodes id_le (children_of id (values document.content.nodes)))

read_from-IsComplete :
    {V : Type 0} (id_le : String → String → Bool) (document : MindMapDocument V)
    (query : MindMapSubtreeQuery) (root : MindMapNode V)
    → (read_from id_le document query root).truncated ≡ false
    → (id_of (read_from id_le document query root).root ≡ root.id)
      × IsComplete (ids_below id_le document) (read_from id_le document query root).root
unfolding read_from
read_from-IsComplete id_le document query root whole =
    let faithful =
      project_complete (clamp_query query.max_nodes 100 1 1_000) (ids_below id_le document) query
        (group_children id_le document.content)
        (λ id. ap (map (λ node. node.id)) (group_children_lem id_le document.content id))
        (clamp_query query.depth 3 0 32) root (record { returned_nodes = 0; truncated = false }) in
    (faithful.0, (faithful.1 whole).1)

-- The siblings below each id: the nodes whose parent it is, each as often as the content has it, in
-- their order.
abbrev pub AreSiblings :
    {V : Type 0}
    → (String → String → Bool)
    → MindMapDocument V
    → (String → List (MindMapNode V))
    → Type 0
AreSiblings id_le document siblings =
    (id : String)
    → Perm (siblings id) (children_of id (values document.content.nodes))
      × IsOrdered id_le (siblings id)

-- If of two ids `localeCompare` puts at least one not behind the other: a subtree of a node that is
-- read without truncation is complete. It starts at the node that was asked for, or at the root of
-- the map, and every node in it has below it all nodes of the content whose parent it is, and no
-- others, sorted: of two neighbours the first has a smaller order, or the same order and an id that
-- is not behind the other's.
pub read_mind_map_subtree-IsComplete :
    {V : Type 0} (id_le : String → String → Bool) (document : MindMapDocument V)
    (query : MindMapSubtreeQuery) (result : MindMapSubtreeResult)
    → IsTotal id_le
    → read_mind_map_subtree id_le document query ≡ inr result
    → result.truncated ≡ false
    → (node : MindMapNode V) × (siblings : String → List (MindMapNode V)) × (lookup
          (start_id document query)
          document.content.nodes
        ≡ some node)
      × (id_of result.root ≡ node.id)
      × AreSiblings id_le document siblings
      × IsComplete (λ id. map (λ n. n.id) (siblings id)) result.root
read_mind_map_subtree-IsComplete {V} id_le document query result total e whole =
    let found = read_mind_map_subtree-inr id_le document query result e in
    let read =
      read_from-IsComplete id_le document query found.0
        (subst (λ r. r.truncated ≡ false) (sym found.2) whole) in
    let nodes : String → List (MindMapNode V) =
      λ id. children_of id (values document.content.nodes) in
    (
      found.0,
      (λ id. sort_nodes id_le (nodes id)),
      found.1,
      subst (λ r. id_of r.root ≡ found.0.id) found.2 read.0,
      (λ id. (sort_nodes-perm id_le (nodes id), sort_nodes-IsOrdered id_le total (nodes id))),
      subst (λ r. IsComplete (ids_below id_le document) r.root) found.2 read.1,
    )
