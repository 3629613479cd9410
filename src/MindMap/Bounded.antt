-- ===== src/MindMap/Bounded.antt =====
-- The limits of readMindMapSubtree in src/models/workspace/mindMap.ts.
use mathlib.Core.Path.{subst}
use my_note_book.Base.{
  ℕ, zero, suc, ◌+◌, ◌≤◌, ◌<◌, max, leb, Bool, false, Option, none, some, List, [], ◌∷◌, Entries,
  String, inl, inr, Bool-cases, arith, ◌≡◌, clamp_integer_bounds, ℤ, pos,
}
use my_note_book.MindMap.Content.{MindMapNode, MindMapDocument, children_at, group_children}
use my_note_book.MindMap.Subtree.{
  MindMapSubtreeQuery, MindMapSubtreeNode, subtree, MindMapSubtreeNodes, no_children, child_and,
  MindMapSubtreeResult, Progress, project_each, subtree_of, project, clamp_query, read_from,
  read_mind_map_subtree, read_mind_map_subtree-inr,
}

-- The number of nodes, and of the levels below the first.
unfoldable mutual
  pub size : MindMapSubtreeNode → ℕ
  size (subtree id text remark sources children) = suc (size_all children)

  pub size_all : MindMapSubtreeNodes → ℕ
  size_all no_children = 0
  size_all (child_and child children) = size child + size_all children

  pub height : MindMapSubtreeNode → ℕ
  height (subtree id text remark sources children) = height_all children

  pub height_all : MindMapSubtreeNodes → ℕ
  height_all no_children = 0
  height_all (child_and child children) = max (suc (height child)) (height_all children)

module _ {V : Type 0} (max_nodes : ℕ) where
  abbrev IsLimited : ℕ → (MindMapNode V → Progress → MindMapSubtreeNode × Progress) → Type 0
  IsLimited levels projecting =
      (node : MindMapNode V) (p : Progress)
      → ((projecting node p).1.returned_nodes ≡ p.returned_nodes + size (projecting node p).0)
        × (p.returned_nodes < max_nodes → (projecting node p).1.returned_nodes ≤ max_nodes)
        × (height (projecting node p).0 ≤ levels)

  project_each_limits :
      (levels : ℕ) (projecting : MindMapNode V → Progress → MindMapSubtreeNode × Progress)
      → IsLimited levels projecting
      → (children : List (MindMapNode V)) (p : Progress)
      → ((project_each projecting max_nodes children p).1.returned_nodes
          ≡ p.returned_nodes + size_all (project_each projecting max_nodes children p).0)
        × (p.returned_nodes ≤ max_nodes
            → (project_each projecting max_nodes children p).1.returned_nodes ≤ max_nodes)
        × (height_all (project_each projecting max_nodes children p).0 ≤ suc levels)
  unfolding project_each size height
  project_each_limits levels projecting limited [] p = (omega arith, (λ h. h), omega arith)
  project_each_limits levels projecting limited (child ∷ children) p =
      elim (Bool-cases (leb max_nodes p.returned_nodes)) [
        | inl full ↦ (ground (arith, full), (λ h. ground (arith, full, h)), ground (arith, full))
        | inr open_ ↦
            let first = limited child p in
            let others =
              project_each_limits levels projecting limited children (projecting child p).1 in
            (
              ground (arith, open_, first.0, others.0),
              (λ h. ground (arith, open_, first.1, others.1)),
              ground (arith, open_, first.2, others.2),
            )
      ]

  project_limits :
      (query : MindMapSubtreeQuery) (lists : Entries (List (MindMapNode V))) (levels : ℕ)
      → IsLimited levels (project query lists max_nodes levels)
  unfolding project subtree_of size height
  project_limits query lists zero node p = (omega arith, (λ h. omega (arith, h)), omega arith)
  project_limits query lists (suc levels) node p =
      let below =
        project_each_limits levels (project query lists max_nodes levels)
          (project_limits query lists levels) (children_at lists node.id)
          (record p { returned_nodes = suc p.returned_nodes }) in
      (omega (arith, below.0), (λ h. below.1 h), below.2)

clamp_query_bounds :
    (value : Option ℤ) (fallback minimum maximum : ℕ)
    → minimum ≤ maximum
    → (minimum ≤ clamp_query value fallback minimum maximum)
      × (clamp_query value fallback minimum maximum ≤ maximum)
unfolding clamp_query
clamp_query_bounds none fallback minimum maximum h =
    clamp_integer_bounds (pos fallback) minimum maximum h
clamp_query_bounds (some value) fallback minimum maximum h =
    clamp_integer_bounds value minimum maximum h

read_from_bounds :
    {V : Type 0} (id_le : String → String → Bool) (document : MindMapDocument V)
    (query : MindMapSubtreeQuery) (root : MindMapNode V)
    → let r = read_from id_le document query root in
      (r.returned_nodes ≡ size r.root)
      × (r.returned_nodes ≤ clamp_query query.max_nodes 100 1 1_000)
      × (r.returned_nodes ≤ 1_000)
      × (height r.root ≤ clamp_query query.depth 3 0 32)
      × (height r.root ≤ 32)
unfolding read_from
read_from_bounds id_le document query root =
    let most = clamp_query_bounds query.max_nodes 100 1 1_000 (omega arith) in
    let deepest = clamp_query_bounds query.depth 3 0 32 (omega arith) in
    let limits =
      project_limits (clamp_query query.max_nodes 100 1 1_000) query
        (group_children id_le document.content) (clamp_query query.depth 3 0 32) root
        (record { returned_nodes = 0; truncated = false }) in
    let few = limits.1 (omega (arith, most.0)) in
    (
      omega (arith, limits.0),
      few,
      omega (arith, few, most.1),
      limits.2,
      omega (arith, limits.2, deepest.1),
    )

-- A subtree that is read counts its nodes right, has at most as many nodes as the query allows and
-- never more than 1000, and goes at most as many levels down as the query allows and never more than
-- 32, whatever the parent links of the content are, cycles included.
pub read_mind_map_subtree_bounds :
    {V : Type 0} (id_le : String → String → Bool) (document : MindMapDocument V)
    (query : MindMapSubtreeQuery) (result : MindMapSubtreeResult)
    → read_mind_map_subtree id_le document query ≡ inr result
    → (result.returned_nodes ≡ size result.root)
      × (result.returned_nodes ≤ clamp_query query.max_nodes 100 1 1_000)
      × (result.returned_nodes ≤ 1_000)
      × (height result.root ≤ clamp_query query.depth 3 0 32)
      × (height result.root ≤ 32)
read_mind_map_subtree_bounds id_le document query result e =
    subst IsInLimits (read_mind_map_subtree-inr id_le document query result e).2 (
      read_from_bounds id_le document query
        (read_mind_map_subtree-inr id_le document query result e).0)
  where
    IsInLimits : MindMapSubtreeResult → Type 0
    IsInLimits r =
        (r.returned_nodes ≡ size r.root)
        × (r.returned_nodes ≤ clamp_query query.max_nodes 100 1 1_000)
        × (r.returned_nodes ≤ 1_000)
        × (height r.root ≤ clamp_query query.depth 3 0 32)
        × (height r.root ≤ 32)
