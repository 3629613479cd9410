-- ===== src/MindMap/Subtree.antt =====
-- readMindMapSubtree of src/models/workspace/mindMap.ts. A depth or a number of nodes that the query
-- leaves out, or that is no whole number, is `none`. The recursion goes as deep as `maxDepth`.
use text.Mathlib.Text.{◌==◌}
use Prim.Native.String
use my_note_book.Base.{
  Option-cases, arith, ◌≡◌, ℕ, zero, suc, ℤ, pos, clamp_integer, leb, String, Bool, true, false,
  not, ◌&&◌, Option, none, some, List, [], ◌∷◌, ◌⊎◌, inl, inr, if◌then◌else◌, Entries, lookup,
}
use my_note_book.MindMap.Content.{
  MindMapSourceRef, MindMapNode, MindMapDocument, is_inherited, children_at, group_children,
}

pub record MindMapSubtreeQuery : Type 0 where
  pub node_id : Option String
  pub depth : Option ℤ
  pub max_nodes : Option ℤ
  pub include_notes : Bool
  pub include_sources : Bool

mutual
  pub data MindMapSubtreeNode : Type 0 where
    subtree :
        String
        → String
        → Option String
        → Option (List MindMapSourceRef)
        → MindMapSubtreeNodes
        → MindMapSubtreeNode

  pub data MindMapSubtreeNodes : Type 0 where
    no_children : MindMapSubtreeNodes
    child_and : MindMapSubtreeNode → MindMapSubtreeNodes → MindMapSubtreeNodes

pub record MindMapSubtreeResult : Type 0 where
  pub mind_map_id : String
  pub title : String
  pub version : ℕ
  pub root : MindMapSubtreeNode
  pub returned_nodes : ℕ
  pub truncated : Bool

-- What comes of a read that does not find a node: an error for an id that is not there; and, for the
-- name of a member that every object inherits, which the code takes for a node, a `TypeError` when
-- the sources are asked for, and else a subtree of the map with this id, title and version whose
-- root is the only node and has neither an id nor a text.
pub data NoNode : Type 0 where
  thrown : String → NoNode
  type_error : NoNode
  nameless : String → String → ℕ → NoNode

-- The two variables that `project` changes.
pub record Progress : Type 0 where
  pub returned_nodes : ℕ
  pub truncated : Bool

-- `clampInteger` with a fallback
unfoldable pub clamp_query : Option ℤ → ℕ → ℕ → ℕ → ℕ
clamp_query none fallback minimum maximum = clamp_integer (pos fallback) minimum maximum
clamp_query (some value) fallback minimum maximum = clamp_integer value minimum maximum

abbrev pub has_items {ℓ} : {A : Type ℓ} → List A → Bool
has_items [] = false
has_items (x ∷ xs) = true

module _ {V : Type 0} where
  -- The loop over the candidates, with the recursive call as a parameter.
  unfoldable pub project_each :
      (MindMapNode V → Progress → MindMapSubtreeNode × Progress)
      → ℕ
      → List (MindMapNode V)
      → Progress
      → MindMapSubtreeNodes × Progress
  project_each project max_nodes [] progress = (no_children, progress)
  project_each project max_nodes (child ∷ children) progress =
      elim (leb max_nodes progress.returned_nodes) [
        | true ↦ (no_children, record progress { truncated = true })
        | false ↦
            let first = project child progress in
            let others = project_each project max_nodes children first.1 in
            (child_and first.0 others.0, others.1)
      ]

  unfoldable pub subtree_of :
      MindMapSubtreeQuery → MindMapNode V → MindMapSubtreeNodes → MindMapSubtreeNode
  subtree_of query node children =
      subtree node.id node.text
        (if query.include_notes && not (node.note == "") then some node.note else none)
        (if query.include_sources && has_items node.source_refs
          then some node.source_refs
          else none)
        children

  -- `project`, where `levels` is `maxDepth - depth`.
  unfoldable pub project :
      MindMapSubtreeQuery
      → Entries (List (MindMapNode V))
      → ℕ
      → ℕ
      → MindMapNode V
      → Progress
      → MindMapSubtreeNode × Progress
  project query children max_nodes zero node progress = (
    subtree_of query node no_children,
    record {
      returned_nodes = suc progress.returned_nodes;
      truncated = if has_items (children_at children node.id) then true else progress.truncated;
    },
  )
  project query children max_nodes (suc levels) node progress =
      let below =
        project_each (project query children max_nodes levels) max_nodes
          (children_at children node.id)
          (record progress { returned_nodes = suc progress.returned_nodes }) in
      (subtree_of query node below.0, below.1)

  -- `query.nodeId || document.content.rootNodeId`
  unfoldable pub start_id : MindMapDocument V → MindMapSubtreeQuery → String
  start_id document query = elim (query.node_id) [
    | none ↦ document.content.root_node_id
    | some id ↦ if id == "" then document.content.root_node_id else id
  ]

  -- The read where `content.nodes` has no node under the id.
  read_inherited : MindMapDocument V → MindMapSubtreeQuery → NoNode
  read_inherited document query =
      if not (is_inherited (start_id document query))
      then thrown (String.◌++◌ "节点 " (String.◌++◌ (start_id document query) " 不存在。"))
      else if query.include_sources
      then type_error
      else nameless document.id document.title document.version

  module _ (id_le : String → String → Bool) where
    -- The part of `readMindMapSubtree` that follows the check of the root.
    unfoldable pub read_from :
        MindMapDocument V → MindMapSubtreeQuery → MindMapNode V → MindMapSubtreeResult
    read_from document query root =
        let projected =
          project query (group_children id_le document.content)
            (clamp_query query.max_nodes 100 1 1_000) (clamp_query query.depth 3 0 32) root
            (record { returned_nodes = 0; truncated = false }) in
        record {
          mind_map_id = document.id;
          title = document.title;
          version = document.version;
          root = projected.0;
          returned_nodes = projected.1.returned_nodes;
          truncated = projected.1.truncated;
        }

    unfoldable pub read_mind_map_subtree :
        MindMapDocument V → MindMapSubtreeQuery → NoNode ⊎ MindMapSubtreeResult
    unfolding read_inherited
    read_mind_map_subtree document query =
        elim (lookup (start_id document query) document.content.nodes) [
          | none ↦ inl (read_inherited document query)
          | some root ↦ inr (read_from document query root)
        ]

    pub read_mind_map_subtree-inr :
        (document : MindMapDocument V) (query : MindMapSubtreeQuery) (result : MindMapSubtreeResult)
        → read_mind_map_subtree document query ≡ inr result
        → (root : MindMapNode V) × (lookup (start_id document query) document.content.nodes
            ≡ some root)
          × (read_from document query root ≡ result)
    unfolding read_mind_map_subtree
    read_mind_map_subtree-inr document query result e =
        elim (Option-cases (lookup (start_id document query) document.content.nodes)) [
          | inl missing ↦ ground (arith, e, missing)
          | inr (root, found) ↦ (root, found, ground (arith, e, found))
        ]
