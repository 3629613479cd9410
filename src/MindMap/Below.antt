-- ===== src/MindMap/Below.antt =====
-- The nodes below the root of a content of src/models/workspace/mindMap.ts.
use mathlib.Core.Path.{subst}
use my_note_book.Base.{
  ℕ, suc, String, Bool, true, false, Option, none, some, List, [], ◌∷◌, holds, if◌then◌else◌,
  is_some, lookup, All, All-weaken, All-keep, All-both, ap, IsAmong, IsAmong-self, eq_of_true,
  arith, ◌≡◌, refl, sym,
}
use my_note_book.MindMap.Content.{
  MindMapNode, MindMapContent, values, children_at, comes_before, insert_sorted, sort_nodes,
  group_children,
}
use my_note_book.MindMap.Children.{children_of, group_children_lem}
use my_note_book.MindMap.Validate.{has_own_id}
use my_note_book.MindMap.Accepted.{IsSoundNode}

holds-some : (found : Option String) (id : String) → holds found id ≡ true → found ≡ some id
holds-some none id h = ground arith
holds-some (some other) id h = ap some (eq_of_true other id h)

module _ {V : Type 0} where
  pub is_some-own :
      (found : Option (MindMapNode V)) (id : String)
      → has_own_id found id ≡ true
      → is_some found ≡ true
  is_some-own none id h = ground arith
  is_some-own (some node) id h = refl

  All-insert_sorted {κ} :
      (P : MindMapNode V → Type κ) (id_le : String → String → Bool) (node : MindMapNode V)
      (nodes : List (MindMapNode V))
      → P node
      → All P nodes
      → All P (insert_sorted id_le node nodes)
  unfolding insert_sorted
  All-insert_sorted P id_le node [] p h = (p, tt)
  All-insert_sorted P id_le node (x ∷ nodes) p (q, h) =
      by_test (comes_before id_le node x) (All-insert_sorted P id_le node nodes p h)
    where
      by_test :
          (first : Bool)
          → All P (insert_sorted id_le node nodes)
          → All P (if first then node ∷ x ∷ nodes else x ∷ insert_sorted id_le node nodes)
      by_test true rest = (p, (q, h))
      by_test false rest = (q, rest)

  All-sort_nodes {κ} :
      (P : MindMapNode V → Type κ) (id_le : String → String → Bool) (nodes : List (MindMapNode V))
      → All P nodes
      → All P (sort_nodes id_le nodes)
  unfolding sort_nodes
  All-sort_nodes P id_le [] h = tt
  All-sort_nodes P id_le (x ∷ nodes) (p, h) =
      All-insert_sorted P id_le x (sort_nodes id_le nodes) p (All-sort_nodes P id_le nodes h)

  -- `IsBelow content depth id`: `depth` steps lead from the root to `id`, each from a node's parent
  -- to the node.
  pub data IsBelow (content : MindMapContent V) : ℕ → String → Type 0 where
    at_root : IsBelow content 0 content.root_node_id
    child_of :
        {depth : ℕ} {parent : String} (node : MindMapNode V)
        → IsBelow content depth parent
        → IsAmong node (values content.nodes)
        → node.parent_id ≡ some parent
        → IsBelow content (suc depth) node.id

  module _ (content : MindMapContent V) where
    pub children-IsBelow :
        (id_le : String → String → Bool)
        → All (IsSoundNode content.nodes) (values content.nodes)
        → (depth : ℕ) (id : String) → IsBelow content depth id
        → All
            (λ child.
              (is_some (lookup child.id content.nodes) ≡ true)
              × IsBelow content (suc depth) child.id)
            (children_at (group_children id_le content) id)
    children-IsBelow id_le sound depth id below =
        subst
          (λ children.
            All
              (λ child.
                (is_some (lookup child.id content.nodes) ≡ true)
                × IsBelow content (suc depth) child.id)
              children)
          (sym (group_children_lem id_le content id))
          (All-sort_nodes
            (λ child.
              (is_some (lookup child.id content.nodes) ≡ true)
              × IsBelow content (suc depth) child.id)
            id_le (children_of id (values content.nodes))
            (All-weaken _ _ (children_of id (values content.nodes)) one (
              All-keep (λ node. holds node.parent_id id)
                (λ node. IsSoundNode content.nodes node × IsAmong node (values content.nodes))
                (values content.nodes)
                (All-both _ _ (values content.nodes) sound (IsAmong-self (values content.nodes))))))
      where
        one :
            (child : MindMapNode V)
            → (IsSoundNode content.nodes child × IsAmong child (values content.nodes))
              × (holds child.parent_id id ≡ true)
            → (is_some (lookup child.id content.nodes) ≡ true)
              × IsBelow content (suc depth) child.id
        one child ((fine, among), e) = (
          is_some-own (lookup child.id content.nodes) child.id (fine.0),
          child_of child below among (holds-some child.parent_id id e),
        )
