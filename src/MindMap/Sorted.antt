-- ===== src/MindMap/Sorted.antt =====
-- The order in which groupChildren of src/models/workspace/mindMap.ts leaves siblings.
use mathlib.Core.List.{Perm}
use mathlib.Core.List.Perm
use my_note_book.Base.{
  String, Bool, true, false, List, [], ◌∷◌, ◌⊎◌, inl, inr, Bool-cases, ◌^◌, leb_int_total, arith,
  ◌≡◌,
}
use my_note_book.MindMap.Content.{
  leb_order, times, MindMapNode, MindMapContent, values, children_at, comes_before, insert_sorted,
  sort_nodes, group_children,
}
use my_note_book.MindMap.Children.{children_of, group_children_lem}

-- What `localeCompare` does: of two ids at least one is not behind the other.
abbrev pub IsTotal : (String → String → Bool) → Type 0
IsTotal id_le = (a b : String) → id_le a b ≡ false → id_le b a ≡ true

module _ {V : Type 0} (id_le : String → String → Bool) where
  -- `a` may stand directly before `b`: its order is smaller, or it is the same and its id is at most
  -- that of `b`.
  abbrev pub MayPrecede : MindMapNode V → MindMapNode V → Type 0
  MayPrecede a b =
      (leb_order a.order b.order ≡ true)
      × ((leb_order b.order a.order ≡ false) ⊎ (id_le a.id b.id ≡ true))

  abbrev pub IsOrderedFrom : MindMapNode V → List (MindMapNode V) → Type 0
  IsOrderedFrom node [] = Unit
  IsOrderedFrom node (x ∷ xs) = MayPrecede node x × IsOrderedFrom x xs

  abbrev pub IsOrdered : List (MindMapNode V) → Type 0
  IsOrdered [] = Unit
  IsOrdered (x ∷ xs) = IsOrderedFrom x xs

  comes_before-MayPrecede : (a b : MindMapNode V) → comes_before id_le a b ≡ true → MayPrecede a b
  unfolding comes_before
  comes_before-MayPrecede a b h = ground arith

  comes_after-MayPrecede :
      IsTotal id_le → (a b : MindMapNode V) → comes_before id_le a b ≡ false → MayPrecede b a
  unfolding comes_before leb_order
  comes_after-MayPrecede total a b h = ground (
    arith,
    total a.id b.id,
    leb_int_total (times a.order.numerator (2 ^ b.order.halvings))
        (times b.order.numerator (2 ^ a.order.halvings)),
  )

  module _ (total : IsTotal id_le) where
    insert_sorted-IsOrderedFrom :
        (first node : MindMapNode V) (nodes : List (MindMapNode V))
        → MayPrecede first node
        → IsOrderedFrom first nodes
        → IsOrderedFrom first (insert_sorted id_le node nodes)
    unfolding insert_sorted
    insert_sorted-IsOrderedFrom first node [] p h = (p, tt)
    insert_sorted-IsOrderedFrom first node (x ∷ nodes) p h =
        elim (Bool-cases (comes_before id_le node x)) [
          | inl before ↦ rw before (p, (comes_before-MayPrecede node x before, h.1))
          | inr after ↦ rw after (
            h.0,
            insert_sorted-IsOrderedFrom x node nodes (comes_after-MayPrecede total node x after)
                h.1,
          )
        ]

    insert_sorted-IsOrdered :
        (node : MindMapNode V) (nodes : List (MindMapNode V))
        → IsOrdered nodes
        → IsOrdered (insert_sorted id_le node nodes)
    unfolding insert_sorted
    insert_sorted-IsOrdered node [] h = tt
    insert_sorted-IsOrdered node (x ∷ nodes) h = elim (Bool-cases (comes_before id_le node x)) [
      | inl before ↦ rw before (comes_before-MayPrecede node x before, h)
      | inr after ↦
          rw after
            (insert_sorted-IsOrderedFrom x node nodes (comes_after-MayPrecede total node x after) h)
    ]

    pub sort_nodes-IsOrdered : (nodes : List (MindMapNode V)) → IsOrdered (sort_nodes id_le nodes)
    unfolding sort_nodes
    sort_nodes-IsOrdered [] = tt
    sort_nodes-IsOrdered (x ∷ nodes) =
        insert_sorted-IsOrdered x (sort_nodes id_le nodes) (sort_nodes-IsOrdered nodes)

  insert_sorted-perm :
      (node : MindMapNode V) (nodes : List (MindMapNode V))
      → Perm (insert_sorted id_le node nodes) (node ∷ nodes)
  unfolding insert_sorted
  insert_sorted-perm node [] = Perm.refl (node ∷ [])
  insert_sorted-perm node (x ∷ nodes) = elim (Bool-cases (comes_before id_le node x)) [
    | inl before ↦ rw before (Perm.refl (node ∷ x ∷ nodes))
    | inr after ↦
        rw after (Perm.trans (Perm.cons x (insert_sorted-perm node nodes)) (Perm.swap node x nodes))
  ]

  pub sort_nodes-perm : (nodes : List (MindMapNode V)) → Perm (sort_nodes id_le nodes) nodes
  unfolding sort_nodes
  sort_nodes-perm [] = Perm.refl []
  sort_nodes-perm (x ∷ nodes) =
      Perm.trans (insert_sorted-perm x (sort_nodes id_le nodes))
        (Perm.cons x (sort_nodes-perm nodes))

-- If of two ids `localeCompare` puts at least one not behind the other, `groupChildren` gives each id
-- the nodes whose parent it is, each as often as the content has it, sorted: of two neighbours the
-- first has a smaller order, or the same order and an id that is not behind the other's.
pub group_children-IsOrdered :
    {V : Type 0} (id_le : String → String → Bool) (content : MindMapContent V) (id : String)
    → IsTotal id_le
    → Perm (children_at (group_children id_le content) id) (children_of id (values content.nodes))
      × IsOrdered id_le (children_at (group_children id_le content) id)
group_children-IsOrdered id_le content id total = (
  rw (group_children_lem id_le content id)
      (sort_nodes-perm id_le (children_of id (values content.nodes))),
  rw (group_children_lem id_le content id)
      (sort_nodes-IsOrdered id_le total (children_of id (values content.nodes))),
)
