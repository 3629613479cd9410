-- ===== src/MindMap/Children.antt =====
-- groupChildren of src/models/workspace/mindMap.ts against a search for the children of one parent.
use my_note_book.Base.{
  String, Bool, Option, none, some, List, [], ◌∷◌, ◌++◌, map, keep, holds, if◌then◌else◌, Entries,
  lookup, insert, lookup-insert, append_assoc, append-nil, eq_of_true, ◌==◌, arith, Bool-cases, inl,
  inr, ◌≡◌, refl, sym, ap, ◌∙◌,
}
use my_note_book.MindMap.Content.{
  MindMapNode, MindMapContent, values, children_at, collect_children, sort_nodes, group_children,
}

module _ {V : Type 0} where
  -- The nodes whose parent has an id, in the order of the nodes.
  abbrev pub children_of : String → List (MindMapNode V) → List (MindMapNode V)
  children_of id nodes = keep (λ node. holds node.parent_id id) nodes

  children_at-insert :
      (key id : String) (nodes : List (MindMapNode V)) (lists : Entries (List (MindMapNode V)))
      → children_at (insert key nodes lists) id
        ≡ (if key == id then nodes else children_at lists id)
  unfolding children_at
  children_at-insert key id nodes lists = ground (arith, lookup-insert key id nodes lists)

  children_at-sorted :
      (id_le : String → String → Bool) (id : String) (lists : Entries (List (MindMapNode V)))
      → children_at (map (λ entry. (entry.0, sort_nodes id_le entry.1)) lists) id
        ≡ sort_nodes id_le (children_at lists id)
  unfolding children_at lookup sort_nodes
  children_at-sorted id_le id [] = refl
  children_at-sorted id_le id (entry ∷ lists) = ground (arith, children_at-sorted id_le id lists)

  one_more :
      (key id : String) (children : List (MindMapNode V)) (node : MindMapNode V)
      (lists : Entries (List (MindMapNode V)))
      → (if key == id then children_at lists key ++ node ∷ [] else children_at lists id) ++ children
        ≡ children_at lists id ++ (if key == id then node ∷ children else children)
  one_more key id children node lists = elim (Bool-cases (key == id)) [
    | inl e ↦ rw (e, eq_of_true key id e) (append_assoc (children_at lists id) (node ∷ []) children)
    | inr e ↦ rw e refl
  ]

  collect_children_lem :
      (id : String) (nodes : List (MindMapNode V)) (lists : Entries (List (MindMapNode V)))
      → children_at (collect_children nodes lists) id ≡ children_at lists id ++ children_of id nodes
  unfolding collect_children
  collect_children_lem id [] lists = sym (append-nil (children_at lists id))
  collect_children_lem id (node ∷ nodes) lists =
      by_parent (node.parent_id) (collect_children_lem id nodes)
    where
      by_parent :
          (parent : Option String)
          → ((ls : Entries (List (MindMapNode V)))
              → children_at (collect_children nodes ls) id
                ≡ children_at ls id ++ children_of id nodes)
          → children_at
              (collect_children nodes (elim parent [
                | none ↦ lists
                | some key ↦ insert key (children_at lists key ++ node ∷ []) lists
              ]))
              id
            ≡ children_at lists id
              ++ (if holds parent id then node ∷ children_of id nodes else children_of id nodes)
      by_parent none rest = rest lists
      by_parent (some key) rest =
          rest (insert key (children_at lists key ++ node ∷ []) lists)
          ∙ rw (children_at-insert key id (children_at lists key ++ node ∷ []) lists)
              (one_more key id (children_of id nodes) node lists)

  pub group_children_lem :
      (id_le : String → String → Bool) (content : MindMapContent V) (id : String)
      → children_at (group_children id_le content) id
        ≡ sort_nodes id_le (children_of id (values content.nodes))
  unfolding group_children children_at lookup
  group_children_lem id_le content id =
      children_at-sorted id_le id (collect_children (values content.nodes) [])
      ∙ ap (sort_nodes id_le) (collect_children_lem id (values content.nodes) [])
