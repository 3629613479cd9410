-- ===== src/MindMap/Accepted.antt =====
-- What a content satisfies that validateMindMapContent of src/models/workspace/mindMap.ts accepts.
use my_note_book.Base.{
  ◌≤◌, pos, leb_int, String, true, false, none, List, [], ◌∷◌, is_some, Entries, lookup, has, add,
  trim, utf16_length, All, arith, eq_iff, Option-cases, inl, inr, ◌≡◌, ◌≢◌, ◌⊎◌,
}
use my_note_book.MindMap.Content.{MindMapNode, MindMapLink, is_whole, is_inherited, is_there}
use my_note_book.MindMap.Validate.{has_own_id, has_parent, check_node, check_nodes, check_links}

module _ {V : Type 0} where
  -- A node that can be looked up under its id, with its text, order and parent as they have to be.
  abbrev pub IsSoundNode : Entries (MindMapNode V) → MindMapNode V → Type 0
  IsSoundNode nodes node =
      (has_own_id (lookup node.id nodes) node.id ≡ true)
      × (trim node.text ≢ "")
      × (utf16_length node.text ≤ 2_000)
      × (utf16_length node.note ≤ 20_000)
      × (is_whole node.order ≡ true)
      × (leb_int (pos 0) node.order.numerator ≡ true)
      × (has_parent nodes node.parent_id ≡ true)

  check_node-none :
      (nodes : Entries (MindMapNode V)) (node : MindMapNode V)
      → check_node nodes node ≡ none
      → IsSoundNode nodes node
  unfolding check_node
  check_node-none nodes node h = ground (arith, eq_iff (trim node.text) "")

  pub check_nodes-none :
      (nodes : Entries (MindMapNode V)) (others : List (MindMapNode V))
      → check_nodes nodes others ≡ none
      → All (IsSoundNode nodes) others
  unfolding check_nodes
  check_nodes-none nodes [] h = tt
  check_nodes-none nodes (node ∷ others) h = elim (Option-cases (check_node nodes node)) [
    | inl fine ↦
        (check_node-none nodes node fine, check_nodes-none nodes others (ground (arith, h, fine)))
    | inr (error, e) ↦ ground (arith, h, e)
  ]

  -- An id under which `content.nodes` has a node or inherits a member.
  abbrev pub IsPresent : Entries (MindMapNode V) → String → Type 0
  IsPresent nodes id = (is_some (lookup id nodes) ≡ true) ⊎ (is_inherited id ≡ true)

  is_there-IsPresent :
      (nodes : Entries (MindMapNode V)) (id : String)
      → is_there nodes id ≡ true
      → IsPresent nodes id
  is_there-IsPresent nodes id h = ground arith

  -- A link between two different ids that are present.
  abbrev pub IsSoundLink : Entries (MindMapNode V) → MindMapLink → Type 0
  IsSoundLink nodes link =
      (link.id ≢ "")
      × IsPresent nodes link.from_node_id
      × IsPresent nodes link.to_node_id
      × (link.from_node_id ≢ link.to_node_id)

  abbrev pub AreSoundLinks : Entries (MindMapNode V) → List String → List MindMapLink → Type 0
  AreSoundLinks nodes met [] = Unit
  AreSoundLinks nodes met (link ∷ links) =
      IsSoundLink nodes link
      × (has link.id met ≡ false)
      × AreSoundLinks nodes (add link.id met) links

  pub check_links-none :
      (nodes : Entries (MindMapNode V)) (met : List String) (links : List MindMapLink)
      → check_links nodes met links ≡ none
      → AreSoundLinks nodes met links
  unfolding check_links
  check_links-none nodes met [] h = tt
  check_links-none nodes met (link ∷ links) h = (
    (
      ground (arith, h, eq_iff link.id ""),
      is_there-IsPresent nodes link.from_node_id (ground (arith, h)),
      is_there-IsPresent nodes link.to_node_id (ground (arith, h)),
      ground (arith, h, eq_iff link.from_node_id link.to_node_id),
    ),
    ground (arith, h),
    check_links-none nodes (add link.id met) links (ground (arith, h)),
  )
