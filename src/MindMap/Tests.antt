-- ===== src/MindMap/Tests.antt =====
-- A mind map with a root, two children of the orders 3 and 4/2, and a grandchild.
use mathlib.Core.List.{Perm}
use my_note_book.Base.{
  ℕ, ◌⊎◌, AreDistinct, is_some, insert, add, remove, has, trim, trim_end, trim_start, is_space,
  utf16_length, leb_int, clamp_integer, ◌≤◌, pos, String, Bool, true, false, none, some, [], ◌∷◌,
  Option, List, map, lookup, inl, inr, ◌≡◌, refl,
}
use my_note_book.MindMap.Content.{
  leb_order, is_whole, is_inherited, MindMapNode, MindMapContent, MindMapDocument, both, values,
  children_at, sort_nodes, group_children, collect_children, insert_sorted, comes_before,
}
use my_note_book.MindMap.Subtree.{
  nameless, MindMapSubtreeQuery, MindMapSubtreeResult, subtree, no_children, child_and, clamp_query,
  start_id, read_mind_map_subtree, read_from, project, subtree_of, project_each,
}
use my_note_book.MindMap.Children.{children_of}
use my_note_book.MindMap.Sorted.{IsTotal, IsOrdered, group_children-IsOrdered}
use my_note_book.MindMap.Bounded.{size, height, read_mind_map_subtree_bounds}
use my_note_book.MindMap.Complete.{id_of, AreSiblings, IsComplete, read_mind_map_subtree-IsComplete}
use my_note_book.MindMap.Validate.{
  validate_mind_map_content, check_nodes, check_node, check_tree, visit_node, visit_children,
  check_links,
}
use my_note_book.MindMap.Parents.{validate_mind_map_content-parents}
use my_note_book.MindMap.Acceptance.{keys, IsAccepted, validate_mind_map_content-IsAccepted}

abbrev a_node : String → Option String → ℕ → ℕ → MindMapNode String
a_node id parent numerator halvings = record {
  id = id;
  parent_id = parent;
  order = record { numerator = pos numerator; halvings = halvings };
  text = id;
  note = "";
  collapsed = false;
  branch_direction = none;
  source_refs = [];
  metadata = [];
  style = [];
}

abbrev a_content : MindMapContent String
a_content = record {
  schema_version = 1;
  root_node_id = "r";
  direction = both;
  nodes =
      ("r", a_node "r" none 0 0)
      ∷ ("a", a_node "a" (some "r") 3 0)
      ∷ ("b", a_node "b" (some "r") 4 1)
      ∷ ("c", a_node "c" (some "a") 1 0)
      ∷ [];
  links =
      record { id = "l"; from_node_id = "c"; to_node_id = "b"; relation_type = ""; label = "" }
      ∷ [];
}

abbrev a_document : MindMapDocument String
a_document = record {
  id = "m";
  parent_id = none;
  sort_order = 0;
  title = "m";
  content = a_content;
  version = 4;
  created_at = 0;
  updated_at = 0;
}

abbrev everything : MindMapSubtreeQuery
everything = record {
  node_id = none;
  depth = none;
  max_nodes = none;
  include_notes = true;
  include_sources = false;
}

abbrev in_order : String → String → Bool
in_order a b = true

abbrev all_of_it : MindMapSubtreeResult
all_of_it = record {
  mind_map_id = "m";
  title = "m";
  version = 4;
  root = subtree "r" "r" none none (
      child_and (subtree "b" "b" none none no_children) (
        child_and
          (subtree "a" "a" none none
            (child_and (subtree "c" "c" none none no_children) no_children))
          no_children));
  returned_nodes = 4;
  truncated = false;
}

read_all : read_mind_map_subtree in_order a_document everything ≡ inr all_of_it
unfolding read_mind_map_subtree sort_nodes lookup start_id read_from project clamp_query
    clamp_integer subtree_of project_each children_at group_children collect_children insert
    insert_sorted comes_before leb_order leb_int
read_all = refl

accepts : validate_mind_map_content in_order a_content ≡ none
unfolding validate_mind_map_content sort_nodes lookup check_nodes check_node trim utf16_length
    leb_int check_tree visit_node has visit_children children_at group_children collect_children
    insert insert_sorted comes_before leb_order is_whole add remove is_space trim_end trim_start
    check_links
accepts = refl

in_order-IsTotal : IsTotal in_order
in_order-IsTotal a b h = refl

group_children-IsOrdered_example :
    Perm
      (children_at (group_children in_order a_content) "r")
      (children_of "r" (values a_content.nodes))
    × IsOrdered in_order (children_at (group_children in_order a_content) "r")
group_children-IsOrdered_example = group_children-IsOrdered in_order a_content "r" in_order-IsTotal

read_all_bounds :
    (4 ≡ size all_of_it.root)
    × (4 ≤ clamp_query none 100 1 1_000)
    × (4 ≤ 1_000)
    × (height all_of_it.root ≤ clamp_query none 3 0 32)
    × (height all_of_it.root ≤ 32)
read_all_bounds = read_mind_map_subtree_bounds in_order a_document everything all_of_it read_all

read_all-IsComplete :
    (node : MindMapNode String) × (siblings : String → List (MindMapNode String)) × (lookup
        (start_id a_document everything)
        a_content.nodes
      ≡ some node)
    × (id_of all_of_it.root ≡ node.id)
    × AreSiblings in_order a_document siblings
    × IsComplete (λ id. map (λ n. n.id) (siblings id)) all_of_it.root
read_all-IsComplete =
    read_mind_map_subtree-IsComplete in_order a_document everything all_of_it in_order-IsTotal
      read_all refl

-- A member that every object has is taken for a node without an id.
read_inherited_member :
    read_mind_map_subtree in_order a_document (record everything { node_id = some "toString" })
    ≡ inl (nameless "m" "m" 4)
unfolding read_mind_map_subtree lookup start_id is_inherited has
read_inherited_member = refl

a_content-IsAccepted : IsAccepted a_content
a_content-IsAccepted = validate_mind_map_content-IsAccepted in_order a_content accepts

a_content-distinct : AreDistinct (keys a_content.nodes)
unfolding has
a_content-distinct = (refl, (refl, (refl, (refl, tt))))

validate_mind_map_content-parents_example :
    (◌≡◌ {A = String} "c" "r")
    ⊎ ((◌≡◌ {A = String} "c" "c")
        × ((parent : String) × (◌≡◌ {A = Option String} (some "a") (some parent))
            × (is_some (lookup parent a_content.nodes) ≡ true)))
unfolding lookup
validate_mind_map_content-parents_example =
    validate_mind_map_content-parents in_order a_content "c" (a_node "c" (some "a") 1 0) accepts
      a_content-distinct refl
