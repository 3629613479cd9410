-- ===== src/MindMap/Validate.antt =====
-- validateMindMapContent of src/models/workspace/mindMap.ts; `none` is the accepted content. The visit
-- stops below depth 256 by itself: `rounds` is 257 less the depth.
use text.Mathlib.Text.{◌==◌}
use Prim.Native.String
use my_note_book.Base.{
  ℕ, zero, suc, pos, leb_int, nat_eq, ltb, String, Bool, true, false, not, ◌||◌, Option, none, some,
  List, [], ◌∷◌, length, if◌then◌else◌, is_some, Entries, lookup, has, add, remove, trim,
  utf16_length,
}
use my_note_book.MindMap.Content.{
  MindMapDirection, other_direction, MindMapNode, MindMapLink, MindMapContent, is_whole, is_there,
  values, children_at, group_children,
}

-- The sets `visiting` and `visited`.
pub record Marks : Type 0 where
  pub visiting : List String
  pub visited : List String

pub data Visit : Type 0 where
  failed : String → Visit
  went : Marks → Visit

abbrev pub is_known : MindMapDirection → Bool
is_known (other_direction name) = false
is_known _ = true

-- `节点 ${id} …`
unfoldable pub of_node : String → String → String
of_node id complaint = String.◌++◌ "节点 " (String.◌++◌ id complaint)

unfoldable pub of_link : String → String → String
of_link id complaint = String.◌++◌ "连接 " (String.◌++◌ id complaint)

module _ {V : Type 0} where
  -- `content.nodes[id]?.id === id`
  abbrev pub has_own_id : Option (MindMapNode V) → String → Bool
  has_own_id none id = false
  has_own_id (some node) id = node.id == id

  abbrev pub has_parent : Entries (MindMapNode V) → Option String → Bool
  has_parent nodes none = true
  has_parent nodes (some id) = is_there nodes id

  -- The body of the loop over the nodes.
  unfoldable pub check_node : Entries (MindMapNode V) → MindMapNode V → Option String
  check_node nodes node =
      if not (has_own_id (lookup node.id nodes) node.id)
      then some "思维导图节点 ID 与索引不一致。"
      else if trim node.text == ""
      then some (of_node node.id " 的内容不能为空。")
      else if ltb 2_000 (utf16_length node.text) || ltb 20_000 (utf16_length node.note)
      then some (of_node node.id " 的内容过长。")
      else if not (is_whole node.order) || not (leb_int (pos 0) node.order.numerator)
      then some (of_node node.id " 的顺序无效。")
      else if not (has_parent nodes node.parent_id)
      then some (of_node node.id " 的父节点不存在。")
      else none

  unfoldable pub check_nodes : Entries (MindMapNode V) → List (MindMapNode V) → Option String
  check_nodes nodes [] = none
  check_nodes nodes (node ∷ others) = elim (check_node nodes node) [
    | some error ↦ some error
    | none ↦ check_nodes nodes others
  ]

  -- The loop of `visit` over the children, with the recursive call as a parameter.
  unfoldable pub visit_children : (String → Marks → Visit) → List (MindMapNode V) → Marks → Visit
  visit_children visiting [] marks = went marks
  visit_children visiting (child ∷ children) marks = elim (visiting child.id marks) [
    | failed error ↦ failed error
    | went marks' ↦ visit_children visiting children marks'
  ]

  unfoldable pub visit_node : ℕ → Entries (List (MindMapNode V)) → String → Marks → Visit
  visit_node zero lists id marks = failed "思维导图层级不能超过 256。"
  visit_node (suc rounds) lists id marks = elim (has id marks.visiting) [
    | true ↦ failed "思维导图不能包含循环父子关系。"
    | false ↦ elim (has id marks.visited) [
      | true ↦ went marks
      | false ↦
          elim (visit_children (visit_node rounds lists) (children_at lists id)
            (record marks { visiting = add id marks.visiting })) [
              | failed error ↦ failed error
              | went marks' ↦
                  went (record {
                    visiting = remove id marks'.visiting;
                    visited = add id marks'.visited;
                  })
            ]
    ]
  ]

  -- The loop over the links, with the ids that it has met.
  unfoldable pub check_links :
      Entries (MindMapNode V) → List String → List MindMapLink → Option String
  check_links nodes link_ids [] = none
  check_links nodes link_ids (link ∷ links) =
      let rest = check_links nodes (add link.id link_ids) links in
      if (link.id == "") || has link.id link_ids
      then some "思维导图连接 ID 不能为空或重复。"
      else if not (is_there nodes link.from_node_id) || not (is_there nodes link.to_node_id)
      then some (of_link link.id " 引用了不存在的节点。")
      else if link.from_node_id == link.to_node_id
      then some (of_link link.id " 不能指向自身。")
      else rest

  -- `root && root.parentId === null`
  abbrev pub is_root : Option (MindMapNode V) → Bool
  is_root none = false
  is_root (some node) = not (is_some node.parent_id)

  module _ (id_le : String → String → Bool) where
    -- From the visit on.
    unfoldable pub check_tree : MindMapContent V → Option String
    check_tree content =
        elim (visit_node 257 (group_children id_le content) content.root_node_id
          (record { visiting = []; visited = [] })) [
            | failed error ↦ some error
            | went marks ↦
                if not (nat_eq (length marks.visited) (length content.nodes))
                then some "思维导图包含无法从根节点访问的节点。"
                else check_links content.nodes [] content.links
          ]

    unfoldable pub validate_mind_map_content : MindMapContent V → Option String
    validate_mind_map_content content =
        if not (nat_eq content.schema_version 1)
        then some "不支持的思维导图数据版本。"
        else if nat_eq (length content.nodes) 0
        then some "思维导图至少需要一个节点。"
        else if ltb 10_000 (length content.nodes)
        then some "思维导图节点数不能超过 10000。"
        else if not (is_root (lookup content.root_node_id content.nodes))
        then some "思维导图根节点无效。"
        else if not (is_known content.direction)
        then some "思维导图方向无效。"
        else elim (check_nodes content.nodes (values content.nodes)) [
          | some error ↦ some error
          | none ↦ check_tree content
        ]
