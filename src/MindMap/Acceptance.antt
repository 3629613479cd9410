-- ===== src/MindMap/Acceptance.antt =====
-- What validateMindMapContent of src/models/workspace/mindMap.ts makes sure of, as a whole.
use my_note_book.Base.{
  ◌≤◌, nat_eq, ltb, String, Bool, true, not, Option, none, some, List, [], ◌∷◌, map, length,
  length-map, if◌then◌else◌, is_some, Entries, lookup, has, All, All-weaken, AreDistinct,
  IsWithinList-all, IsWithinList-self, All-has, eq_iff, arith, ◌≡◌, refl, sym, ◌∙◌,
}
use my_note_book.MindMap.Content.{MindMapNode, MindMapContent, values, group_children}
use my_note_book.MindMap.Validate.{
  Marks, Visit, failed, went, is_known, check_nodes, visit_node, check_links, is_root, check_tree,
  validate_mind_map_content,
}
use my_note_book.MindMap.Accepted.{IsSoundNode, AreSoundLinks, check_nodes-none, check_links-none}
use my_note_book.MindMap.Below.{at_root}
use my_note_book.MindMap.Rooted.{IsReached, visit_node-AreReached}

module _ {V : Type 0} where
  abbrev pub keys : Entries (MindMapNode V) → List String
  keys entries = map (λ entry. entry.0) entries

  pub has-keys :
      (id : String) (entries : Entries (MindMapNode V))
      → has id (keys entries) ≡ is_some (lookup id entries)
  unfolding has lookup
  has-keys id [] = refl
  has-keys id ((key, node) ∷ entries) =
      ground (arith, has-keys id entries, eq_iff key id, eq_iff id key)

  pub record IsAccepted (content : MindMapContent V) : Type 0 where
    pub versioned : content.schema_version ≡ 1
    pub some_nodes : 1 ≤ length content.nodes
    pub few_nodes : length content.nodes ≤ 10_000
    pub rooted : is_root (lookup content.root_node_id content.nodes) ≡ true
    pub directed : is_known content.direction ≡ true
    pub sound : All (IsSoundNode content.nodes) (values content.nodes)
    pub reached : All (IsReached content) (keys content.nodes)
    pub linked : AreSoundLinks content.nodes [] content.links

  module _ (id_le : String → String → Bool) (content : MindMapContent V) where
    abbrev visit_root : Visit
    visit_root =
        visit_node 257 (group_children id_le content) content.root_node_id
          (record { visiting = []; visited = [] })

    check_tree-none :
        check_tree id_le content ≡ none
        → (marks : Marks) × (visit_root ≡ went marks)
          × (length marks.visited ≡ length content.nodes)
          × (check_links content.nodes [] content.links ≡ none)
    unfolding check_tree
    check_tree-none h = by_visit visit_root refl h
      where
        by_visit :
            (visit : Visit)
            → visit_root ≡ visit
            → elim visit [
              | failed error ↦ some error
              | went marks ↦
                  if not (nat_eq (length marks.visited) (length content.nodes))
                  then some "思维导图包含无法从根节点访问的节点。"
                  else check_links content.nodes [] content.links
            ]
              ≡ none
            → (marks : Marks) × (visit_root ≡ went marks)
              × (length marks.visited ≡ length content.nodes)
              × (check_links content.nodes [] content.links ≡ none)
        by_visit (failed error) found k = ground arith
        by_visit (went marks) found k = (marks, found, ground (arith, k), ground (arith, k))

    validate-none :
        validate_mind_map_content id_le content ≡ none
        → (content.schema_version ≡ 1)
          × (1 ≤ length content.nodes)
          × (length content.nodes ≤ 10_000)
          × (is_root (lookup content.root_node_id content.nodes) ≡ true)
          × (is_known content.direction ≡ true)
          × (check_nodes content.nodes (values content.nodes) ≡ none)
          × (check_tree id_le content ≡ none)
    unfolding validate_mind_map_content
    validate-none h = by_nodes (check_nodes content.nodes (values content.nodes)) refl h
      where
        by_nodes :
            (checked : Option String)
            → check_nodes content.nodes (values content.nodes) ≡ checked
            → (if not (nat_eq content.schema_version 1)
                then some "不支持的思维导图数据版本。"
                else if nat_eq (length content.nodes) 0
                then some "思维导图至少需要一个节点。"
                else if ltb 10_000 (length content.nodes)
                then some "思维导图节点数不能超过 10000。"
                else if not (is_root (lookup content.root_node_id content.nodes))
                then some "思维导图根节点无效。"
                else if not (is_known content.direction)
                then some "思维导图方向无效。"
                else elim checked [ some error ↦ some error | none ↦ check_tree id_le content ])
              ≡ none
            → (content.schema_version ≡ 1)
              × (1 ≤ length content.nodes)
              × (length content.nodes ≤ 10_000)
              × (is_root (lookup content.root_node_id content.nodes) ≡ true)
              × (is_known content.direction ≡ true)
              × (check_nodes content.nodes (values content.nodes) ≡ none)
              × (check_tree id_le content ≡ none)
        by_nodes (some error) found k = ground (arith, k)
        by_nodes none found k = (
          ground (arith, k),
          ground (arith, k),
          ground (arith, k),
          ground (arith, k),
          ground (arith, k),
          found,
          ground (arith, k),
        )

    is_root-met : (found : Option (MindMapNode V)) → is_root found ≡ true → is_some found ≡ true
    is_root-met none h = ground arith
    is_root-met (some node) h = refl

    visited-AreReached :
        All (IsSoundNode content.nodes) (values content.nodes)
        → is_root (lookup content.root_node_id content.nodes) ≡ true
        → (marks : Marks) → visit_root ≡ went marks
        → All (IsReached content) marks.visited × AreDistinct marks.visited
    visited-AreReached sound root marks visit =
        visit_node-AreReached content id_le sound 257 0 (omega arith) content.root_node_id
          (record { visiting = []; visited = [] }) marks
          (is_root-met (lookup content.root_node_id content.nodes) root) at_root (tt, tt) visit

    All-IsReached :
        (visited : List String)
        → All (IsReached content) visited
        → AreDistinct visited
        → length visited ≡ length content.nodes
        → All (IsReached content) (keys content.nodes)
    All-IsReached visited reached distinct same =
        All-weaken _ (IsReached content) (keys content.nodes)
          (λ id met.
            All-has (IsReached content) id visited
              (IsWithinList-all visited (keys content.nodes) distinct
                (All-weaken (IsReached content) _ visited (λ x r. has-keys x content.nodes ∙ r.0)
                  reached)
                (same ∙ sym (length-map content.nodes (λ entry. entry.0))) id met)
              reached)
          (IsWithinList-self (keys content.nodes))

    -- An accepted content is a tree that hangs on its root: it has version 1, between 1 and 10000
    -- nodes and a known direction, its root has no parent, every node can be looked up under its own
    -- id, has a text that is not blank, a text and a note within their limits, an order that is a
    -- whole number and not negative, and no parent or one that is present, every index of the nodes
    -- is the root's or is reached from the root in at most 256 steps from parent to child, and the
    -- links have distinct ids and join two different ids that are present. An id is present if the
    -- content has a node under it, or if it is the name of a member that every object inherits.
    pub validate_mind_map_content-IsAccepted :
        validate_mind_map_content id_le content ≡ none → IsAccepted content
    validate_mind_map_content-IsAccepted h =
        let (versioned, some_nodes, few_nodes, rooted, directed, checked, tree) = validate-none h in
        let sound = check_nodes-none content.nodes (values content.nodes) checked in
        let (marks, visit, same, links) = check_tree-none tree in
        let reached = visited-AreReached sound rooted marks visit in
        record {
          versioned = versioned;
          some_nodes = some_nodes;
          few_nodes = few_nodes;
          rooted = rooted;
          directed = directed;
          sound = sound;
          reached = All-IsReached marks.visited reached.0 reached.1 same;
          linked = check_links-none content.nodes [] content.links links;
        }
