-- ===== src/MindMap/Parents.antt =====
-- The parents of the nodes that validateMindMapContent of src/models/workspace/mindMap.ts accepts.
use mathlib.Core.Path.{subst}
use my_note_book.Base.{
  ℕ, String, Bool, true, Option, none, some, List, [], ◌∷◌, is_some, Entries, lookup, All, All-has,
  AreDistinct, IsAmong, eq_of_true, eq_iff, eq_refl, arith, ◌⊎◌, inl, inr, ◌≡◌, refl, sym, ap, ◌∙◌,
}
use my_note_book.MindMap.Content.{MindMapNode, MindMapContent, values}
use my_note_book.MindMap.Validate.{has_own_id, is_root, validate_mind_map_content}
use my_note_book.MindMap.Accepted.{IsSoundNode}
use my_note_book.MindMap.Below.{IsBelow, at_root, child_of, is_some-own}
use my_note_book.MindMap.Rooted.{IsReached}
use my_note_book.MindMap.Acceptance.{
  keys, has-keys, IsAccepted, validate_mind_map_content-IsAccepted,
}

module _ {V : Type 0} where
  -- The id is that of a node that hangs on another one.
  abbrev Hangs : MindMapContent V → String → Type 0
  Hangs content id =
      (node : MindMapNode V) × IsAmong node (values content.nodes)
      × (node.id ≡ id)
      × ((parent : String) × (node.parent_id ≡ some parent)
          × ((depth : ℕ) × IsBelow content depth parent))

  IsBelow-cases :
      {content : MindMapContent V} {depth : ℕ} {id : String}
      → IsBelow content depth id
      → (id ≡ content.root_node_id) ⊎ Hangs content id
  IsBelow-cases at_root = inl refl
  IsBelow-cases (child_of {depth} {parent} node below among e) =
      inr (node, among, refl, (parent, e, (depth, below)))

  stored_at :
      (node : MindMapNode V) (entries : Entries (MindMapNode V))
      → AreDistinct (keys entries)
      → IsAmong node (values entries)
      → (key : String) × (lookup key entries ≡ some node)
  unfolding lookup
  stored_at node [] distinct among = absurd among
  stored_at node ((key, found) ∷ entries) distinct (inl e) =
      (key, rw (eq_refl key) (ap some (sym e)))
  stored_at node ((key, found) ∷ entries) (fresh, distinct) (inr among) =
      let (other, at) = stored_at node entries distinct among in
      (other, ground (arith, at, fresh, has-keys other entries, eq_iff key other))

  All-IsAmong {κ} :
      (Q : MindMapNode V → Type κ) (node : MindMapNode V) (nodes : List (MindMapNode V))
      → IsAmong node nodes
      → All Q nodes
      → Q node
  All-IsAmong Q node [] among h = absurd among
  All-IsAmong Q node (x ∷ nodes) (inl e) (q, h) = subst Q (sym e) q
  All-IsAmong Q node (x ∷ nodes) (inr among) (q, h) = All-IsAmong Q node nodes among h

  some-injective : {a b : MindMapNode V} → some a ≡ some b → a ≡ b
  some-injective e = cc

  module _ (content : MindMapContent V) (accepted : IsAccepted content) where
    own_id :
        (node : MindMapNode V)
        → IsAmong node (values content.nodes)
        → has_own_id (lookup node.id content.nodes) node.id ≡ true
    own_id node among =
        (All-IsAmong (IsSoundNode content.nodes) node (values content.nodes) among accepted.sound).0

    root_met : is_some (lookup content.root_node_id content.nodes) ≡ true
    root_met = by_root (lookup content.root_node_id content.nodes) accepted.rooted
      where
        by_root : (found : Option (MindMapNode V)) → is_root found ≡ true → is_some found ≡ true
        by_root none h = ground arith
        by_root (some node) h = refl

    below_met :
        {depth : ℕ} {id : String}
        → IsBelow content depth id
        → is_some (lookup id content.nodes) ≡ true
    below_met {depth} {id} below = elim (IsBelow-cases below) [
      | inl root ↦ rw root root_met
      | inr (node, among, e, rest) ↦
          subst (λ k. is_some (lookup k content.nodes) ≡ true) e
            (is_some-own (lookup node.id content.nodes) node.id (own_id node among))
    ]

    cases_at :
        (key : String) (node : MindMapNode V)
        → lookup key content.nodes ≡ some node
        → (key ≡ content.root_node_id) ⊎ Hangs content key
    cases_at key node found =
        IsBelow-cases
          (All-has (IsReached content) key (keys content.nodes)
            (has-keys key content.nodes ∙ ap is_some found) accepted.reached).1.2

    -- A node that hangs on another one is stored under its id.
    hanging_at :
        (key parent : String) (node : MindMapNode V)
        → lookup key content.nodes ≡ some node
        → node.parent_id ≡ some parent
        → node.id ≡ key
    hanging_at key parent node found e = elim (cases_at key node found) [
      | inl root ↦
          let rooted : is_root (some node) ≡ true =
            subst (λ o. is_root o ≡ true) found
              (subst (λ k. is_root (lookup k content.nodes) ≡ true) (sym root) accepted.rooted) in
          ground (arith, rooted, e)
      | inr (other, among, at, rest) ↦
          let own : has_own_id (lookup key content.nodes) key ≡ true =
            subst (λ k. has_own_id (lookup k content.nodes) k ≡ true) at (own_id other among) in
          eq_of_true node.id key (subst (λ o. has_own_id o key ≡ true) found own)
    ]

-- In an accepted content, no two of whose indices are the same, every node but the one under the
-- index of the root is stored under its own id and has a parent that is a node of the content.
pub validate_mind_map_content-parents :
    {V : Type 0} (id_le : String → String → Bool) (content : MindMapContent V) (key : String)
    (node : MindMapNode V)
    → validate_mind_map_content id_le content ≡ none
    → AreDistinct (keys content.nodes)
    → lookup key content.nodes ≡ some node
    → (key ≡ content.root_node_id)
      ⊎ ((node.id ≡ key)
          × ((parent : String) × (node.parent_id ≡ some parent)
              × (is_some (lookup parent content.nodes) ≡ true)))
validate_mind_map_content-parents id_le content key node h distinct found =
    let accepted = validate_mind_map_content-IsAccepted id_le content h in
    elim (cases_at content accepted key node found) [
      | inl root ↦ inl root
      | inr (other, among, e, (parent, up, (depth, below))) ↦
          let (place, at) = stored_at other content.nodes distinct among in
          let here = hanging_at content accepted place parent other at up in
          let same : node ≡ other =
            some-injective (sym found ∙ (ap (λ k. lookup k content.nodes) (sym e ∙ here) ∙ at)) in
          inr (
            ap (λ n. n.id) same ∙ e,
            (parent, ap (λ n. n.parent_id) same ∙ up, below_met content accepted below),
          )
    ]
