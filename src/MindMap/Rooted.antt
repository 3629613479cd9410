-- ===== src/MindMap/Rooted.antt =====
-- The visit in validateMindMapContent of src/models/workspace/mindMap.ts finds a rooted tree.
use mathlib.Core.Path.{subst}
use my_note_book.Base.{
  ℕ, zero, suc, ◌+◌, ◌≤◌, String, Bool, true, false, List, [], ◌∷◌, is_some, Entries, lookup, has,
  add, remove, All, All-add, ap, AreDistinct, add-AreDistinct, arith, inl, inr, ◌⊎◌, ◌≡◌, refl, sym,
}
use my_note_book.MindMap.Content.{MindMapNode, MindMapContent, values, children_at, group_children}
use my_note_book.MindMap.Validate.{Marks, Visit, failed, went, visit_children, visit_node}
use my_note_book.MindMap.Accepted.{IsSoundNode}
use my_note_book.MindMap.Below.{IsBelow, children-IsBelow}

went-injective : {a b : Marks} → went a ≡ went b → a ≡ b
went-injective {a} {b} e = ap marks_of e
  where
    marks_of : Visit → Marks
    marks_of (failed error) = a
    marks_of (went marks) = marks

module _ {V : Type 0} where
  module _ (content : MindMapContent V) where
    -- An index of the content at most 256 steps below the root.
    abbrev pub IsReached : String → Type 0
    IsReached id =
        (is_some (lookup id content.nodes) ≡ true)
        × ((depth : ℕ) × (depth ≤ 256) × IsBelow content depth id)

    abbrev AreReached : Marks → Type 0
    AreReached marks = All IsReached marks.visited × AreDistinct marks.visited

    abbrev IsVisit : ℕ → (String → Marks → Visit) → Type 0
    IsVisit depth visiting =
        (id : String) (marks after : Marks)
        → is_some (lookup id content.nodes) ≡ true
        → IsBelow content depth id
        → AreReached marks
        → visiting id marks ≡ went after
        → AreReached after

    visit_children_next :
        (visiting : String → Marks → Visit) (child : MindMapNode V)
        (children : List (MindMapNode V)) (marks after : Marks)
        → visit_children visiting (child ∷ children) marks ≡ went after
        → (between : Marks) × (visiting child.id marks ≡ went between)
          × (visit_children visiting children between ≡ went after)
    unfolding visit_children
    visit_children_next visiting child children marks after e =
        by_visit (visiting child.id marks) refl e
      where
        by_visit :
            (visit : Visit)
            → visiting child.id marks ≡ visit
            → elim visit [
              | failed error ↦ failed error
              | went between ↦ visit_children visiting children between
            ]
              ≡ went after
            → (between : Marks) × (visiting child.id marks ≡ went between)
              × (visit_children visiting children between ≡ went after)
        by_visit (failed error) found h = ground arith
        by_visit (went between) found h = (between, found, h)

    visit_children-AreReached :
        (depth : ℕ) (visiting : String → Marks → Visit)
        → IsVisit depth visiting
        → (children : List (MindMapNode V)) (marks after : Marks)
        → All
            (λ child.
              (is_some (lookup child.id content.nodes) ≡ true) × IsBelow content depth child.id)
            children
        → AreReached marks
        → visit_children visiting children marks ≡ went after
        → AreReached after
    unfolding visit_children
    visit_children-AreReached depth visiting visits [] marks after below h e =
        subst AreReached (went-injective e) h
    visit_children-AreReached depth visiting visits (child ∷ children) marks after (here, below) h
          e =
        let step = visit_children_next visiting child children marks after e in
        visit_children-AreReached depth visiting visits children step.0 after below
          (visits child.id marks step.0 here.0 here.1 h step.1) step.2

    abbrev HasVisited : ℕ → Entries (List (MindMapNode V)) → String → Marks → Marks → Type 0
    HasVisited rounds lists id marks after =
        (after ≡ marks)
        ⊎ ((between : Marks) × (visit_children (visit_node rounds lists) (children_at lists id)
                (record marks { visiting = add id marks.visiting })
              ≡ went between)
            × (record { visiting = remove id between.visiting; visited = add id between.visited }
                ≡ after))

    visit_node_next :
        (rounds : ℕ) (lists : Entries (List (MindMapNode V))) (id : String) (marks after : Marks)
        → visit_node (suc rounds) lists id marks ≡ went after
        → HasVisited rounds lists id marks after
    unfolding visit_node
    visit_node_next rounds lists id marks after e = by_visiting (has id marks.visiting) e
      where
        inner : Visit
        inner =
            visit_children (visit_node rounds lists) (children_at lists id)
              (record marks { visiting = add id marks.visiting })

        leave : Visit → Visit
        leave (failed error) = failed error
        leave (went between) =
            went
              (record { visiting = remove id between.visiting; visited = add id between.visited })

        by_children :
            (visit : Visit)
            → inner ≡ visit
            → leave visit ≡ went after
            → HasVisited rounds lists id marks after
        by_children (failed error) found h = ground arith
        by_children (went between) found h = inr (between, found, went-injective h)

        by_visited :
            (before : Bool)
            → elim before [ true ↦ went marks | false ↦ leave inner ] ≡ went after
            → HasVisited rounds lists id marks after
        by_visited true h = inl (sym (went-injective h))
        by_visited false h = by_children inner refl h

        by_visiting :
            (now : Bool)
            → elim now [
              | true ↦ failed "思维导图不能包含循环父子关系。"
              | false ↦ elim (has id marks.visited) [ true ↦ went marks | false ↦ leave inner ]
            ]
              ≡ went after
            → HasVisited rounds lists id marks after
        by_visiting true h = ground arith
        by_visiting false h = by_visited (has id marks.visited) h

    pub visit_node-AreReached :
        (id_le : String → String → Bool)
        → All (IsSoundNode content.nodes) (values content.nodes)
        → (rounds depth : ℕ) → depth + rounds ≡ 257
        → IsVisit depth (visit_node rounds (group_children id_le content))
    unfolding visit_node
    visit_node-AreReached id_le sound zero depth bound id marks after met below h e =
        ground (arith, e)
    visit_node-AreReached id_le sound (suc rounds) depth bound id marks after met below h e =
        elim (visit_node_next rounds (group_children id_le content) id marks after e) [
          | inl same ↦ subst AreReached (sym same) h
          | inr (between, inside, last) ↦
              let reached =
                visit_children-AreReached (suc depth)
                  (visit_node rounds (group_children id_le content))
                  (visit_node-AreReached id_le sound rounds (suc depth) (omega (arith, bound)))
                  (children_at (group_children id_le content) id)
                  (record marks { visiting = add id marks.visiting }) between
                  (children-IsBelow content id_le sound depth id below) h inside in
              subst AreReached last (
                All-add IsReached id between.visited (met, (depth, omega (arith, bound), below))
                    reached.0,
                add-AreDistinct id between.visited reached.1,
              )
        ]
