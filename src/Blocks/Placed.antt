-- ===== src/Blocks/Placed.antt =====
-- Sizes and positions of consecutive nodes, and the nodes that are indented deeper.
use my_note_book.Base.{
  ℕ, ◌+◌, ◌≤◌, leb, Bool, true, false, List, [], ◌∷◌, ◌++◌, if◌then◌else◌, All, arith, ◌≡◌, refl,
  ap, ◌∙◌,
}
use my_note_book.Blocks.Ranges.{
  Node, TopLevelBlock, block_at, get_indent_level, blocks_from, get_top_level_blocks_in_range,
}

abbrev pub size_of_all : List Node → ℕ
size_of_all [] = 0
size_of_all (node ∷ nodes) = node.node_size + size_of_all nodes

-- A node takes up some room.
abbrev pub AreSized : List Node → Type 0
AreSized nodes = All (λ node. 1 ≤ node.node_size) nodes

-- Each node with its position, the first at `offset`.
abbrev pub placed : ℕ → List Node → List TopLevelBlock
placed offset [] = []
placed offset (node ∷ nodes) = block_at node offset ∷ placed (offset + node.node_size) nodes

-- The nodes up to the first that is not indented deeper than `indent`, and those from it on.
abbrev pub deeper : ℕ → List Node → List Node
deeper indent [] = []
deeper indent (node ∷ nodes) =
    let others = deeper indent nodes in
    if leb (get_indent_level node) indent then [] else node ∷ others

abbrev pub beyond : ℕ → List Node → List Node
beyond indent [] = []
beyond indent (node ∷ nodes) =
    let others = beyond indent nodes in
    if leb (get_indent_level node) indent then node ∷ nodes else others

pub deeper-beyond :
    (indent : ℕ) (nodes : List Node) → deeper indent nodes ++ beyond indent nodes ≡ nodes
deeper-beyond indent [] = refl
deeper-beyond indent (node ∷ nodes) =
    by_test (leb (get_indent_level node) indent) (deeper-beyond indent nodes)
  where
    by_test :
        (stops : Bool)
        → deeper indent nodes ++ beyond indent nodes ≡ nodes
        → (if stops then [] else node ∷ deeper indent nodes)
            ++ (if stops then node ∷ nodes else beyond indent nodes)
          ≡ node ∷ nodes
    by_test true h = refl
    by_test false h = ap (λ others. node ∷ others) h

module _ (from to : ℕ) where
  after_range :
      (nodes : List Node) (offset : ℕ)
      → AreSized nodes
      → to ≤ offset
      → blocks_from from to nodes offset ≡ []
  unfolding blocks_from
  after_range [] offset sized late = refl
  after_range (node ∷ nodes) offset (big, sized) late =
      ground
        (arith, late, big, after_range nodes (offset + node.node_size) sized (omega (arith, late)))

  in_range :
      (moved after : List Node) (offset : ℕ)
      → AreSized moved
      → AreSized after
      → from ≤ offset
      → offset + size_of_all moved ≡ to
      → blocks_from from to (moved ++ after) offset ≡ placed offset moved
  unfolding blocks_from
  in_range [] after offset sized rest early sum = after_range after offset rest (omega (arith, sum))
  in_range (node ∷ moved) after offset (big, sized) rest early sum = ground (
    arith,
    early,
    sum,
    in_range moved after (offset + node.node_size) sized rest (omega (arith, early))
        (omega (arith, sum)),
  )

  before_range :
      (before others : List Node) (offset : ℕ)
      → AreSized before
      → offset + size_of_all before ≡ from
      → blocks_from from to (before ++ others) offset ≡ blocks_from from to others from
  unfolding blocks_from
  before_range [] others offset sized sum = ap (blocks_from from to others) (omega (arith, sum))
  before_range (node ∷ before) others offset (big, sized) sum = ground (
    arith,
    big,
    sum,
    before_range before others (offset + node.node_size) sized (omega (arith, sum)),
  )

-- The blocks of a stretch of the document are just the nodes in it, with their positions.
pub blocks_in_range_lem :
    (before moved after : List Node)
    → AreSized before
    → AreSized moved
    → AreSized after
    → get_top_level_blocks_in_range
        (before ++ (moved ++ after))
        (size_of_all before)
        (size_of_all before + size_of_all moved)
      ≡ placed (size_of_all before) moved
unfolding get_top_level_blocks_in_range
blocks_in_range_lem before moved after sized_before sized_moved sized_after =
    let from = size_of_all before in
    let to = size_of_all before + size_of_all moved in
    before_range from to before (moved ++ after) 0 sized_before (omega arith)
    ∙ in_range from to moved after from sized_moved sized_after (omega arith) refl
