-- ===== src/Blocks/Movable.antt =====
-- What moves with a block: getMovableBlockRange of src/editor/blocks/blockRanges.ts.
use mathlib.Core.Path.{subst}
use my_note_book.Base.{
  ℕ, ◌+◌, ◌≤◌, ◌<◌, leb, Bool, true, false, Option, none, some, List, [], ◌∷◌, ◌++◌, if◌then◌else◌,
  arith, Bool-cases, inl, inr, ◌≡◌, sym, ap, ◌∙◌,
}
use my_note_book.Blocks.Ranges.{
  Node, BlockRange, get_indent_level, range_end_from, get_movable_block_range,
  get_top_level_blocks_in_range,
}
use my_note_book.Blocks.Placed.{
  size_of_all, AreSized, placed, deeper, beyond, deeper-beyond, blocks_in_range_lem,
}

module _ (source_pos indent : ℕ) where
  range_end-after :
      (nodes : List Node) (offset : ℕ)
      → source_pos < offset
      → range_end_from source_pos indent nodes offset true offset
        ≡ offset + size_of_all (deeper indent nodes)
  unfolding range_end_from
  range_end-after [] offset late = omega arith
  range_end-after (node ∷ nodes) offset late =
      let rest = range_end-after nodes (offset + node.node_size) (omega (arith, late)) in
      elim (Bool-cases (leb (get_indent_level node) indent)) [
        | inl stops ↦ ground (arith, late, stops)
        | inr deep ↦ ground (arith, late, deep, rest)
      ]

  range_end-before :
      (before : List Node) (source : Node) (rest : List Node) (offset range_end : ℕ)
      → AreSized before
      → 1 ≤ source.node_size
      → offset + size_of_all before ≡ source_pos
      → range_end_from source_pos indent (before ++ source ∷ rest) offset false range_end
        ≡ source_pos + source.node_size + size_of_all (deeper indent rest)
  unfolding range_end_from
  range_end-before [] source rest offset range_end sized big here = ground (
    arith,
    here,
    big,
    range_end-after rest (offset + source.node_size) (omega (arith, here, big)),
  )
  range_end-before (node ∷ before) source rest offset range_end (wide, sized) big here = ground (
    arith,
    here,
    wide,
    range_end-before before source rest (offset + node.node_size) range_end sized big
        (omega (arith, here)),
  )

get_movable_block_range-at :
    (node_at : ℕ → Option Node) (before rest : List Node) (source : Node)
    → AreSized before
    → 1 ≤ source.node_size
    → node_at (size_of_all before) ≡ some source
    → get_movable_block_range node_at (before ++ source ∷ rest) (size_of_all before) ≡ record {
      from = size_of_all before;
      to = size_of_all before + size_of_all (source ∷ deeper (get_indent_level source) rest);
    }
unfolding get_movable_block_range
get_movable_block_range-at node_at before rest source sized big here =
    by_node (node_at (size_of_all before)) here
  where
    range_from : ℕ → BlockRange
    range_from to = record { from = size_of_all before; to = to }

    by_node :
        (found : Option Node)
        → found ≡ some source
        → elim found [
          | none ↦ range_from (size_of_all before)
          | some node ↦ range_from (
              range_end_from
                (size_of_all before)
                (get_indent_level node)
                (before ++ source ∷ rest)
                0
                false
                (size_of_all before + node.node_size))
        ]
          ≡ range_from
              (size_of_all before + size_of_all (source ∷ deeper (get_indent_level source) rest))
    by_node found e =
        subst
          (λ f.
            elim f [
              | none ↦ range_from (size_of_all before)
              | some node ↦ range_from (
                  range_end_from (size_of_all before) (get_indent_level node)
                    (before ++ source ∷ rest) 0 false (size_of_all before + node.node_size))
            ]
            ≡ range_from
                (size_of_all before + size_of_all (source ∷ deeper (get_indent_level source) rest)))
          (sym e)
          (ap range_from (
            omega (
              arith,
              range_end-before (size_of_all before) (get_indent_level source) before source rest 0
                  (size_of_all before + source.node_size) sized big (omega arith),
            )))

All-deeper :
    (indent : ℕ) (nodes : List Node)
    → AreSized nodes
    → AreSized (deeper indent nodes) × AreSized (beyond indent nodes)
All-deeper indent [] sized = (tt, tt)
All-deeper indent (node ∷ nodes) (big, sized) =
    by_test (leb (get_indent_level node) indent) (All-deeper indent nodes sized)
  where
    by_test :
        (stops : Bool)
        → AreSized (deeper indent nodes) × AreSized (beyond indent nodes)
        → AreSized (if stops then [] else node ∷ deeper indent nodes)
          × AreSized (if stops then node ∷ nodes else beyond indent nodes)
    by_test true h = (tt, (big, sized))
    by_test false h = ((big, h.0), h.1)

-- Where `doc.nodeAt` finds the block at its position and no node is without room, the range that moves
-- with a block starts at the block, and the blocks in that range are the block and those that follow
-- it directly with a deeper indent, all of them and no others, with their positions.
pub get_movable_block_range_lem :
    (node_at : ℕ → Option Node) (before rest : List Node) (source : Node)
    → AreSized before
    → 1 ≤ source.node_size
    → AreSized rest
    → node_at (size_of_all before) ≡ some source
    → let doc = before ++ source ∷ rest in
      let range = get_movable_block_range node_at doc (size_of_all before) in
      (range.from ≡ size_of_all before)
      × (get_top_level_blocks_in_range doc range.from range.to
          ≡ placed (size_of_all before) (source ∷ deeper (get_indent_level source) rest))
get_movable_block_range_lem node_at before rest source sized big sized_rest here =
    let indent = get_indent_level source in
    let parts = All-deeper indent rest sized_rest in
    let found = get_movable_block_range-at node_at before rest source sized big here in
    let whole =
      blocks_in_range_lem before (source ∷ deeper indent rest) (beyond indent rest) sized
        (big, parts.0) parts.1 in
    (
      ap (λ range. range.from) found,
      ap (λ range. get_top_level_blocks_in_range (before ++ source ∷ rest) range.from range.to)
            found
          ∙ subst
              (λ r.
                get_top_level_blocks_in_range (before ++ source ∷ r) (size_of_all before)
                  (size_of_all before + size_of_all (source ∷ deeper indent rest))
                ≡ placed (size_of_all before) (source ∷ deeper indent rest))
              (deeper-beyond indent rest) whole,
    )
