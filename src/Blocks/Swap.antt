-- ===== src/Blocks/Swap.antt =====
-- The block to swap with: getSwapTargetBlock of src/editor/blocks/blockRanges.ts.
use my_note_book.Base.{
  ℕ, ◌+◌, ◌≤◌, leb, Bool, List, [], ◌∷◌, ◌++◌, keep, arith, Bool-cases, inl, inr, ◌≡◌,
}
use my_note_book.Blocks.Ranges.{
  Node, TopLevelBlock, block_at, get_indent_level, swap_target_from, get_swap_target_block,
}
use my_note_book.Blocks.Placed.{size_of_all, AreSized, placed}

-- The last of some blocks, or the first one given if there are none.
abbrev pub last_or : TopLevelBlock → List TopLevelBlock → TopLevelBlock
last_or block [] = block
last_or block (next ∷ others) = last_or next others

abbrev pub fits_indent : ℕ → TopLevelBlock → Bool
fits_indent indent block = leb (get_indent_level block.node) indent

module _ (indent : ℕ) (target : TopLevelBlock) where
  swap_target_from-last :
      (before after : List Node) (node : Node) (offset : ℕ) (candidate : TopLevelBlock)
      → AreSized before
      → 1 ≤ node.node_size
      → offset + size_of_all before ≡ target.pos
      → swap_target_from target indent (before ++ node ∷ after) offset candidate
        ≡ last_or candidate (keep (fits_indent indent) (placed offset (before ++ node ∷ [])))
  unfolding swap_target_from
  swap_target_from-last [] after node offset candidate sized big here =
      elim (Bool-cases (leb (get_indent_level node) indent)) [
        | inl fits ↦ ground (arith, here, big, fits)
        | inr deep ↦ ground (arith, here, big, deep)
      ]
  swap_target_from-last (first ∷ before) after node offset candidate (wide, sized) big here =
      elim (Bool-cases (leb (get_indent_level first) indent)) [
        | inl fits ↦ ground (
          arith,
          here,
          wide,
          fits,
          swap_target_from-last before after node (offset + first.node_size) (block_at first offset)
              sized big (omega (arith, here)),
        )
        | inr deep ↦ ground (
          arith,
          here,
          wide,
          deep,
          swap_target_from-last before after node (offset + first.node_size) candidate sized big
              (omega (arith, here)),
        )
      ]

-- Where no node is without room, the block to swap with is the last one, up to the target and with it,
-- that is not indented deeper than the source, or the target itself if there is none.
pub get_swap_target_block_lem :
    (before after : List Node) (node : Node) (source_indent : ℕ)
    → AreSized before
    → 1 ≤ node.node_size
    → let target = block_at node (size_of_all before) in
      get_swap_target_block (before ++ node ∷ after) target source_indent
      ≡ last_or target (keep (fits_indent source_indent) (placed 0 (before ++ node ∷ [])))
unfolding get_swap_target_block
get_swap_target_block_lem before after node source_indent sized big =
    let target = block_at node (size_of_all before) in
    swap_target_from-last source_indent target before after node 0 target sized big (omega arith)
