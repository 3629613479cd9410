-- ===== src/Blocks/Controllable.antt =====
-- The controllable blocks and their neighbours: getControllableTopLevelBlocks and
-- getAdjacentControllableBlocks of src/editor/blocks/blockRanges.ts.
use my_note_book.Base.{
  ℕ, suc, ◌+◌, ◌-◌, nat_eq, ltb, Option, none, some, List, [], ◌∷◌, length, get_elem?,
  if◌then◌else◌,
}
use my_note_book.Blocks.Ranges.{Node, TopLevelBlock, block_at, is_controllable_block}

unfoldable pub controllable_from : List Node → ℕ → List TopLevelBlock
controllable_from [] offset = []
controllable_from (node ∷ nodes) offset =
    let others = controllable_from nodes (offset + node.node_size) in
    if is_controllable_block node then block_at node offset ∷ others else others

unfoldable pub get_controllable_top_level_blocks : List Node → List TopLevelBlock
get_controllable_top_level_blocks doc = controllable_from doc 0

-- `findIndex`; `none` is -1.
unfoldable pub index_of_pos : ℕ → List TopLevelBlock → Option ℕ
index_of_pos pos [] = none
index_of_pos pos (block ∷ blocks) =
    let rest = index_of_pos pos blocks in
    if nat_eq block.pos pos then some 0 else elim rest [ none ↦ none | some i ↦ some (suc i) ]

pub record AdjacentBlocks : Type 0 where
  pub previous : Option TopLevelBlock
  pub next : Option TopLevelBlock

unfoldable pub adjacent_at : List TopLevelBlock → Option ℕ → AdjacentBlocks
adjacent_at blocks none = record { previous = none; next = none }
adjacent_at blocks (some index) = record {
  previous = if ltb 0 index then get_elem? blocks (index - 1) else none;
  next = if ltb index (length blocks - 1) then get_elem? blocks (suc index) else none;
}

unfoldable pub get_adjacent_controllable_blocks : List Node → ℕ → AdjacentBlocks
get_adjacent_controllable_blocks doc pos =
    let blocks = get_controllable_top_level_blocks doc in
    adjacent_at blocks (index_of_pos pos blocks)
