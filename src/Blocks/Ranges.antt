-- ===== src/Blocks/Ranges.antt =====
-- src/editor/blocks/blockRanges.ts, and normalizeIndentLevel of blockIndent.ts beside it. The document is
-- the list of its children; `node_at` is `doc.nodeAt` of the editor library.
use my_note_book.Base.{
  ℕ, ◌+◌, nat_eq, ltb, leb, ℤ, clamp_integer, Bool, true, false, not, ◌&&◌, String, Option, none,
  some, List, [], ◌∷◌, if◌then◌else◌, ◌==◌, trim,
}

-- What is read of a node. The indent level is what `Math.floor` makes of its attribute as a number, or
-- `none` if that is not finite.
pub record Node : Type 0 where
  pub node_size : ℕ
  pub type_name : String
  pub is_block : Bool
  pub text_content : String
  pub indent_level : Option ℤ

pub record TopLevelBlock : Type 0 where
  pub node : Node
  pub pos : ℕ

pub record BlockRange : Type 0 where
  pub from : ℕ
  pub to : ℕ

unfoldable pub normalize_indent_level : Option ℤ → ℕ
normalize_indent_level none = 0
normalize_indent_level (some level) = clamp_integer level 0 6

unfoldable pub get_indent_level : Node → ℕ
get_indent_level node = normalize_indent_level node.indent_level

unfoldable pub is_controllable_block : Node → Bool
is_controllable_block node =
    node.is_block && not (node.type_name == "listItem") && not (node.type_name == "taskItem")

unfoldable pub is_empty_paragraph : Node → Bool
is_empty_paragraph node = (node.type_name == "paragraph") && (trim node.text_content == "")

abbrev pub block_at : Node → ℕ → TopLevelBlock
block_at node pos = record { node = node; pos = pos }

-- The loop of `getTopLevelBlocksInRange`.
unfoldable pub blocks_from : ℕ → ℕ → List Node → ℕ → List TopLevelBlock
blocks_from from to [] offset = []
blocks_from from to (node ∷ nodes) offset =
    let others = blocks_from from to nodes (offset + node.node_size) in
    if leb from offset && leb (offset + node.node_size) to
    then block_at node offset ∷ others
    else others

unfoldable pub get_top_level_blocks_in_range : List Node → ℕ → ℕ → List TopLevelBlock
get_top_level_blocks_in_range doc from to = blocks_from from to doc 0

-- The loop of `getTopLevelBlockAtSelection`.
unfoldable pub block_around : ℕ → List Node → ℕ → Option TopLevelBlock
block_around selection_from [] offset = none
block_around selection_from (node ∷ nodes) offset =
    let others = block_around selection_from nodes (offset + node.node_size) in
    if leb offset selection_from && leb selection_from (offset + node.node_size)
    then some (block_at node offset)
    else others

unfoldable pub get_top_level_block_at_selection : List Node → ℕ → Option TopLevelBlock
get_top_level_block_at_selection doc selection_from = block_around selection_from doc 0

-- The loop of `getMovableBlockRange`, with `foundSource` and `rangeEnd`.
unfoldable pub range_end_from : ℕ → ℕ → List Node → ℕ → Bool → ℕ → ℕ
range_end_from source_pos source_indent [] offset found_source range_end = range_end
range_end_from source_pos source_indent (node ∷ nodes) offset found_source range_end =
    let node_end : ℕ = offset + node.node_size in
    elim (nat_eq offset source_pos) [
      | true ↦ range_end_from source_pos source_indent nodes node_end true node_end
      | false ↦ elim found_source [
        | true ↦ elim (leb (get_indent_level node) source_indent) [
          | true ↦ range_end
          | false ↦ range_end_from source_pos source_indent nodes node_end true node_end
        ]
        | false ↦ range_end_from source_pos source_indent nodes node_end false range_end
      ]
    ]

unfoldable pub get_movable_block_range : (ℕ → Option Node) → List Node → ℕ → BlockRange
get_movable_block_range node_at doc source_pos = elim (node_at source_pos) [
  | none ↦ record { from = source_pos; to = source_pos }
  | some source_node ↦ record {
    from = source_pos;
    to =
        range_end_from source_pos (get_indent_level source_node) doc 0 false
          (source_pos + source_node.node_size);
  }
]

-- The loop of `getSwapTargetBlock`.
unfoldable pub swap_target_from : TopLevelBlock → ℕ → List Node → ℕ → TopLevelBlock → TopLevelBlock
swap_target_from target_block source_indent [] offset candidate = candidate
swap_target_from target_block source_indent (node ∷ nodes) offset candidate =
    let node_end : ℕ = offset + node.node_size in
    let better =
      if leb (get_indent_level node) source_indent then block_at node offset else candidate in
    elim (ltb target_block.pos offset) [
      | true ↦ candidate
      | false ↦ elim (leb offset target_block.pos && ltb target_block.pos node_end) [
        | true ↦ better
        | false ↦ swap_target_from target_block source_indent nodes node_end better
      ]
    ]

unfoldable pub get_swap_target_block : List Node → TopLevelBlock → ℕ → TopLevelBlock
get_swap_target_block doc target_block source_indent =
    swap_target_from target_block source_indent doc 0 target_block
