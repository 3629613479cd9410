-- ===== src/Blocks/Tests.antt =====
-- A document of three paragraphs, the second indented.
use my_note_book.Base.{
  ℕ, pos, true, nat_eq, Option, none, some, List, [], ◌∷◌, keep, if◌then◌else◌, arith, ◌≡◌, refl,
}
use my_note_book.Blocks.Ranges.{
  is_controllable_block, Node, block_at, get_indent_level, get_movable_block_range,
  get_top_level_blocks_in_range, get_swap_target_block,
}
use my_note_book.Blocks.Controllable.{
  controllable_from, get_controllable_top_level_blocks, get_adjacent_controllable_blocks,
}
use my_note_book.Blocks.Neighbours.{first_of, last_of, get_adjacent_controllable_blocks_lem}
use my_note_book.Blocks.Placed.{placed, deeper}
use my_note_book.Blocks.Movable.{get_movable_block_range_lem}
use my_note_book.Blocks.Swap.{last_or, fits_indent, get_swap_target_block_lem}

abbrev a_paragraph : ℕ → Node
a_paragraph level = record {
  node_size = 4;
  type_name = "paragraph";
  is_block = true;
  text_content = "ab";
  indent_level = some (pos level);
}

abbrev three : List Node
three = a_paragraph 0 ∷ a_paragraph 0 ∷ a_paragraph 1 ∷ []

abbrev at_four : ℕ → Option Node
at_four n = if nat_eq n 4 then some (a_paragraph 0) else none

a_paragraph-controllable : is_controllable_block (a_paragraph 0) ≡ true
unfolding is_controllable_block
a_paragraph-controllable = refl

get_movable_block_range_example :
    ((get_movable_block_range at_four three 4).from ≡ 4)
    × (get_top_level_blocks_in_range three
          (get_movable_block_range at_four three 4).from
          (get_movable_block_range at_four three 4).to
        ≡ placed 4 (a_paragraph 0 ∷ deeper (get_indent_level (a_paragraph 0)) (a_paragraph 1 ∷ [])))
get_movable_block_range_example =
    get_movable_block_range_lem at_four (a_paragraph 0 ∷ []) (a_paragraph 1 ∷ []) (a_paragraph 0)
      (omega arith, tt) (omega arith) (omega arith, tt) refl

get_swap_target_block_example :
    get_swap_target_block three (block_at (a_paragraph 0) 4) 0
    ≡ last_or
        (block_at (a_paragraph 0) 4)
        (keep (fits_indent 0) (placed 0 (a_paragraph 0 ∷ a_paragraph 0 ∷ [])))
get_swap_target_block_example =
    get_swap_target_block_lem (a_paragraph 0 ∷ []) (a_paragraph 1 ∷ []) (a_paragraph 0) 0
      (omega arith, tt) (omega arith)

get_adjacent_controllable_blocks_example : get_adjacent_controllable_blocks three 4 ≡ record {
  previous = last_of (get_controllable_top_level_blocks (a_paragraph 0 ∷ []));
  next = first_of (controllable_from (a_paragraph 1 ∷ []) 8);
}
get_adjacent_controllable_blocks_example =
    get_adjacent_controllable_blocks_lem (a_paragraph 0 ∷ []) (a_paragraph 1 ∷ []) (a_paragraph 0)
      (omega arith, tt) a_paragraph-controllable
