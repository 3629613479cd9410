-- ===== src/Blocks/Neighbours.antt =====
-- The neighbours of a block: getAdjacentControllableBlocks of src/editor/blocks/blockRanges.ts.
use mathlib.Core.Path.{subst}
use my_note_book.Base.{
  ℕ, suc, ◌+◌, ◌-◌, ◌≤◌, ◌<◌, ltb, Bool, true, false, Option, none, some, List, [], ◌∷◌, ◌++◌,
  length, get_elem?, if◌then◌else◌, All, arith, ◌≡◌, refl, sym, ap, ◌∙◌, length-append,
}
use my_note_book.Blocks.Ranges.{Node, TopLevelBlock, block_at, is_controllable_block}
use my_note_book.Blocks.Controllable.{
  controllable_from, get_controllable_top_level_blocks, index_of_pos, adjacent_at,
  get_adjacent_controllable_blocks,
}
use my_note_book.Blocks.Placed.{size_of_all, AreSized}

abbrev pub first_of : List TopLevelBlock → Option TopLevelBlock
first_of [] = none
first_of (block ∷ blocks) = some block

abbrev pub last_of : List TopLevelBlock → Option TopLevelBlock
last_of [] = none
last_of (block ∷ []) = some block
last_of (block ∷ next ∷ blocks) = last_of (next ∷ blocks)

abbrev AreBelow : ℕ → List TopLevelBlock → Type 0
AreBelow pos blocks = All (λ block. block.pos < pos) blocks

controllable_from-AreBelow :
    (nodes : List Node) (offset pos : ℕ)
    → AreSized nodes
    → offset + size_of_all nodes ≤ pos
    → AreBelow pos (controllable_from nodes offset)
unfolding controllable_from
controllable_from-AreBelow [] offset pos sized h = tt
controllable_from-AreBelow (node ∷ nodes) offset pos (big, sized) h =
    by_test (is_controllable_block node)
      (controllable_from-AreBelow nodes (offset + node.node_size) pos sized (omega (arith, h)))
  where
    by_test :
        (taken : Bool)
        → AreBelow pos (controllable_from nodes (offset + node.node_size))
        → AreBelow pos (
            if taken
            then block_at node offset ∷ controllable_from nodes (offset + node.node_size)
            else controllable_from nodes (offset + node.node_size))
    by_test true rest = (omega (arith, h, big), rest)
    by_test false rest = rest

controllable_from-append :
    (before others : List Node) (offset : ℕ)
    → controllable_from (before ++ others) offset
      ≡ controllable_from before offset ++ controllable_from others (offset + size_of_all before)
unfolding controllable_from
controllable_from-append [] others offset = ap (controllable_from others) (omega arith)
controllable_from-append (node ∷ before) others offset = by_test (is_controllable_block node) (
    controllable_from-append before others (offset + node.node_size)
    ∙ ap (λ n. controllable_from before (offset + node.node_size) ++ controllable_from others n)
        (omega arith))
  where
    by_test :
        (taken : Bool)
        → controllable_from (before ++ others) (offset + node.node_size)
          ≡ controllable_from before (offset + node.node_size)
            ++ controllable_from others (offset + (node.node_size + size_of_all before))
        → (if taken
            then block_at node offset
              ∷ controllable_from (before ++ others) (offset + node.node_size)
            else controllable_from (before ++ others) (offset + node.node_size))
          ≡ (if taken
              then block_at node offset ∷ controllable_from before (offset + node.node_size)
              else controllable_from before (offset + node.node_size))
            ++ controllable_from others (offset + (node.node_size + size_of_all before))
    by_test true rest = ap (λ blocks. block_at node offset ∷ blocks) rest
    by_test false rest = rest

index_of_pos-append :
    (below : List TopLevelBlock) (block : TopLevelBlock) (above : List TopLevelBlock)
    → AreBelow block.pos below
    → index_of_pos block.pos (below ++ block ∷ above) ≡ some (length below)
unfolding index_of_pos
index_of_pos-append [] block above h = ground arith
index_of_pos-append (first ∷ below) block above (lower, h) =
    ground (arith, lower, index_of_pos-append below block above h)

controllable_from-taken :
    (node : Node) (nodes : List Node) (offset : ℕ)
    → is_controllable_block node ≡ true
    → controllable_from (node ∷ nodes) offset
      ≡ block_at node offset ∷ controllable_from nodes (offset + node.node_size)
unfolding controllable_from
controllable_from-taken node nodes offset controllable = ground (arith, controllable)

get_elem?-last :
    (block : TopLevelBlock) (below others : List TopLevelBlock)
    → get_elem? ((block ∷ below) ++ others) (length below) ≡ last_of (block ∷ below)
get_elem?-last block [] others = refl
get_elem?-last block (next ∷ below) others = get_elem?-last next below others

previous_lem :
    (below others : List TopLevelBlock)
    → (if ltb 0 (length below) then get_elem? (below ++ others) (length below - 1) else none)
      ≡ last_of below
previous_lem [] others = ground arith
previous_lem (block ∷ below) others = ground (arith, get_elem?-last block below others)

get_elem?-first :
    (below : List TopLevelBlock) (block : TopLevelBlock) (above : List TopLevelBlock)
    → get_elem? (below ++ block ∷ above) (suc (length below)) ≡ first_of above
get_elem?-first [] block [] = refl
get_elem?-first [] block (next ∷ above) = refl
get_elem?-first (first ∷ below) block above = get_elem?-first below block above

next_lem :
    (below : List TopLevelBlock) (block : TopLevelBlock) (above : List TopLevelBlock)
    → (if ltb (length below) (length (below ++ block ∷ above) - 1)
        then get_elem? (below ++ block ∷ above) (suc (length below))
        else none)
      ≡ first_of above
next_lem below block [] = ground (arith, length-append below (block ∷ []))
next_lem below block (next ∷ above) =
    ground (
      arith,
      length-append below (block ∷ next ∷ above),
      get_elem?-first below block (next ∷ above),
    )

adjacent_at-append :
    (below : List TopLevelBlock) (block : TopLevelBlock) (above : List TopLevelBlock)
    → AreBelow block.pos below
    → adjacent_at (below ++ block ∷ above) (index_of_pos block.pos (below ++ block ∷ above))
      ≡ record { previous = last_of below; next = first_of above }
unfolding adjacent_at
adjacent_at-append below block above h =
    ap (adjacent_at (below ++ block ∷ above)) (index_of_pos-append below block above h)
    ∙ cc (previous_lem below (block ∷ above), next_lem below block above)

-- Where no node is without room, a controllable block has as neighbours the last controllable block that
-- stands before it and the first that stands behind it, if there are such blocks.
pub get_adjacent_controllable_blocks_lem :
    (before after : List Node) (node : Node)
    → AreSized before
    → is_controllable_block node ≡ true
    → get_adjacent_controllable_blocks (before ++ node ∷ after) (size_of_all before) ≡ record {
      previous = last_of (get_controllable_top_level_blocks before);
      next = first_of (controllable_from after (size_of_all before + node.node_size));
    }
unfolding get_adjacent_controllable_blocks get_controllable_top_level_blocks
get_adjacent_controllable_blocks_lem before after node sized controllable =
    subst
      (λ blocks. adjacent_at blocks (index_of_pos (size_of_all before) blocks) ≡ record {
        previous = last_of (controllable_from before 0);
        next = first_of (controllable_from after (size_of_all before + node.node_size));
      })
      (sym (parts ∙ ap (λ blocks. controllable_from before 0 ++ blocks) taken))
      (adjacent_at-append (controllable_from before 0) (block_at node (size_of_all before))
        (controllable_from after (size_of_all before + node.node_size))
        (controllable_from-AreBelow before 0 (size_of_all before) sized (omega arith)))
  where
    parts :
        controllable_from (before ++ node ∷ after) 0
        ≡ controllable_from before 0 ++ controllable_from (node ∷ after) (size_of_all before)
    parts =
        controllable_from-append before (node ∷ after) 0
        ∙ ap (λ n. controllable_from before 0 ++ controllable_from (node ∷ after) n) (omega arith)

    taken :
        controllable_from (node ∷ after) (size_of_all before)
        ≡ block_at node (size_of_all before)
          ∷ controllable_from after (size_of_all before + node.node_size)
    taken = controllable_from-taken node after (size_of_all before) controllable
