-- ===== src/MindMap/Content.antt =====
-- The content of a mind map in src/models/workspace/mindMap.ts and its children by parent. `nodes` is
-- a record from ids, here a list in the order of `Object.values`; looking up an id that has no entry
-- finds what every object inherits under that name. An order is a finite number; `metadata` has
-- values of a type `V`. `id_le` is whether `localeCompare` is at most 0.
use text.Mathlib.Text.{◌==◌}
use my_note_book.Base.{
  ℕ, zero, suc, ◌*◌, ◌-◌, ◌%◌, ◌^◌, nat_eq, ℤ, pos, negsuc, leb_int, String, Bool, true, false,
  ◌||◌, is_some, has, Option, none, some, List, [], ◌∷◌, ◌++◌, map, if◌then◌else◌, Entries, lookup,
  insert, trim,
}

pub data MindMapDirection : Type 0 where
  left right both : MindMapDirection
  other_direction : String → MindMapDirection

pub data MindMapSourceType : Type 0 where
  document_block knowledge_object : MindMapSourceType

pub record MindMapSourceRef : Type 0 where
  pub source_type : MindMapSourceType
  pub document_id : Option String
  pub block_id : Option String
  pub knowledge_object_id : Option String
  pub revision : ℕ
  pub quote : Option String

pub data BranchDirection : Type 0 where
  left_branch right_branch : BranchDirection

-- A finite number: the numerator over 2 to the power of `halvings`.
pub record Order : Type 0 where
  pub numerator : ℤ
  pub halvings : ℕ

abbrev pub times : ℤ → ℕ → ℤ
times (pos n) k = pos (n * k)
times (negsuc n) zero = pos 0
times (negsuc n) (suc k) = negsuc (suc n * suc k - 1)

-- Whether a number is at most another one.
unfoldable pub leb_order : Order → Order → Bool
leb_order a b = leb_int (times a.numerator (2 ^ b.halvings)) (times b.numerator (2 ^ a.halvings))

abbrev magnitude : ℤ → ℕ
magnitude (pos n) = n
magnitude (negsuc n) = suc n

-- `Number.isInteger`
unfoldable pub is_whole : Order → Bool
is_whole order = nat_eq (magnitude order.numerator % 2 ^ order.halvings) 0

pub record MindMapNode (V : Type 0) : Type 0 where
  pub id : String
  pub parent_id : Option String
  pub order : Order
  pub text : String
  pub note : String
  pub collapsed : Bool
  pub branch_direction : Option BranchDirection
  pub source_refs : List MindMapSourceRef
  pub metadata : Entries V
  pub style : Entries String

pub record MindMapLink : Type 0 where
  pub id : String
  pub from_node_id : String
  pub to_node_id : String
  pub relation_type : String
  pub label : String

pub record MindMapContent (V : Type 0) : Type 0 where
  pub schema_version : ℕ
  pub root_node_id : String
  pub direction : MindMapDirection
  pub nodes : Entries (MindMapNode V)
  pub links : List MindMapLink

pub record MindMapDocument (V : Type 0) : Type 0 where
  pub id : String
  pub parent_id : Option String
  pub sort_order : ℕ
  pub title : String
  pub content : MindMapContent V
  pub version : ℕ
  pub created_at : ℕ
  pub updated_at : ℕ

-- The members of `Object.prototype`.
abbrev object_members : List String
object_members =
    "constructor" ∷ "__defineGetter__" ∷ "__defineSetter__" ∷ "hasOwnProperty" ∷ "__lookupGetter__"
    ∷ "__lookupSetter__" ∷ "isPrototypeOf" ∷ "propertyIsEnumerable" ∷ "toString" ∷ "valueOf"
    ∷ "__proto__" ∷ "toLocaleString" ∷ []

unfoldable pub is_inherited : String → Bool
is_inherited name = has name object_members

module _ {V : Type 0} where
  unfoldable pub create_empty_mind_map_content : String → String → MindMapContent V
  create_empty_mind_map_content root_node_id title = record {
    schema_version = 1;
    root_node_id = root_node_id;
    direction = both;
    nodes = (root_node_id, root) ∷ [];
    links = [];
  }
    where
      root : MindMapNode V
      root = record {
        id = root_node_id;
        parent_id = none;
        order = record { numerator = pos 0; halvings = 0 };
        text = if trim title == "" then "中心主题" else trim title;
        note = "";
        collapsed = false;
        branch_direction = none;
        source_refs = [];
        metadata = [];
        style = [];
      }

  -- `!!content.nodes[id]`
  abbrev pub is_there : Entries (MindMapNode V) → String → Bool
  is_there nodes id = is_some (lookup id nodes) || is_inherited id

  -- `Object.values(content.nodes)`
  abbrev pub values : Entries (MindMapNode V) → List (MindMapNode V)
  values entries = map (λ entry. entry.1) entries

  -- `children.get(id) ?? []`
  unfoldable pub children_at : Entries (List (MindMapNode V)) → String → List (MindMapNode V)
  children_at lists id = elim (lookup id lists) [ none ↦ [] | some nodes ↦ nodes ]

  -- The first loop of `groupChildren`.
  unfoldable pub collect_children :
      List (MindMapNode V) → Entries (List (MindMapNode V)) → Entries (List (MindMapNode V))
  collect_children [] lists = lists
  collect_children (node ∷ nodes) lists = collect_children nodes (elim (node.parent_id) [
    | none ↦ lists
    | some id ↦ insert id (children_at lists id ++ node ∷ []) lists
  ])

  module _ (id_le : String → String → Bool) where
    -- Whether the comparison of `groupChildren` is at most 0.
    unfoldable pub comes_before : MindMapNode V → MindMapNode V → Bool
    comes_before a b =
        if leb_order a.order b.order
        then if leb_order b.order a.order then id_le a.id b.id else true
        else false

    -- `sort`, which is stable: an item stays behind those that are not greater.
    unfoldable pub insert_sorted : MindMapNode V → List (MindMapNode V) → List (MindMapNode V)
    insert_sorted node [] = node ∷ []
    insert_sorted node (x ∷ xs) =
        let rest = insert_sorted node xs in if comes_before node x then node ∷ x ∷ xs else x ∷ rest

    unfoldable pub sort_nodes : List (MindMapNode V) → List (MindMapNode V)
    sort_nodes [] = []
    sort_nodes (x ∷ xs) = insert_sorted x (sort_nodes xs)

    unfoldable pub group_children : MindMapContent V → Entries (List (MindMapNode V))
    group_children content =
        map (λ entry. (entry.0, sort_nodes entry.1)) (collect_children (values content.nodes) [])
