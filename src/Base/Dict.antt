-- ===== src/Base/Dict.antt =====
-- `Map<string, V>` and `Set<string>` as lists in insertion order. `set` on a key that is present
-- keeps its place, `delete` removes it.
use Prim.Native.String.{String}
use mathlib.Core.Path.{◌≡◌, refl}
use mathlib.Core.Bool.{Bool, true, false, ◌||◌}
use mathlib.Core.Option.{Option, none, some}
use mathlib.Core.List.{List, [], ◌∷◌, ◌++◌}
use native.Mathlib.Omega.{arith}
use text.Mathlib.Text.{◌==◌}
use text.Mathlib.TextEquality.{eq_iff}
use text.Mathlib.TextPositions.{eq_refl}
use my_note_book.Base.Tests.{if◌then◌else◌}

-- The entries of a map, oldest first.
abbrev pub Entries {ℓ} : Type ℓ → Type ℓ
Entries V = List (String × V)

unfoldable pub delete {ℓ} : {V : Type ℓ} → String → Entries V → Entries V
delete key [] = []
delete key (entry ∷ entries) =
    let rest = delete key entries in if entry.0 == key then rest else entry ∷ rest

unfoldable pub lookup {ℓ} : {V : Type ℓ} → String → Entries V → Option V
lookup key [] = none
lookup key (entry ∷ entries) =
    let rest = lookup key entries in if entry.0 == key then some (entry.1) else rest

pub lookup-delete {ℓ} :
    {V : Type ℓ} (key other : String) (entries : Entries V)
    → lookup other (delete key entries) ≡ (if key == other then none else lookup other entries)
unfolding lookup delete
lookup-delete key other [] = ground arith
lookup-delete key other (entry ∷ entries) =
    let rest = lookup-delete key other entries in
    ground (arith, eq_iff (entry.0) other, eq_iff (entry.0) key, eq_iff key other, rest)

unfoldable pub insert {ℓ} : {V : Type ℓ} → String → V → Entries V → Entries V
insert key value [] = (key, value) ∷ []
insert key value (entry ∷ entries) =
    let rest = insert key value entries in
    if entry.0 == key then (key, value) ∷ entries else entry ∷ rest

pub lookup-insert {ℓ} :
    {V : Type ℓ} (key other : String) (value : V) (entries : Entries V)
    → lookup other (insert key value entries)
      ≡ (if key == other then some value else lookup other entries)
unfolding lookup insert
lookup-insert key other value [] = ground arith
lookup-insert key other value (entry ∷ entries) =
    let rest = lookup-insert key other value entries in
    ground (arith, eq_iff (entry.0) other, eq_iff (entry.0) key, eq_iff key other, rest)

unfoldable pub has : String → List String → Bool
has k [] = false
has k (j ∷ s) = j == k || has k s

-- `Set.add`
unfoldable pub add : String → List String → List String
add k s = if has k s then s else s ++ k ∷ []

-- `Set.delete`
unfoldable pub remove : String → List String → List String
remove k [] = []
remove k (j ∷ s) = let rest = remove k s in if j == k then rest else j ∷ rest

pub has-append : (k : String) (s t : List String) → has k (s ++ t) ≡ (has k s || has k t)
unfolding has
has-append k [] t = refl
has-append k (j ∷ s) t = ground (arith, has-append k s t)

pub has-add : (k j : String) (s : List String) → has j (add k s) ≡ (k == j || has j s)
unfolding add has
has-add k j s = ground (arith, has-append j s (k ∷ []), eq_iff k j, has-add_present k j s)
  where
    has-add_present : (k j : String) (s : List String) → has k s ≡ true → k ≡ j → has j s ≡ true
    has-add_present k j s h e = rw (← e) h

pub has-remove :
    (k j : String) (s : List String) → has j (remove k s) ≡ (if k == j then false else has j s)
unfolding has remove
has-remove k j [] = ground arith
has-remove k j (i ∷ s) = ground (arith, eq_iff k j, eq_iff i k, eq_iff i j, has-remove k j s)

pub has_refl : (k : String) (s : List String) → has k (k ∷ s) ≡ true
unfolding has
has_refl k s = ground (arith, eq_refl k)
