-- ===== src/Prelude/Sets.antt =====
-- Go's maps in the form that loops change: sets of keys without repetition, and association lists
-- with one entry for a key.
use Prim.Native.Nat.{◌≤◌}
use Prim.Native.String.{String}
use mathlib.Core.Path.{◌≡◌, refl}
use mathlib.Core.Bool.{not, ◌&&◌, ◌||◌}
use mathlib.Core.Option.{none, some}
use mathlib.Core.List.{List, [], ◌∷◌}
use native.Mathlib.Omega.{arith}
use akoflow.Prelude.Tests.{if◌then◌else◌}
use akoflow.Prelude.Lists.{length}
use akoflow.Prelude.Keys.{string_eq, str_iff, ◌==◌, contains, lookup}

-- seen[id] = true, len(seen) being the length.
abbrev pub add : String → List String → List String
add id ids = if contains ids id then ids else id ∷ ids

-- delete(seen, id)
unfoldable pub remove : String → List String → List String
remove id [] = []
remove id (x ∷ xs) = let rest = remove id xs in if x == id then rest else x ∷ rest

pub contains-add :
    (id : String) (ids : List String) (j : String)
    → contains (add id ids) j ≡ (j == id || contains ids j)
contains-add id ids j = ground (arith, str_iff j id)

pub contains-remove :
    (id : String) (ids : List String) (j : String)
    → contains (remove id ids) j ≡ (not (j == id) && contains ids j)
unfolding remove
contains-remove id [] j = ground arith
contains-remove id (x ∷ xs) j =
    ground (arith, contains-remove id xs j, str_iff x id, str_iff j id, str_iff j x)

pub length-remove-le : (id : String) (ids : List String) → length (remove id ids) ≤ length ids
unfolding remove
length-remove-le id [] = omega arith
length-remove-le id (x ∷ xs) = ground (arith, length-remove-le id xs)

module _ {ℓ} {V : Type ℓ} where
  -- m[k] = v
  unfoldable pub put : String → V → List (String × V) → List (String × V)
  put k v [] = (k, v) ∷ []
  put k v ((j, w) ∷ m) = let rest = put k v m in if j == k then (k, v) ∷ m else (j, w) ∷ rest

  -- delete(m, k)
  unfoldable pub drop_key : String → List (String × V) → List (String × V)
  drop_key k [] = []
  drop_key k ((j, w) ∷ m) = let rest = drop_key k m in if j == k then rest else (j, w) ∷ rest

  pub lookup-put :
      (k j : String) (v : V) (m : List (String × V))
      → lookup j (put k v m) ≡ (if j == k then some v else lookup j m)
  unfolding put
  lookup-put k j v [] = refl
  lookup-put k j v ((i, w) ∷ m) =
      ground (arith, str_iff k j, str_iff j k, str_iff i k, str_iff j i, lookup-put k j v m)

  pub lookup-drop_key :
      (k j : String) (m : List (String × V))
      → lookup j (drop_key k m) ≡ (if j == k then none else lookup j m)
  unfolding drop_key
  lookup-drop_key k j [] = ground arith
  lookup-drop_key k j ((i, w) ∷ m) =
      ground (arith, str_iff k j, str_iff j k, str_iff i k, str_iff j i, lookup-drop_key k j m)
