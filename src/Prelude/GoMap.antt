-- ===== src/Prelude/GoMap.antt =====
-- Go's maps with string keys, as association lists. The code never depends on the order of a
-- `range` over a map, so the order of the entries carries no meaning: the laws speak of `lookup`.
use Prim.Native.String.{String}
use mathlib.Core.Path.{◌≡◌, refl}
use mathlib.Core.Bool.{Bool, true, false}
use mathlib.Core.List.{List, [], ◌∷◌}
use mathlib.Core.Option.{Option, none, some}
use native.Mathlib.Omega.{arith}
use seelf.Prelude.Tests.{if◌then◌else◌, ◌==◌, string_eq}

abbrev pub Map {ℓ} : Type ℓ → Type ℓ
Map V = List (String × V)

module _ {ℓ} {V : Type ℓ} where
  -- found, ok := m[key]
  unfoldable pub lookup : String → Map V → Option V
  lookup key [] = none
  lookup key ((name, old) ∷ entries) = if name == key then some old else lookup key entries

  -- m[key] = value
  unfoldable pub insert : String → V → Map V → Map V
  insert key value [] = (key, value) ∷ []
  insert key value ((name, old) ∷ entries) =
      let rest = insert key value entries in
      if name == key then (key, value) ∷ entries else (name, old) ∷ rest

  -- delete(m, k)
  unfoldable pub delete : String → Map V → Map V
  delete k [] = []
  delete k ((j, v) ∷ m) = let rest = delete k m in if j == k then rest else (j, v) ∷ rest

  -- len(m) == 0
  abbrev pub is_empty : Map V → Bool
  is_empty [] = true
  is_empty (_ ∷ _) = false

  pub lookup-insert :
      (key other : String) (value : V) (entries : Map V)
      → lookup other (insert key value entries)
        ≡ (if key == other then some value else lookup other entries)
  unfolding lookup insert
  lookup-insert key other value [] = refl
  lookup-insert key other value (entry ∷ entries) =
      ground (arith, lookup-insert key other value entries)

  pub lookup-delete :
      (k j : String) (m : Map V) → lookup j (delete k m) ≡ (if k == j then none else lookup j m)
  unfolding lookup delete
  lookup-delete k j [] = ground arith
  lookup-delete k j ((i, w) ∷ m) = ground (arith, lookup-delete k j m)

  -- Writing back what is there changes nothing.
  pub insert_present : (k : String) (v : V) (m : Map V) → lookup k m ≡ some v → insert k v m ≡ m
  unfolding lookup insert
  insert_present k v [] h = cc
  insert_present k v ((i, w) ∷ m) h = ground (arith, insert_present k v m)

  pub delete_absent : (k : String) (m : Map V) → lookup k m ≡ none → delete k m ≡ m
  unfolding lookup delete
  delete_absent k [] h = refl
  delete_absent k ((i, w) ∷ m) h = ground (arith, delete_absent k m)

pub ruleset map_laws = (lookup-insert, lookup-delete)
