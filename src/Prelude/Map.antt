-- ===== src/Prelude/Map.antt =====
-- `HashMap` with an index as its key: an association list with one entry for each key.
use Prim.Native.Nat.{ℕ, suc}
use mathlib.Core.Path.{◌≡◌, refl}
use mathlib.Core.Option.{Option, none, some}
use mathlib.Core.List.{List, [], ◌∷◌}
use native.Mathlib.Omega.{arith}
use stratified_hash_tree.Prelude.Tests.{◌==◌, if◌then◌else◌}
use stratified_hash_tree.Prelude.Lists.{length}

abbrev pub Map {ℓ} : Type ℓ → Type ℓ
Map V = List (ℕ × V)

module _ {ℓ} {V : Type ℓ} where
  unfoldable pub lookup : ℕ → Map V → Option V
  lookup k [] = none
  lookup k ((j, v) ∷ m) = if j == k then some v else lookup k m

  unfoldable pub insert : ℕ → V → Map V → Map V
  insert key value [] = (key, value) ∷ []
  insert key value ((old, w) ∷ rest) =
      if old == key then (key, value) ∷ rest else ((old, w) ∷ insert key value rest)

  unfoldable pub remove : ℕ → Map V → Map V
  remove k [] = []
  remove k ((j, w) ∷ m) = let rest = remove k m in if j == k then rest else (j, w) ∷ rest

  pub lookup-insert :
      (written read : ℕ) (value : V) (table : Map V)
      → lookup read (insert written value table)
        ≡ (if written == read then some value else lookup read table)
  unfolding lookup insert
  lookup-insert written read value ((key, old) ∷ rest) =
      ground (arith, lookup-insert written read value rest)
  lookup-insert written read value [] = refl

  pub lookup-remove :
      (dropped read : ℕ) (table : Map V)
      → lookup read (remove dropped table) ≡ (if dropped == read then none else lookup read table)
  unfolding lookup remove
  lookup-remove dropped read ((key, old) ∷ rest) = ground (arith, lookup-remove dropped read rest)
  lookup-remove dropped read [] = ground arith

  -- No key stands twice.
  abbrev pub Unique : Map V → Type ℓ
  Unique [] = Unit
  Unique ((key, old) ∷ rest) = (lookup key rest ≡ none) × Unique rest

  pub remove_absent : (key : ℕ) (table : Map V) → lookup key table ≡ none → remove key table ≡ table
  unfolding lookup remove
  remove_absent key [] absent = refl
  remove_absent key ((k, old) ∷ rest) absent = ground (arith, remove_absent key rest)

  pub length-insert :
      (key : ℕ) (value : V) (table : Map V)
      → lookup key table ≡ none
      → length (insert key value table) ≡ suc (length table)
  unfolding lookup insert
  length-insert key value [] absent = refl
  length-insert key value ((k, old) ∷ rest) absent = ground (arith, length-insert key value rest)

  pub length-remove :
      (key : ℕ) (value : V) (table : Map V)
      → Unique table
      → lookup key table ≡ some value
      → suc (length (remove key table)) ≡ length table
  unfolding lookup remove
  length-remove key value [] unique found = cc
  length-remove key value ((k, old) ∷ rest) unique found =
      ground (arith, length-remove key value rest unique.1, remove_absent key rest)

  pub insert-Unique :
      (key : ℕ) (value : V) (table : Map V) → Unique table → Unique (insert key value table)
  unfolding lookup insert
  insert-Unique key value [] unique = (refl, tt)
  insert-Unique key value ((k, old) ∷ rest) unique =
      ground (arith, insert-Unique key value rest unique.1, lookup-insert key k value rest)

  pub remove-Unique : (key : ℕ) (table : Map V) → Unique table → Unique (remove key table)
  unfolding lookup remove
  remove-Unique key [] unique = tt
  remove-Unique key ((k, old) ∷ rest) unique =
      ground (arith, remove-Unique key rest unique.1, lookup-remove key k rest)
