-- ===== src/Storage/Rocks/Dictionary.antt =====
-- What the storage relies on in its database: without a failure of the disk, it is a dictionary.
use stratified_hash_tree.Prelude.{ℕ, ◌≡◌, ◌≢◌, Option, none, some, List, ok}
use stratified_hash_tree.Storage.Rocks.{Database}

-- `get` returns what `contents` has under the key, `put` and `delete` change it under their own
-- key only, and none of them fails.
pub record Dictionary ⦃D : Database⦄ : Type 0 where
  pub contents : D.State → List ℕ → Option (List ℕ)
  pub get_lem : (g : D.State) (k : List ℕ) → D.get g k ≡ ok (contents g k)
  pub put_lem :
      (g : D.State) (k value : List ℕ)
      → (g' : D.State) × (D.put g k value ≡ (ok tt, g'))
        × (contents g' k ≡ some value)
        × ((other : List ℕ) → k ≢ other → contents g' other ≡ contents g other)
  pub delete_lem :
      (g : D.State) (k : List ℕ)
      → (g' : D.State) × (D.delete g k ≡ (ok tt, g'))
        × (contents g' k ≡ none)
        × ((other : List ℕ) → k ≢ other → contents g' other ≡ contents g other)
