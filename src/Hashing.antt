-- ===== src/Hashing.antt =====
-- src/lib.rs: hash values, nodes and values. The hash functions are third-party code: `Hasher` is
-- what the tree relies on, a function from bytes to a fixed number of bytes.
use stratified_hash_tree.Prelude.{
  ℕ, zero, suc, ◌≡◌, List, [], ◌∷◌, ◌++◌, length, map, ltb, if◌then◌else◌, Option, none, some,
}
use stratified_hash_tree.Prelude.Words.{add8}

pub record Hasher : Type 0 where
  pub size : ℕ
  pub digest : List ℕ → List ℕ
  pub length-digest : (bytes : List ℕ) → length (digest bytes) ≡ size

pub record Hash : Type 0 where
  pub value : List ℕ

pub record Node : Type 0 where
  pub i : ℕ
  pub j : ℕ
  pub hash : Hash

pub record Value : Type 0 where
  pub i : ℕ
  pub value : List ℕ

module _ ⦃H : Hasher⦄ where
  -- Each branch on the configured algorithm feeds the height and then the bytes.
  unfoldable pub from_bytes : ℕ → List ℕ → Hash
  from_bytes j value = record { value = H.digest (j ∷ value) }

  unfoldable pub combine : Hash → ℕ → Hash → Hash
  combine a j b = from_bytes j (a.value ++ b.value)

  unfoldable pub parent : Node → Node → Node
  parent left right =
      let j = add8 left.j 1 in record { i = right.i; j = j; hash = combine left.hash j right.hash }

  unfoldable pub hash : Value → Hash
  hash v = from_bytes 0 v.value

  unfoldable pub to_node : Value → Node
  unfolding hash
  to_node v = record { i = v.i; j = 0; hash = hash v }

pub record ValuesWithBranches : Type 0 where
  pub values : List Value
  pub branches : List Node

module _ ⦃H : Hasher⦄ where
  -- One round of the folding loop: neighbours in pairs, and an odd one out goes on as it is.
  unfoldable pub fold_pairs : List Node → List Node
  fold_pairs [] = []
  fold_pairs (a ∷ []) = a ∷ []
  fold_pairs (a ∷ b ∷ rest) = parent a b ∷ fold_pairs rest

  -- `while hashes.len() > 1`; `none` is fuel run out, or no value at all, where `remove` panics.
  unfoldable pub fold_values : ℕ → List Node → Option Node
  fold_values fuel [] = none
  fold_values fuel (a ∷ []) = some a
  fold_values zero (a ∷ b ∷ rest) = none
  fold_values (suc fuel) (a ∷ b ∷ rest) = fold_values fuel (fold_pairs (a ∷ b ∷ rest))

  -- The branches are joined from the last to the first.
  unfoldable pub fold_branches : Node → List Node → Node
  fold_branches folding [] = folding
  fold_branches folding (branch ∷ rest) =
      let below = fold_branches folding rest in
      if ltb below.i branch.i then parent below branch else parent branch below

  unfoldable pub root : ValuesWithBranches → Option Node
  root v = elim (fold_values (length v.values) (map to_node v.values)) [
    | none ↦ none
    | some folding ↦ some (fold_branches folding v.branches)
  ]
