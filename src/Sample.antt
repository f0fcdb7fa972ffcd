-- ===== src/Sample.antt =====
-- src/lib.rs: `StratumSample`, the hashes beside the path from a leaf to the root, which prove what
-- the leaf holds. The map of the witnesses is an association list.
pub mod Binding
pub mod Compare
pub mod Genuine
pub mod Beside
use stratified_hash_tree.Prelude.{
  ℕ, zero, suc, ◌==◌, Bool, true, false, not, ◌&&◌, ◌||◌, Option, none, some, List, [], ◌∷◌, ◌++◌,
  Result, ok, err, panic, ◌>>=◌, unwrap, ltb, if◌then◌else◌,
}
use stratified_hash_tree.Error.{Error, sample_verification_failed}
use stratified_hash_tree.Formula.Tree.{NodeIndex, subnodes_of, root_of, contains}
use stratified_hash_tree.Hashing.{Hasher, Hash, Value, combine, hash}

pub data Prove : Type 0 where
  identical : Prove
  divergent : List NodeIndex → Prove

pub record StratumSample : Type 0 where
  pub revision : ℕ
  pub leaf : Value
  pub witnesses : List (NodeIndex × Hash)

unfoldable pub witness : NodeIndex → List (NodeIndex × Hash) → Option Hash
witness b [] = none
witness b ((a, h) ∷ rest) = if a.0 == b.0 && a.1 == b.1 then some h else witness b rest

-- Equality of two hashes, byte by byte.
unfoldable pub same_bytes : List ℕ → List ℕ → Bool
same_bytes [] [] = true
same_bytes [] (y ∷ ys) = false
same_bytes (x ∷ xs) [] = false
same_bytes (x ∷ xs) (y ∷ ys) = x == y && same_bytes xs ys

-- The order of `sort` followed by `reverse`: larger indices first, then larger heights.
unfoldable pub insert_descending : NodeIndex → List NodeIndex → List NodeIndex
insert_descending b [] = b ∷ []
insert_descending b (a ∷ rest) =
    if ltb a.0 b.0 || (a.0 == b.0 && ltb a.1 b.1)
    then b ∷ a ∷ rest
    else a ∷ insert_descending b rest

unfoldable pub sort_descending : List NodeIndex → List NodeIndex
unfolding insert_descending
sort_descending [] = []
sort_descending (a ∷ rest) = insert_descending a (sort_descending rest)

-- The loop over the witnesses of one sample; one that the other sample lacks is a panic.
unfoldable pub divergents :
    List (NodeIndex × Hash) → List (NodeIndex × Hash) → Result Error (List NodeIndex)
unfolding witness same_bytes
divergents [] other = ok []
divergents ((a, h) ∷ rest) other = do
  g ← unwrap (witness a other)
  below ← divergents rest other
  ok (if same_bytes h.value g.value then below else (a ∷ below))

module _ ⦃H : Hasher⦄ where
  -- Each call goes down to a lower node, so heights up to 64 need 65 calls.
  unfoldable pub compute_hash : ℕ → StratumSample → ℕ → ℕ → Result Error Hash
  unfolding witness
  compute_hash zero s i j = panic
  compute_hash (suc fuel) s i j = elim (j == 0) [
    | true ↦ if s.leaf.i == i then ok (hash s.leaf) else err sample_verification_failed
    | false ↦
        let (l, r) = subnodes_of i j in
        elim (contains l.0 l.1 s.leaf.i) [
          | true ↦ do
            left ← compute_hash fuel s l.0 l.1
            right ← unwrap (witness r s.witnesses)
            ok (combine left j right)
          | false ↦ elim (contains r.0 r.1 s.leaf.i) [
            | true ↦ do
              left ← unwrap (witness l s.witnesses)
              right ← compute_hash fuel s r.0 r.1
              ok (combine left j right)
            | false ↦ err sample_verification_failed
          ]
        ]
  ]

  unfoldable pub root_hash : StratumSample → Result Error Hash
  unfolding compute_hash
  root_hash s = let (i, j) = root_of s.revision in compute_hash 65 s i j

  unfoldable pub leaf_divergence : StratumSample → StratumSample → List NodeIndex
  unfolding same_bytes
  leaf_divergence s other =
      if same_bytes (hash s.leaf).value (hash other.leaf).value then [] else ((s.leaf.i, 0) ∷ [])

  -- `compare` once the root hashes are computed and found to be the same or not.
  unfoldable pub differences : StratumSample → StratumSample → Bool → Result Error Prove
  unfolding divergents sort_descending leaf_divergence
  differences s other true = ok identical
  differences s other false = do
    below ← divergents s.witnesses other.witnesses
    ok (divergent (sort_descending (below ++ leaf_divergence s other)))

  unfoldable pub compare : StratumSample → StratumSample → Result Error Prove
  unfolding root_hash differences same_bytes
  compare s other =
      if not (s.revision == other.revision)
      then err sample_verification_failed
      else if not (s.leaf.i == other.leaf.i)
      then err sample_verification_failed
      else do h ← root_hash s; g ← root_hash other; differences s other (same_bytes h.value g.value)
