-- ===== src/Tests/Trees.antt =====
-- The formulas at concrete indices.
use stratified_hash_tree.Prelude.{
  ℕ, suc, ◌+◌, ◌-◌, ◌^◌, ◌≤◌, ◌<◌, ◌≡◌, ◌↔◌, refl, none, some, ok, [], ◌∷◌, length, map, true,
  arith,
}
use stratified_hash_tree.Prelude.Words.{sub64, shl64, shr64, add64, add8, leading_zeros, bit_len}
use stratified_hash_tree.Formula.Arith.{i_mod_2e, pow2e, ceil_log2, floor_log2}
use stratified_hash_tree.Formula.Arith.Mod.{i_mod_2e_lem}
use stratified_hash_tree.Formula.Arith.Logs.{ceil_log2_iff, floor_log2_lem}
use stratified_hash_tree.Formula.Tree.{
  RangeInclusive, range, subnodes_of, is_valid, is_pbst, leaf_count, contains, count_pbsts, root_of,
}
use stratified_hash_tree.Formula.Tree.Nodes.{IsNode, IsNode-IsAligned, leaf_count_lem, contains_lem}
use stratified_hash_tree.Formula.Tree.Subnodes.{subnodes_of_lem}
use stratified_hash_tree.Formula.Tree.Valid.{is_valid_iff}
use stratified_hash_tree.Formula.Roots.{pbst_roots, pbst_roots_loop, entry_access_distance}
use stratified_hash_tree.Formula.Roots.Tiling.{Tiles, pbst_roots-Tiles}
use stratified_hash_tree.Formula.Roots.Count.{count_pbsts-eq-length}
use stratified_hash_tree.Formula.Roots.Distance.{left_turns}
use stratified_hash_tree.Formula.Roots.Access.{entry_access_distance-eq-left_turns}
use stratified_hash_tree.Formula.Roots.Limits.{entry_access_distance_limits}
use stratified_hash_tree.Formula.Roots.Limits.Bounds.{Bounded, entry_access_distance_limits-Bounded}
use stratified_hash_tree.Formula.Model.{
  INode, addr, new, root, inodes, inode, find_ephemeral, create_ephemeral_nodes,
}
use stratified_hash_tree.Formula.Model.Chain.{Climbs, falling, inodes-Climbs}
use stratified_hash_tree.Formula.Model.Lefts.{lefts-eq-pbst_roots}
use stratified_hash_tree.Formula.Model.Lookup.{root-new, inode-latest-none, inode-Joins}

abbrev node_11_2 : IsNode 8 11 2
node_11_2 = (omega arith, omega arith, omega arith)

i_mod_2e_example : i_mod_2e 13 3 ≡ 5
i_mod_2e_example = i_mod_2e_lem 13 3 (omega arith) (omega arith)

ceil_log2_example : (ceil_log2 11 ≤ 4) ↔ (11 ≤ 2 ^ 4)
ceil_log2_example = ceil_log2_iff 11 4 (omega arith) (omega arith)

floor_log2_example :
    (2 ^ floor_log2 11 ≤ 11) × (11 < 2 ^ suc (floor_log2 11)) × (floor_log2 11 < 64)
floor_log2_example = floor_log2_lem 11 (omega arith) (omega arith)

is_valid_example : (is_valid 11 2 ≡ true) ↔ ((lo : ℕ) × IsNode lo 11 2)
is_valid_example = is_valid_iff 11 2 (omega arith) (omega arith)

subnodes_of_example : subnodes_of 11 2 ≡ ((10, 1), (11, ceil_log2 (11 - (8 + 2 ^ 1))))
subnodes_of_example = subnodes_of_lem 8 11 1 (omega arith) (omega arith) node_11_2

leaf_count_example : leaf_count 11 2 ≡ 3
leaf_count_example =
    leaf_count_lem 8 11 2 (omega arith) (omega arith) (IsNode-IsAligned 8 11 2 node_11_2)

contains_example : contains 11 2 10 ≡ true
contains_example =
    contains_lem 8 11 2 10 (omega arith) (omega arith) (IsNode-IsAligned 8 11 2 node_11_2)

pbst_roots_example : Tiles 64 0 11 (pbst_roots 11)
pbst_roots_example = pbst_roots-Tiles 11 (omega arith)

count_pbsts_example : count_pbsts 11 ≡ length (pbst_roots 11)
count_pbsts_example = count_pbsts-eq-length 11 (omega arith)

entry_access_distance_example : entry_access_distance 2 11 ≡ some (left_turns 64 2 (root_of 11))
entry_access_distance_example =
    entry_access_distance-eq-left_turns 2 11 (omega arith) (omega arith) (omega arith)

limits_example : Bounded 12 2
unfolding ceil_log2 leading_zeros bit_len sub64
limits_example = entry_access_distance_limits-Bounded 12 2 (omega arith) (omega arith) (omega arith)

between : ℕ → ℕ → RangeInclusive
between a b = record { start = a; end = b }

-- The example of the documentation.
limits_12 :
    entry_access_distance_limits 12
    ≡ ok (
      between 12 12 ∷ between 10 11 ∷ between 6 9 ∷ between 2 5 ∷ between 1 1 ∷ [],
      between 12 12 ∷ between 8 11 ∷ between 4 7 ∷ between 2 3 ∷ between 1 1 ∷ [],
    )
unfolding entry_access_distance_limits pbst_roots ceil_log2 floor_log2 leading_zeros bit_len sub64
    shl64 shr64 add64 pow2e range i_mod_2e between
limits_12 = refl

root_example : root (new 11) ≡ some (addr (root_of 11).0 (root_of 11).1)
root_example = root-new 11 (omega arith) (omega arith)

inodes_example : Climbs 11 0 (root_of 11).1 (inodes (new 11))
inodes_example = inodes-Climbs 11 (omega arith) (omega arith)

lefts_example : map (λ x. x.left) (falling 12) ≡ pbst_roots 11
lefts_example = lefts-eq-pbst_roots 11 (omega arith)

inode-latest_example : (is_valid 8 3 ≡ true) × (inode (new 8) 8 3 ≡ none)
unfolding is_pbst i_mod_2e sub64 shl64
inode-latest_example = inode-latest-none 8 3 (omega arith) (omega arith) refl (omega arith)

-- The node over the leaves 9 to 11.
abbrev joining : INode
joining = record { node = addr 11 2; left = addr 10 1; right = addr 11 0 }

inode_11_2 : inode (new 11) 11 2 ≡ some joining
unfolding inode new find_ephemeral create_ephemeral_nodes pbst_roots pbst_roots_loop is_pbst
    i_mod_2e sub64 shl64 add64 add8 pow2e floor_log2 leading_zeros bit_len
inode_11_2 = refl

inode_example :
    (joining.node ≡ addr 11 2)
    × (subnodes_of 11 2 ≡ ((joining.left.i, joining.left.j), (joining.right.i, joining.right.j)))
inode_example = inode-Joins 11 11 2 joining (omega arith) (omega arith) (omega arith) inode_11_2
