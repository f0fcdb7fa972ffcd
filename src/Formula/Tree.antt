-- ===== src/Formula/Tree.antt =====
-- src/formula.rs: the node b_{i,j}, the leaves below it, its two subnodes, and the closed tests for
-- both. A node is a pair of an index and a height, as in the source.
pub mod Nodes
pub mod Subnodes
pub mod Valid
use stratified_hash_tree.Prelude.{
  ℕ, ◌+◌, ◌-◌, ◌*◌, ◌%◌, ◌^◌, Bool, true, false, ◌&&◌, bit_and, bit_or, leb, ltb, ◌==◌,
  if◌then◌else◌,
}
use stratified_hash_tree.Prelude.Words.{add64, sub64, sub8, shl64, shr64, count_ones}
use stratified_hash_tree.Formula.Arith.{index_size, i_mod_2e, pow2e, ceil_log2}

pub record Addr : Type 0 where
  pub i : ℕ
  pub j : ℕ

abbrev pub NodeIndex : Type 0
NodeIndex = ℕ × ℕ

unfoldable pub is_pbst : ℕ → ℕ → Bool
is_pbst i j = i_mod_2e i j == 0

unfoldable pub count_pbsts : ℕ → ℕ
count_pbsts n = count_ones n % 2 ^ 8

-- The result is a `u128`.
unfoldable pub total_nodes : ℕ → ℕ
total_nodes n = if n == 0 then 0 else (2 * n % 2 ^ 128 + 2 ^ 128 - 1) % 2 ^ 128

-- Both ends are included.
pub record RangeInclusive : Type 0 where
  pub start : ℕ
  pub end : ℕ

unfoldable pub range : ℕ → ℕ → RangeInclusive
range i j = record { start = sub64 i (i_mod_2e (sub64 i 1) j); end = i }

unfoldable pub root_of : ℕ → NodeIndex
root_of n = (n, ceil_log2 n)

unfoldable pub subnodes_of : ℕ → ℕ → NodeIndex × NodeIndex
subnodes_of i j =
    let left_upper : ℕ = if ltb j index_size then shl64 (shr64 (sub64 i 1) j) j else 0 in
    let left_lower : ℕ = pow2e (sub8 j 1) in
    let left_i : ℕ = bit_or left_upper left_lower in
    ((left_i, sub8 j 1), (i, ceil_log2 (sub64 i left_i)))

unfoldable pub is_valid : ℕ → ℕ → Bool
unfolding is_pbst
is_valid i j =
    if i == 0
    then false
    else if j == 0
    then true
    else if ltb (ceil_log2 i) j
    then false
    else if j == ceil_log2 i
    then true
    else if is_pbst i j
    then true
    else ltb (shl64 1 (sub8 j 1)) (bit_and i (sub64 (shl64 1 j) 1))

unfoldable pub leaf_count : ℕ → ℕ → ℕ
leaf_count i j = add64 (i_mod_2e (sub64 i 1) j) 1

unfoldable pub contains : ℕ → ℕ → ℕ → Bool
unfolding range
contains i j k = leb (range i j).start k && leb k (range i j).end
