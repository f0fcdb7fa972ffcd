-- ===== src/Formula/Roots.antt =====
-- src/formula.rs: the perfect trees that make up a generation, and the distance of an entry from
-- the latest one.
pub mod Tiling
pub mod Count
pub mod Spine
pub mod Distance
pub mod Access
pub mod Limits
use stratified_hash_tree.Prelude.{
  ℕ, zero, suc, ◌-◌, ◌%◌, ◌^◌, ◌+◌, Bool, not, Option, none, some, List, [], ◌∷◌, ◌==◌,
  if◌then◌else◌,
}
use stratified_hash_tree.Prelude.Words.{add64, sub64, add8, sub8, count_ones}
use stratified_hash_tree.Formula.Arith.{pow2e, floor_log2}
use stratified_hash_tree.Formula.Tree.{Addr, range, contains, root_of, subnodes_of}

-- The iterator's rounds from `remaining` leaves on, `fuel` at most.
unfoldable pub pbst_roots_loop : ℕ → ℕ → ℕ → List Addr
pbst_roots_loop zero n remaining = []
pbst_roots_loop (suc fuel) n remaining =
    let j = floor_log2 remaining in
    let size = pow2e j in
    let root : Addr = record { i = add64 (sub64 n remaining) size; j = j } in
    let rest = pbst_roots_loop fuel n (sub64 remaining size) in
    if remaining == 0 then [] else root ∷ rest

-- Each round clears one bit of a 64-bit number.
unfoldable pub pbst_roots : ℕ → List Addr
unfolding pbst_roots_loop
pbst_roots n = pbst_roots_loop 64 n n

unfoldable pub find_root : ℕ → List Addr → Option Addr
find_root k [] = none
find_root k (root ∷ rest) = if contains root.i root.j k then some root else find_root k rest

unfoldable pub distance_below : ℕ → ℕ → Addr → ℕ
distance_below k n root =
    add8 (sub8 root.j (count_ones (sub64 k (range root.i root.j).start)))
      (if not (root.i == n) then 1 else 0)

unfoldable pub entry_access_distance : ℕ → ℕ → Option ℕ
unfolding find_root
entry_access_distance k n = elim (find_root k (pbst_roots n)) [
  | none ↦ none
  | some root ↦ some (distance_below k n root)
]

-- `_branch_count` of `stratum_sample_size`; `none` is fuel run out.
pub branch_count : ℕ → ℕ → ℕ → ℕ → ℕ → Option ℕ
branch_count fuel ti i zero count = some count
branch_count zero ti i (suc k) count = none
branch_count (suc fuel) ti i (suc k) count =
    let (left, right) = subnodes_of i (suc k) in
    let go_left = branch_count fuel ti left.0 left.1 (add8 count 1) in
    let go_right = branch_count fuel ti right.0 right.1 (add8 count 1) in
    if contains left.0 left.1 ti then go_left else go_right

-- A node's height is at most 64, and each round goes down.
unfoldable pub stratum_sample_size : ℕ → ℕ → Option ℕ
unfolding branch_count
stratum_sample_size n i =
    let (ri, rj) = root_of n in if contains ri rj i then branch_count 64 i ri rj 0 else some 0
