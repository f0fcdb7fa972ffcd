-- ===== src/Formula/Model.antt =====
-- src/formula.rs: the model of generation `n`, that is its perfect trees and the nodes that join
-- them, and the nodes that the generation adds.
pub mod Chain
pub mod Over
pub mod Lefts
pub mod Lookup
use mathlib.Core.List.{reverse, head?}
use stratified_hash_tree.Prelude.{
  ℕ, zero, suc, ◌+◌, Bool, not, ◌&&◌, Option, none, some, List, [], ◌∷◌, ◌++◌, ltb, ◌==◌,
  if◌then◌else◌,
}
use stratified_hash_tree.Prelude.Words.{add64, sub64, add8, sub8, shl64}
use stratified_hash_tree.Formula.Tree.{Addr, is_pbst}
use stratified_hash_tree.Formula.Roots.{pbst_roots}

pub record INode : Type 0 where
  pub node : Addr
  pub left : Addr
  pub right : Addr

pub record Model : Type 0 where
  pub n : ℕ
  pub pbst_roots : List Addr
  pub ephemeral_nodes : List INode

abbrev pub addr : ℕ → ℕ → Addr
addr i j = record { i = i; j = j }

-- The right subnode: the node that was put in front last, or the last tree where there is none.
abbrev pub right_of : Addr → List INode → Addr
right_of b [] = b
right_of b (e ∷ _) = e.node

-- The loop goes from the last two neighbours to the first two and puts each node in front.
unfoldable pub create_ephemeral_nodes : ℕ → List Addr → List INode
create_ephemeral_nodes n [] = []
create_ephemeral_nodes n (a ∷ []) = []
create_ephemeral_nodes n (a ∷ b ∷ rest) =
    let ephemerals = create_ephemeral_nodes n (b ∷ rest) in
    record { node = addr n (add8 a.j 1); left = a; right = right_of b ephemerals } ∷ ephemerals

unfoldable pub new : ℕ → Model
new n = record {
  n = n;
  pbst_roots = pbst_roots n;
  ephemeral_nodes = create_ephemeral_nodes n (pbst_roots n);
}

-- `none` is the panic of `unwrap` on a model with no tree.
unfoldable pub root : Model → Option Addr
root m = elim (head? m.pbst_roots) [
  | none ↦ none
  | some first ↦ elim (head? m.ephemeral_nodes) [ none ↦ some first | some e ↦ some e.node ]
]

-- `find` with the test of `inodes`: a tree over the latest entry that is more than a leaf.
unfoldable pub find_latest : ℕ → List Addr → Option Addr
find_latest n [] = none
find_latest n (a ∷ rest) = if a.i == n && not (a.j == 0) then some a else find_latest n rest

-- The loop over the heights of that tree, downwards.
unfoldable pub pbst_inodes : ℕ → ℕ → List INode
pbst_inodes i zero = []
pbst_inodes i (suc k) =
    record {
      node = addr i (suc k);
      left = addr (add64 (sub64 i (shl64 1 (suc k))) (shl64 1 (sub8 (suc k) 1))) (sub8 (suc k) 1);
      right = addr i (sub8 (suc k) 1);
    }
    ∷ pbst_inodes i k

unfoldable pub latest_inodes : Option Addr → List INode
unfolding pbst_inodes
latest_inodes none = []
latest_inodes (some a) = pbst_inodes a.i a.j

unfoldable pub inodes : Model → List INode
inodes m = reverse (m.ephemeral_nodes ++ latest_inodes (find_latest m.n m.pbst_roots))

unfoldable pub pbst_inode : ℕ → ℕ → INode
pbst_inode i j = record {
  node = addr i j;
  left = addr (sub64 i (shl64 1 (sub8 j 1))) (sub8 j 1);
  right = addr i (sub8 j 1);
}

unfoldable pub find_ephemeral : ℕ → ℕ → List INode → Option INode
find_ephemeral i j [] = none
find_ephemeral i j (e ∷ rest) =
    if e.node.i == i && e.node.j == j then some e else find_ephemeral i j rest

unfoldable pub inode : Model → ℕ → ℕ → Option INode
inode m i j =
    if j == 0
    then none
    else if is_pbst i j && ltb i m.n
    then some (pbst_inode i j)
    else find_ephemeral i j m.ephemeral_nodes
