-- ===== src/Entry.antt =====
-- src/lib.rs: the entries of the list, one for each generation, with the nodes that it added.
use stratified_hash_tree.Prelude.{ℕ, Option, none, some, List, [], ◌∷◌, ◌==◌, if◌then◌else◌}
use stratified_hash_tree.Hashing.{Hash}

pub record Address : Type 0 where
  pub i : ℕ
  pub j : ℕ
  pub position : ℕ

pub record MetaInfo : Type 0 where
  pub address : Address
  pub hash : Hash

pub record INode : Type 0 where
  pub meta : MetaInfo
  pub left : Address
  pub right : Address

pub record ENode : Type 0 where
  pub meta : MetaInfo
  pub payload : List ℕ

pub record Entry : Type 0 where
  pub enode : ENode
  pub inodes : List INode

-- The last of the inodes, or else the leaf.
unfoldable pub root_from : MetaInfo → List INode → MetaInfo
root_from leaf [] = leaf
root_from leaf (x ∷ xs) = root_from x.meta xs

unfoldable pub root : Entry → MetaInfo
unfolding root_from
root e = root_from e.enode.meta e.inodes

unfoldable pub find_inode : ℕ → List INode → Option INode
find_inode j [] = none
find_inode j (x ∷ xs) = if x.meta.address.j == j then some x else find_inode j xs

unfoldable pub inode : Entry → ℕ → Option INode
unfolding find_inode
inode e j = find_inode j e.inodes

unfoldable pub meta : Entry → ℕ → Option MetaInfo
unfolding inode
meta e j =
    if j == 0 then some e.enode.meta else elim (inode e j) [ none ↦ none | some x ↦ some x.meta ]
