-- ===== src/Slate/Spec.antt =====
-- The specification: the hash of a node over a sequence of values, and a cache that is current.
use stratified_hash_tree.Prelude.{
  ℕ, zero, suc, ◌<◌, ◌≡◌, sym, ap, ap₂, ◌∙◌, none, some, List, [], ◌∷◌, All,
}
use stratified_hash_tree.Prelude.Map.{lookup}
use stratified_hash_tree.Formula.Tree.{Addr, NodeIndex, subnodes_of, root_of}
use stratified_hash_tree.Formula.Roots.{pbst_roots}
use stratified_hash_tree.Hashing.{Hasher, Hash, from_bytes, combine}
use stratified_hash_tree.Formula.Tree.Nodes.{IsNode}
use stratified_hash_tree.Entry.{INode, MetaInfo, Entry, root}
use stratified_hash_tree.Slate.{address}
use stratified_hash_tree.Cache.{Cache, revision, last_entry}

module _ ⦃H : Hasher⦄ (payload : ℕ → List ℕ) where
  -- `h` is the hash of b_{i,j} over the values `payload 1`, `payload 2`, …: that of the value at a
  -- leaf, and above the leaves that of the height and the hashes of both subnodes.
  pub data HashOf : ℕ → ℕ → Hash → Type 0 where
    at_leaf : {i : ℕ} {h : Hash} → h ≡ from_bytes 0 (payload i) → HashOf i zero h
    at_node :
        {i k il jl ir jr : ℕ} {h hl hr : Hash}
        → subnodes_of i (suc k) ≡ ((il, jl), (ir, jr))
        → HashOf il jl hl
        → HashOf ir jr hr
        → h ≡ combine hl (suc k) hr
        → HashOf i (suc k) h

-- What was appended: the value of each index, and the position at which its entry is stored.
pub record Log : Type 0 where
  pub payload : ℕ → List ℕ
  pub position : ℕ → ℕ

module _ ⦃H : Hasher⦄ (log : Log) where
  -- The metadata `m` describes b_{i,j}.
  pub record Describes (i j : ℕ) (m : MetaInfo) : Type 0 where
    pub index : m.address.i ≡ i
    pub height : m.address.j ≡ j
    pub stored_at : m.address.position ≡ log.position i
    pub hash_of : HashOf log.payload i j m.hash

  -- The nodes of the entry `n` above height `j`, up to `top`: each is a node of the tree over the
  -- one before it and over a left subnode, whose address has the position of the entry it belongs
  -- to.
  abbrev pub Linked : ℕ → ℕ → ℕ → List INode → Type 0
  Linked n j top [] = j ≡ top
  Linked n j top (x ∷ xs) =
      Describes n x.meta.address.j x.meta
      × (j < x.meta.address.j)
      × (x.left.position ≡ log.position x.left.i)
      × (subnodes_of n x.meta.address.j ≡ ((x.left.i, x.left.j), (n, j)))
      × ((lo : ℕ) × IsNode lo n x.meta.address.j)
      × (x.right ≡ address n j (log.position n))
      × Linked n x.meta.address.j top xs

  -- The entry of index `n`: its value and its hash, and the nodes up to the root of the generation.
  pub record IsEntry (n : ℕ) (e : Entry) : Type 0 where
    pub value : e.enode.payload ≡ log.payload n
    pub leaf : Describes n 0 e.enode.meta
    pub links : Linked n 0 (root_of n).1 e.inodes
    pub top : Describes n (root_of n).1 (root e)

  -- The cache knows the root of a perfect tree.
  abbrev pub Knows : Cache → Addr → Type 0
  Knows c a = (m : MetaInfo) × (lookup a.i c.pbst_roots ≡ some m) × Describes a.i a.j m

  -- The cache is that of generation `n` at level 0, as `Slate::new` has it: it knows each of its
  -- perfect trees and no later one, every entry that it holds is the one of its index, and from
  -- generation 1 on the last entry is there.
  pub record IsCurrent (n : ℕ) (c : Cache) : Type 0 where
    pub at_level : c.level ≡ 0
    pub at_revision : revision c ≡ n
    pub knows : All (Knows c) (pbst_roots n)
    pub nothing_later : (i : ℕ) → n < i → lookup i c.pbst_roots ≡ none
    pub no_entry : n ≡ 0 → last_entry c ≡ none
    pub has_last : 0 < n → (e : Entry) × (last_entry c ≡ some e) × IsEntry n e
    pub cached : (i : ℕ) (e : Entry) → lookup i c.cache ≡ some e → IsEntry i e

-- The hash of a node is determined by the values.
pub HashOf-unique :
    ⦃H : Hasher⦄ (payload : ℕ → List ℕ) (i j : ℕ) (g h : Hash)
    → HashOf payload i j g
    → HashOf payload i j h
    → g ≡ h
HashOf-unique payload i zero g h (at_leaf p) (at_leaf q) = p ∙ sym q
HashOf-unique payload i (suc k) g h (at_node {il} {jl} {ir} {jr} {hl} {hr} s l r p)
      (at_node {il = il'} {jl = jl'} {ir = ir'} {jr = jr'} {hl = hl'} {hr = hr'} t m n q) =
    let e : ((il, jl), (ir, jr)) ≡ ((il', jl'), (ir', jr')) = sym s ∙ t in
    let eil : il ≡ il' = ap (λ (x : NodeIndex × NodeIndex). x.0.0) e in
    let ejl : jl ≡ jl' = ap (λ (x : NodeIndex × NodeIndex). x.0.1) e in
    let eir : ir ≡ ir' = ap (λ (x : NodeIndex × NodeIndex). x.1.0) e in
    let ejr : jr ≡ jr' = ap (λ (x : NodeIndex × NodeIndex). x.1.1) e in
    let left : hl ≡ hl' = HashOf-unique payload il jl hl hl' l (rw (eil, ejl) m) in
    let right : hr ≡ hr' = HashOf-unique payload ir jr hr hr' r (rw (eir, ejr) n) in
    p ∙ ap₂ (λ (a b : Hash). combine a (suc k) b) left right ∙ sym q
