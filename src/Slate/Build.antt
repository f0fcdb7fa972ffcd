-- ===== src/Slate/Build.antt =====
-- The loop of `append` computes the hashes of the nodes on the path to the new entry.
use mathlib.Core.Bool.{false≢true}
use mathlib.Core.Path.{subst}
use stratified_hash_tree.Prelude.{
  ℕ, zero, suc, ◌<◌, ◌≡◌, refl, sym, ap, ap₂, ◌∙◌, some, List, [], ◌∷◌, All, arith, ok, ◌⊎◌, inl,
  inr, ◌==◌, ==_iff, Bool-cases, false,
}
use stratified_hash_tree.Prelude.Map.{lookup}
use stratified_hash_tree.Formula.Tree.{subnodes_of}
use stratified_hash_tree.Formula.Model
use stratified_hash_tree.Formula.Model.Chain.{Climbs}
use stratified_hash_tree.Formula.Tree.Nodes.{IsNode}
use stratified_hash_tree.Hashing.{Hasher, Hash, combine}
use stratified_hash_tree.Entry.{MetaInfo, INode, root_from, find_inode}
use stratified_hash_tree.Cache.{Cache}
use stratified_hash_tree.Formula.Tree.{Addr}
use stratified_hash_tree.Formula.Model.{addr}
use stratified_hash_tree.Slate.{address, join, build_inodes}
use stratified_hash_tree.Slate.Spec.{HashOf, at_node, Log, Describes, Linked, Knows}

-- Some node of the list has the height.
abbrev pub Has : ℕ → List Model.INode → Type 0
Has h [] = ⊥
Has h (x ∷ xs) = (x.node.j ≡ h) ⊎ Has h xs

module _ ⦃H : Hasher⦄ (log : Log) (c : Cache) (n : ℕ) where
  -- What the loop returns from height `j` up to `top`.
  pub record Built (j top : ℕ) (right_hash : Hash) (xs : List Model.INode) : Type 0 where
    pub nodes : List INode
    pub builds : build_inodes c (log.position n) right_hash xs ≡ ok nodes
    pub top_root : (m : MetaInfo) → Describes log n j m → Describes log n top (root_from m nodes)
    pub links : Linked log n j top nodes
    pub finds :
        (h : ℕ) → Has h xs → (x : INode) × (find_inode h nodes ≡ some x) × Describes log n h x.meta

  build_cons :
      (right_hash : Hash) (x : Model.INode) (xs : List Model.INode) (left : MetaInfo)
      (rest : List INode)
      → lookup x.left.i c.pbst_roots ≡ some left
      → build_inodes c (log.position n) (join (log.position n) x left right_hash).meta.hash xs
        ≡ ok rest
      → build_inodes c (log.position n) right_hash (x ∷ xs)
        ≡ ok (join (log.position n) x left right_hash ∷ rest)
  unfolding build_inodes
  build_cons right_hash x xs left rest known built = rw (known, built) refl

  -- The node over a known left tree and the path below it.
  join-Describes :
      (j : ℕ) (right_hash : Hash) (x : Model.INode) (left : MetaInfo)
      → x.node.i ≡ n
      → j < x.node.j
      → subnodes_of n x.node.j ≡ ((x.left.i, x.left.j), (n, j))
      → Describes log x.left.i x.left.j left
      → HashOf log.payload n j right_hash
      → Describes log n x.node.j (join (log.position n) x left right_hash).meta
  unfolding join
  join-Describes j right_hash x left ei lt sub l r = record {
    index = ei;
    height = refl;
    stored_at = refl;
    hash_of = over x.node.j refl;
  }
    where
      over :
          (t : ℕ)
          → x.node.j ≡ t
          → HashOf log.payload n x.node.j (combine left.hash x.node.j right_hash)
      over zero e = absurd (omega arith)
      over (suc k) e = rw e (at_node (rw e at sub) l.hash_of r refl)

  -- What the model says of a node over height `j`.
  record IsJoin (j : ℕ) (x : Model.INode) : Type 0 where
    rises : j < x.node.j
    right : x.right ≡ addr n j
    subnodes : subnodes_of n x.node.j ≡ ((x.left.i, x.left.j), (n, j))
    is_node : (lo : ℕ) × IsNode lo n x.node.j

  build_step :
      (j top : ℕ) (right_hash : Hash) (x : Model.INode) (xs : List Model.INode) (left : MetaInfo)
      → lookup x.left.i c.pbst_roots ≡ some left
      → Describes log x.left.i x.left.j left
      → IsJoin j x
      → Describes log n x.node.j (join (log.position n) x left right_hash).meta
      → Built x.node.j top (join (log.position n) x left right_hash).meta.hash xs
      → Built j top right_hash (x ∷ xs)
  unfolding root_from find_inode join
  build_step j top right_hash x xs left known describes joins here rest = record {
    nodes = join (log.position n) x left right_hash ∷ rest.nodes;
    builds = build_cons right_hash x xs left rest.nodes known rest.builds;
    top_root = λ m d. rest.top_root (join (log.position n) x left right_hash).meta here;
    links = (
      here,
      joins.rises,
      describes.stored_at ∙ ap log.position (sym describes.index),
      joins.subnodes
          ∙ ap₂ (λ (i k : ℕ). ((i, k), (n, j))) (sym describes.index) (sym describes.height),
      joins.is_node,
      ap (λ (a : Addr). address a.i a.j (log.position n)) joins.right,
      rest.links,
    );
    finds = λ h has. elim (Bool-cases (x.node.j == h)) [
      | inl this ↦ (
        join (log.position n) x left right_hash,
        rw this refl,
        subst (λ (t : ℕ). Describes log n t (join (log.position n) x left right_hash).meta)
            ((==_iff x.node.j h).0 this) here,
      )
      | inr other ↦ rw other (rest.finds h (later h other has))
    ];
  }
    where
      later : (h : ℕ) → (x.node.j == h) ≡ false → Has h (x ∷ xs) → Has h xs
      later h other (inl e) = absurd (false≢true (sym other ∙ (==_iff x.node.j h).1 e))
      later h other (inr has) = has

  pub build-Built :
      (j top : ℕ) (right_hash : Hash) (xs : List Model.INode)
      → Climbs n j top xs
      → All (λ x. Knows log c x.left) xs
      → All (λ x. (lo : ℕ) × IsNode lo n x.node.j) xs
      → HashOf log.payload n j right_hash
      → Built j top right_hash xs
  build-Built j top right_hash [] climbs known nodes below = record {
    nodes = [];
    builds = unfold build_inodes in refl;
    top_root = λ m d. unfold root_from in rw (← climbs) d;
    links = climbs;
    finds = λ h has. absurd has;
  }
  build-Built j top right_hash (x ∷ xs) climbs known nodes below =
      let (left, found, describes) = known.0 in
      let here = join-Describes j right_hash x left climbs.0 climbs.1 climbs.3 describes below in
      let joins : IsJoin j x = record {
        rises = climbs.1;
        right = climbs.2;
        subnodes = climbs.3;
        is_node = nodes.0;
      } in
      build_step j top right_hash x xs left found describes joins here (
        build-Built x.node.j top (join (log.position n) x left right_hash).meta.hash xs climbs.4
          known.1 nodes.1 here.hash_of)
