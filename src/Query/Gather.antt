-- ===== src/Query/Gather.antt =====
-- The walk of `get_sample` collects the value of the leaf and the hashes beside the way to it.
use mathlib.Core.Bool.{true≢false}
use mathlib.Core.Path.{subst}
use stratified_hash_tree.Prelude.{
  ℕ, suc, ◌-◌, ◌^◌, ◌<◌, ◌≡◌, refl, sym, ap, ap₂, ◌∙◌, inl, inr, ◌==◌, Bool-cases, true, false,
  Option, none, some, List, ◌∷◌, ok, arith,
}
use stratified_hash_tree.Formula.Tree.{NodeIndex, subnodes_of, contains}
use stratified_hash_tree.Hashing.{Hasher, Hash}
use stratified_hash_tree.Entry.{INode, Entry}
use stratified_hash_tree.Cache.{revision}
use stratified_hash_tree.Storage.{Storage}
use stratified_hash_tree.Sample.Beside.{
  Has, Has-cons, first-Has, AreRight, Beside, keeps-Beside, leaf-Beside, left-Beside, right-Beside,
}
use stratified_hash_tree.Slate.Spec.{Log, HashOf, IsEntry}
use stratified_hash_tree.Query.{Query, WalkDirection, both, terminate, walk, gather}
use stratified_hash_tree.Query.Descent.{Joined, contains_at, contains_apart, contains_split}
use stratified_hash_tree.Query.Places.{Above}
use stratified_hash_tree.Query.Walk.{walk_leaf, walk_terminate, called_at}

-- The witnesses so far, and the value.
abbrev pub Collected : Type 0
Collected = List (NodeIndex × Hash) × Option (List ℕ)

module _ (S : Storage) (i : ℕ) where
  gather_outside :
      (n m j : ℕ) (h : Hash) (v : Option (List ℕ)) (c : Collected)
      → contains m j i ≡ false
      → gather S i n m j h v c ≡ (terminate, (((m, j), h) ∷ c.0, c.1))
  unfolding gather
  gather_outside n m j h v c out = rw (gather, out) refl

  gather_leaf :
      (n m : ℕ) (h : Hash) (v : Option (List ℕ)) (c : Collected)
      → contains m 0 i ≡ true
      → gather S i n m 0 h v c ≡ (terminate, (c.0, v))
  unfolding gather
  gather_leaf n m h v c inside = rw (gather, inside) refl

  pub gather-both :
      (n m j : ℕ) (h : Hash) (v : Option (List ℕ)) (c : Collected)
      → contains m j i ≡ true
      → (j == 0) ≡ false
      → gather S i n m j h v c ≡ (both, c)
  unfolding gather
  gather-both n m j h v c inside inner = rw (gather, inside, inner) refl

module _ (S : Storage) ⦃H : Hasher⦄ (log : Log) (i : ℕ) where
  -- What the walk below a node adds to what was collected.
  pub record Gathered (m j : ℕ) (c after : Collected) : Type 0 where
    pub right : AreRight log.payload c.0 → AreRight log.payload after.0
    pub keeps : (b : NodeIndex) → Has c.0 b → Has after.0 b
    pub outside : contains m j i ≡ false → (after.1 ≡ c.1) × Has after.0 (m, j)
    pub inside : contains m j i ≡ true → (after.1 ≡ some (log.payload i)) × Beside i after.0 (m, j)

  abbrev pub Gathers : ℕ → Query S → ℕ → Entry → ℕ → ℕ → Type 0
  Gathers fuel q k e m j =
      (c : Collected)
      → (after : Collected) × (walk S (gather S i) fuel q k e c ≡ ok after) × Gathered m j c after

  -- A node beside the way is a witness.
  outside-Gathered :
      (m j : ℕ) (h : Hash) (c : Collected)
      → HashOf log.payload m j h
      → contains m j i ≡ false
      → Gathered m j c (((m, j), h) ∷ c.0, c.1)
  outside-Gathered m j h c hash out = record {
    right = λ right. (hash, right);
    keeps = λ b has. Has-cons c.0 (m, j) b h has;
    outside = λ _. (refl, first-Has c.0 m j h);
    inside = λ inside. absurd (true≢false (sym inside ∙ out));
  }

  leaf-Gathered :
      (m : ℕ) (c : Collected)
      → contains m 0 i ≡ true
      → m ≡ i
      → Gathered m 0 c (c.0, some (log.payload m))
  leaf-Gathered m c inside here = record {
    right = λ right. right;
    keeps = λ b has. has;
    outside = λ out. absurd (true≢false (sym inside ∙ out));
    inside = λ _. (ap (λ (n : ℕ). some (log.payload n)) here, leaf-Beside i c.0 m);
  }

  pub leaf-Gathers :
      (fuel m : ℕ) (q : Query S) (e : Entry)
      → 0 < m
      → m < 2 ^ 64
      → IsEntry log m e
      → Gathers (suc fuel) q 0 e m 0
  leaf-Gathers fuel m q e pos room entry c =
      let n = revision q.cache in
      let hash = e.enode.meta.hash in
      let value : some e.enode.payload ≡ some (log.payload m) = ap some entry.value in
      let called : gather S i n e.enode.meta.address.i e.enode.meta.address.j hash
            (some e.enode.payload) c
          ≡ gather S i n m 0 hash (some (log.payload m)) c =
        ap₂ (λ (a b : ℕ). gather S i n a b hash (some e.enode.payload) c) entry.leaf.index
          entry.leaf.height
        ∙ ap (λ (v : Option (List ℕ)). gather S i n m 0 hash v c) value in
      let walks = walk_leaf S (gather S i) fuel q e c in
      elim (Bool-cases (contains m 0 i)) [
        | inl inside ↦
            let at = contains_at (m - 1) m 0 i room (omega arith) (omega arith) in
            let here : m ≡ i = ground (arith, sym at ∙ inside) in
            (
              (c.0, some (log.payload m)),
              walks
                  ∙ ap (λ (p : WalkDirection × Collected). ok p.1)
                      (called ∙ gather_leaf S i n m hash (some (log.payload m)) c inside),
              leaf-Gathered m c inside here,
            )
        | inr out ↦ (
          (((m, 0), hash) ∷ c.0, c.1),
          walks
              ∙ ap (λ (p : WalkDirection × Collected). ok p.1)
                  (called ∙ gather_outside S i n m 0 hash (some (log.payload m)) c out),
          outside-Gathered m 0 hash c entry.leaf.hash_of out,
        )
      ]

  -- The callback at a node above the leaves.
  pub called_node :
      (m j : ℕ) (q : Query S) (e : Entry) (x : INode) (c : Collected)
      → IsEntry log m e
      → x.meta.address.j ≡ j
      → called_at S (gather S i) q e x c ≡ gather S i (revision q.cache) m j x.meta.hash none c
  called_node m j q e x c entry at =
      ap₂ (λ (a b : ℕ). gather S i (revision q.cache) a b x.meta.hash none c) entry.leaf.index at

  pub outside-Gathers :
      (fuel m k j : ℕ) (q : Query S) (e : Entry)
      → IsEntry log m e
      → Above log m 0 e.inodes k j
      → contains m j i ≡ false
      → Gathers (suc fuel) q (suc k) e m j
  outside-Gathers fuel m k j q e entry a out c =
      let hash = a.node.meta.hash in
      let called =
        called_node m j q e a.node c entry a.height
        ∙ gather_outside S i (revision q.cache) m j hash none c out in
      (
        (((m, j), hash) ∷ c.0, c.1),
        walk_terminate S (gather S i) fuel k q e a.node c a.found
              (ap (λ (p : WalkDirection × Collected). p.0) called)
            ∙ ap (λ (p : WalkDirection × Collected). ok p.1) called,
        outside-Gathered m j hash c
            (subst (λ (t : ℕ). HashOf log.payload m t hash) a.height a.describes.hash_of) out,
      )

  -- The walk to both sides of a node, the right one first.
  pub both-Gathered :
      (m j : ℕ) (x : INode) (c mid after : Collected)
      → m < 2 ^ 64
      → (y : Joined log m j x) → contains m x.meta.address.j i ≡ true
      → Gathered m j c mid
      → Gathered x.left.i x.left.j mid after
      → Gathered m x.meta.address.j c after
  both-Gathered m j x c mid after room y inside righted lefted = record {
    right = λ right. lefted.right (righted.right right);
    keeps = λ b has. lefted.keeps b (righted.keeps b has);
    outside = λ out. absurd (true≢false (sym inside ∙ out));
    inside = λ _. elim (Bool-cases (contains x.left.i x.left.j i)) [
      | inl there ↦
          let apart = contains_apart y.lo m y.k i (x.left.i, x.left.j) (m, j) room y.splits there in
          let taken = lefted.inside there in
          (
            taken.0,
            subst (λ (t : ℕ). Beside i after.0 (m, t)) (sym y.height)
                (left-Beside i after.0 m y.k (x.left.i, x.left.j) (m, j) split there
                  (lefted.keeps (m, j) (righted.outside apart).1) taken.1),
          )
      | inr gone ↦ elim (Bool-cases (contains m j i)) [
        | inr missing ↦ absurd (
            true≢false (
              sym inside
              ∙ ap (λ (t : ℕ). contains m t i) y.height
              ∙ contains_split y.lo m y.k i (x.left.i, x.left.j) (m, j) room y.splits gone missing))
        | inl here ↦
            let taken = righted.inside here in
            let beside = lefted.outside gone in
            (
              beside.0 ∙ taken.0,
              subst (λ (t : ℕ). Beside i after.0 (m, t)) (sym y.height)
                  (right-Beside i after.0 m y.k (x.left.i, x.left.j) (m, j) split gone beside.1
                    (keeps-Beside i mid.0 after.0 (m, j) lefted.keeps taken.1)),
            )
      ]
    ];
  }
    where
      split : subnodes_of m (suc y.k) ≡ ((x.left.i, x.left.j), (m, j))
      split = ap (subnodes_of m) (sym y.height) ∙ y.subnodes
