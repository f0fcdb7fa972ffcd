-- ===== src/Sample/Genuine.antt =====
-- A sample with the right hashes beside its path has the root hash of the tree.
use mathlib.Core.Path.{subst}
use stratified_hash_tree.Prelude.{
  ℕ, zero, suc, ◌+◌, ◌-◌, ◌^◌, ◌≤◌, ◌<◌, ◌≡◌, refl, sym, ap, ◌∙◌, inl, inr, ◌==◌, ==_iff,
  Bool-cases, true, false, some, List, ok, arith, leb, leb→le, le→leb,
}
use stratified_hash_tree.Formula.Arith.{ceil_log2}
use stratified_hash_tree.Formula.Arith.Logs.{ceil_log2_upper}
use stratified_hash_tree.Formula.Tree.{NodeIndex, subnodes_of, root_of, contains}
use stratified_hash_tree.Formula.Tree.Nodes.{IsNode}
use stratified_hash_tree.Formula.Tree.Subnodes.{
  subnodes_of_lem, left-IsNode, right-IsNode, root_of-IsNode,
}
use stratified_hash_tree.Formula.Roots.Distance.{contains_node}
use stratified_hash_tree.Hashing.{Hasher, Hash, hash, combine}
use stratified_hash_tree.Sample.{StratumSample, witness, compute_hash, root_hash}
use stratified_hash_tree.Slate.Spec.{HashOf, at_leaf, at_node}

module _ ⦃H : Hasher⦄ (payload : ℕ → List ℕ) (s : StratumSample) where
  -- The nodes from the root of the revision down to the leaf.
  pub data OnPath : ℕ → ℕ → Type 0 where
    at_root : OnPath (root_of s.revision).0 (root_of s.revision).1
    go_left :
        {i k : ℕ}
        → OnPath i (suc k)
        → contains (subnodes_of i (suc k)).0.0 (subnodes_of i (suc k)).0.1 s.leaf.i ≡ true
        → OnPath (subnodes_of i (suc k)).0.0 (subnodes_of i (suc k)).0.1
    go_right :
        {i k : ℕ}
        → OnPath i (suc k)
        → contains (subnodes_of i (suc k)).0.0 (subnodes_of i (suc k)).0.1 s.leaf.i ≡ false
        → OnPath (subnodes_of i (suc k)).1.0 (subnodes_of i (suc k)).1.1

  -- The witnesses have a hash for the node, and it is the right one.
  abbrev pub Witnessed : NodeIndex → Type 0
  Witnessed b = (h : Hash) × (witness b s.witnesses ≡ some h) × HashOf payload b.0 b.1 h

  -- The leaf holds its value, and whatever stands beside the path is witnessed.
  pub record IsGenuine : Type 0 where
    pub value : s.leaf.value ≡ payload s.leaf.i
    pub on_the_right :
        (i k : ℕ)
        → OnPath i (suc k)
        → contains (subnodes_of i (suc k)).0.0 (subnodes_of i (suc k)).0.1 s.leaf.i ≡ true
        → Witnessed (subnodes_of i (suc k)).1
    pub on_the_left :
        (i k : ℕ)
        → OnPath i (suc k)
        → contains (subnodes_of i (suc k)).0.0 (subnodes_of i (suc k)).0.1 s.leaf.i ≡ false
        → Witnessed (subnodes_of i (suc k)).0

  -- The computation succeeds with the hash of the node.
  abbrev Computes : ℕ → NodeIndex → Type 0
  Computes fuel b = (h : Hash) × (compute_hash fuel s b.0 b.1 ≡ ok h) × HashOf payload b.0 b.1 h

  compute_leaf : (fuel i : ℕ) → s.leaf.i ≡ i → s.leaf.value ≡ payload i → Computes (suc fuel) (i, 0)
  unfolding compute_hash hash
  compute_leaf fuel i e v =
      let here : (s.leaf.i == i) ≡ true = (==_iff s.leaf.i i).1 e in
      (hash s.leaf, rw (compute_hash, here) refl, at_leaf (rw v refl))

  compute_left :
      (fuel i k : ℕ)
      → contains (subnodes_of i (suc k)).0.0 (subnodes_of i (suc k)).0.1 s.leaf.i ≡ true
      → Computes fuel (subnodes_of i (suc k)).0
      → Witnessed (subnodes_of i (suc k)).1
      → Computes (suc fuel) (i, suc k)
  unfolding compute_hash
  compute_left fuel i k c (a, below, ha) (b, beside, hb) =
      let tree : (suc k == 0) ≡ false = ground arith in
      (combine a (suc k) b, rw (compute_hash, tree, c, below, beside) refl, at_node refl ha hb refl)

  compute_right :
      (fuel i k : ℕ)
      → contains (subnodes_of i (suc k)).0.0 (subnodes_of i (suc k)).0.1 s.leaf.i ≡ false
      → contains (subnodes_of i (suc k)).1.0 (subnodes_of i (suc k)).1.1 s.leaf.i ≡ true
      → Witnessed (subnodes_of i (suc k)).0
      → Computes fuel (subnodes_of i (suc k)).1
      → Computes (suc fuel) (i, suc k)
  unfolding compute_hash
  compute_right fuel i k c d (a, beside, ha) (b, below, hb) =
      let tree : (suc k == 0) ≡ false = ground arith in
      (
        combine a (suc k) b,
        rw (compute_hash, tree, c, d, beside, below) refl,
        at_node refl ha hb refl,
      )

  module _ (genuine : IsGenuine) where
    -- The descent from a node of the path over the leaves `lo + 1` to `i`.
    descends :
        (fuel lo i j : ℕ)
        → j < fuel
        → i < 2 ^ 64
        → j ≤ 64
        → IsNode lo i j
        → lo < s.leaf.i
        → s.leaf.i ≤ i
        → OnPath i j
        → Computes fuel (i, j)
    descends zero lo i j hf hi hj node low high path = absurd (omega arith)
    descends (suc fuel) lo i zero hf hi hj node low high path =
        let here : s.leaf.i ≡ i = omega arith in
        compute_leaf fuel i here (genuine.value ∙ ap payload here)
    descends (suc fuel) lo i (suc k) hf hi hj node low high path =
        elim (Bool-cases
          (contains (subnodes_of i (suc k)).0.0 (subnodes_of i (suc k)).0.1 s.leaf.i)) [
            | inl c ↦
                compute_left fuel i k c
                  (subst (Computes fuel) (sym left) (
                    descends fuel lo (lo + 2 ^ k) k (omega arith) (omega (arith, node.1))
                      (omega arith) left_node low (leb→le _ _ (sym (left_test) ∙ c))
                      (subst (λ (b : NodeIndex). OnPath b.0 b.1) left (go_left path c))))
                  (genuine.on_the_right i k path c)
            | inr c ↦ compute_right fuel i k c (right_test c) (genuine.on_the_left i k path c) (
                subst (Computes fuel) (sym right) (
                  descends fuel (lo + 2 ^ k) i r (omega (arith, right_node.1)) hi
                    (omega (arith, right_node.1)) right_node.0 (beyond c) high
                    (subst (λ (b : NodeIndex). OnPath b.0 b.1) right (go_right path c))))
          ]
      where
        r : ℕ
        r = ceil_log2 (i - (lo + 2 ^ k))

        split : subnodes_of i (suc k) ≡ ((lo + 2 ^ k, k), (i, r))
        split = subnodes_of_lem lo i k hi (omega arith) node

        left : (subnodes_of i (suc k)).0 ≡ (lo + 2 ^ k, k)
        left = ap (λ (p : NodeIndex × NodeIndex). p.0) split

        right : (subnodes_of i (suc k)).1 ≡ (i, r)
        right = ap (λ (p : NodeIndex × NodeIndex). p.1) split

        left_node : IsNode lo (lo + 2 ^ k) k
        left_node = left-IsNode lo i k node

        right_node : IsNode (lo + 2 ^ k) i r × (r ≤ k)
        right_node = right-IsNode lo i k hi node

        left_test :
            contains (subnodes_of i (suc k)).0.0 (subnodes_of i (suc k)).0.1 s.leaf.i
            ≡ leb s.leaf.i (lo + 2 ^ k)
        left_test =
            ap (λ (b : NodeIndex). contains b.0 b.1 s.leaf.i) left
            ∙ contains_node lo (lo + 2 ^ k) k s.leaf.i (omega (arith, node.1)) (omega arith)
                left_node low

        beyond :
            contains (subnodes_of i (suc k)).0.0 (subnodes_of i (suc k)).0.1 s.leaf.i ≡ false
            → lo + 2 ^ k < s.leaf.i
        beyond c =
            let test : leb s.leaf.i (lo + 2 ^ k) ≡ false = sym left_test ∙ c in ground (arith, test)

        right_test :
            contains (subnodes_of i (suc k)).0.0 (subnodes_of i (suc k)).0.1 s.leaf.i ≡ false
            → contains (subnodes_of i (suc k)).1.0 (subnodes_of i (suc k)).1.1 s.leaf.i ≡ true
        right_test c =
            ap (λ (b : NodeIndex). contains b.0 b.1 s.leaf.i) right
            ∙ contains_node (lo + 2 ^ k) i r s.leaf.i hi (omega (arith, right_node.1)) right_node.0
                (beyond c)
            ∙ le→leb s.leaf.i i high

    -- A sample of a leaf of its revision, below 2 ^ 64, whose leaf holds the value of its index and
    -- whose witnesses have the right hash for every node beside the path, has a root hash: that of
    -- the tree over the values.
    pub root_hash-HashOf :
        0 < s.leaf.i
        → s.leaf.i ≤ s.revision
        → s.revision < 2 ^ 64
        → (h : Hash) × (root_hash s ≡ ok h)
          × HashOf payload (root_of s.revision).0 (root_of s.revision).1 h
    unfolding root_hash root_of
    root_hash-HashOf pos high h =
        let bound = ceil_log2_upper s.revision (omega arith) h in
        descends 65 0 s.revision (ceil_log2 s.revision) (omega (arith, bound)) h bound.1
          (root_of-IsNode s.revision (omega arith) h) pos high (unfold root_of in at_root)
