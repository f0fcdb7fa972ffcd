-- ===== src/Formula/Model/Lefts.antt =====
-- The left subnodes on the path to a new entry are the trees of the generation before it.
use native.Mathlib.Nat.{pow-suc}
use stratified_hash_tree.Prelude.{
  ℕ, zero, suc, ◌+◌, ◌-◌, ◌^◌, ◌≤◌, ◌<◌, ◌≡◌, refl, sym, ap, ap₂, ◌∙◌, List, [], ◌∷◌, arith, map,
}
use stratified_hash_tree.Prelude.Words.{two_pow_lt_inv}
use stratified_hash_tree.Formula.Arith.{ceil_log2}
use stratified_hash_tree.Formula.Arith.Logs.{ceil_log2_upper}
use stratified_hash_tree.Formula.Tree.{Addr, NodeIndex, root_of}
use stratified_hash_tree.Formula.Tree.Nodes.{IsNode, multiple_of_le}
use stratified_hash_tree.Formula.Tree.Subnodes.{subnodes_of_lem, right-IsNode, root_of-IsNode}
use stratified_hash_tree.Formula.Roots.{pbst_roots}
use stratified_hash_tree.Formula.Roots.Tiling.{Tiles, pbst_roots-Tiles}
use stratified_hash_tree.Formula.Roots.Spine.{Tiles-bounds, Tiles-some_leaf}
use stratified_hash_tree.Formula.Model.{INode, addr}
use stratified_hash_tree.Formula.Model.Chain.{Falls, falling, falling-Falls}

-- The first tree of a tiling is as high as the leaves allow.
first_height :
    (k l lo hi : ℕ) (a b : Addr) (xs ys : List Addr)
    → Tiles k lo hi (a ∷ xs)
    → Tiles l lo hi (b ∷ ys)
    → a.j ≤ b.j
first_height k l lo hi a b xs ys s t =
    let below = Tiles-bounds b.j b.i hi ys t.3 in
    let above = Tiles-bounds a.j a.i hi xs s.3 in
    let lt : a.j < suc b.j =
      two_pow_lt_inv a.j (suc b.j) (omega (arith, below, above, s.2, t.2, pow-suc 2 b.j)) in
    omega (arith, lt)

-- There is one tiling.
pub Tiles-unique :
    (k l lo hi : ℕ) (xs ys : List Addr) → Tiles k lo hi xs → Tiles l lo hi ys → xs ≡ ys
Tiles-unique k l lo hi [] [] s t = refl
Tiles-unique k l lo hi [] (b ∷ ys) s t = absurd (omega (arith, Tiles-some_leaf l lo hi b ys t))
Tiles-unique k l lo hi (a ∷ xs) [] s t = absurd (omega (arith, Tiles-some_leaf k lo hi a xs s))
Tiles-unique k l lo hi (a ∷ xs) (b ∷ ys) s t =
    let ej : a.j ≡ b.j =
      omega (arith, first_height k l lo hi a b xs ys s t, first_height l k lo hi b a ys xs t s) in
    let ei : a.i ≡ b.i = s.2 ∙ ap (λ (j : ℕ). lo + 2 ^ j) ej ∙ sym t.2 in
    ap₂ ◌∷◌ (ap₂ addr ei ej) (Tiles-unique a.j b.j a.i hi xs ys s.3 (rw ei t.3))

lefts-Tiles :
    (n lo top k : ℕ) (xs : List INode)
    → suc n < 2 ^ 64
    → top ≤ 64
    → top ≤ k
    → IsNode lo (suc n) top
    → Falls (suc n) top 0 xs
    → Tiles k lo n (map (λ x. x.left) xs)
lefts-Tiles n lo zero k [] h ht hk node f = omega arith
lefts-Tiles n lo (suc top) k [] h ht hk node f = absurd (omega arith)
lefts-Tiles n lo zero k (x ∷ xs) h ht hk node f = absurd (omega (arith, f.1))
lefts-Tiles n lo (suc top) k (x ∷ xs) h ht hk node f =
    let split : ((lo + 2 ^ top, top), (suc n, ceil_log2 (suc n - (lo + 2 ^ top))))
        ≡ ((x.left.i, x.left.j), (suc n, x.right.j)) =
      sym (subnodes_of_lem lo (suc n) top h (omega arith) node) ∙ f.3 in
    let ei : lo + 2 ^ top ≡ x.left.i = ap (λ (p : NodeIndex × NodeIndex). p.0.0) split in
    let ej : top ≡ x.left.j = ap (λ (p : NodeIndex × NodeIndex). p.0.1) split in
    let er : ceil_log2 (suc n - (lo + 2 ^ top)) ≡ x.right.j =
      ap (λ (p : NodeIndex × NodeIndex). p.1.1) split in
    let right = right-IsNode lo (suc n) top h node in
    rw (← ej, ← ei)
      (
        hk,
        multiple_of_le lo top (suc top) (omega arith) node.0,
        refl,
        lefts-Tiles n (lo + 2 ^ top) x.right.j top xs h (omega (arith, f.1)) (omega (arith, f.1))
            (rw er at right.0) f.4,
      )

-- For `n + 1` below 2 ^ 64, the left subnodes on the path from the root of generation `n + 1` to
-- its entry are the perfect trees of generation `n`, from left to right.
pub lefts-eq-pbst_roots :
    (n : ℕ) → suc n < 2 ^ 64 → map (λ x. x.left) (falling (suc n)) ≡ pbst_roots n
lefts-eq-pbst_roots n h =
    Tiles-unique 64 64 0 n _ _
      (lefts-Tiles n 0 (root_of (suc n)).1 64 (falling (suc n)) h top_le top_le top_node
        (falling-Falls (suc n) (omega arith) h))
      (pbst_roots-Tiles n (omega arith))
  where
    top_le : (root_of (suc n)).1 ≤ 64
    top_le = unfold root_of in (ceil_log2_upper (suc n) (omega arith) h).1

    top_node : IsNode 0 (suc n) (root_of (suc n)).1
    top_node = unfold root_of in root_of-IsNode (suc n) (omega arith) h
