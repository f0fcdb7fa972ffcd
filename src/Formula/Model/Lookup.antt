-- ===== src/Formula/Model/Lookup.antt =====
-- `Model::root` and `Model::inode`.
use stratified_hash_tree.Prelude.{
  ℕ, zero, suc, ◌+◌, ◌-◌, ◌%◌, ◌^◌, ◌≤◌, ◌<◌, ◌≡◌, refl, sym, ap, ap₂, Bool, ◌∙◌, List, [], ◌∷◌,
  arith, none, some, ◌==◌, false, true, inl, inr, Bool-cases, ==_iff, ◌&&◌, ltb, ltb→lt,
}
use stratified_hash_tree.Prelude.Words.{sub64_of_le, shl64_one, two_pow_lt_inv}
use stratified_hash_tree.Formula.Tree.{Addr, NodeIndex, root_of, is_pbst, subnodes_of, is_valid}
use native.Mathlib.Nat.{pow-suc, mod-eq-sub-mod}
use mathlib.Core.Path.{subst}
use stratified_hash_tree.Formula.Tree.Nodes.{IsNode, IsAligned, multiple_of_le}
use stratified_hash_tree.Formula.Tree.Valid.{is_pbst_lem, is_valid_iff, mod_in_block}
use stratified_hash_tree.Formula.Tree.Subnodes.{height_lem}
use stratified_hash_tree.Formula.Roots.{pbst_roots}
use stratified_hash_tree.Formula.Roots.Tiling.{Tiles, pbst_roots-Tiles}
use stratified_hash_tree.Formula.Roots.Spine.{
  spine_height, Tiles-some_leaf, Tiles-bounds, rest_multiple, perfect-IsNode,
}
use stratified_hash_tree.Formula.Roots.Access.{root_of-eq-spine}
use stratified_hash_tree.Formula.Model.{
  INode, addr, create_ephemeral_nodes, new, root, inode, find_ephemeral, pbst_inode,
}
use stratified_hash_tree.Formula.Model.Chain.{
  Falls, add8_one, ephemerals-Falls, last_height, pbst-subnodes_of, multiple_ge,
}

root_of_trees :
    (n : ℕ)
    → 0 < n
    → n < 2 ^ 64
    → (xs : List Addr) → Tiles 64 0 n xs
    → root (record { n = n; pbst_roots = xs; ephemeral_nodes = create_ephemeral_nodes n xs })
      ≡ some (addr (root_of n).0 (root_of n).1)
unfolding root create_ephemeral_nodes spine_height
root_of_trees n pos h [] t = absurd (omega arith)
root_of_trees n pos h (a ∷ []) t = ap some (
    ap (λ (i : ℕ). addr i a.j) t.3
    ∙ ap (λ (r : NodeIndex). addr r.0 r.1) (sym (root_of-eq-spine n a [] h t)))
root_of_trees n pos h (a ∷ b ∷ rest) t = ap some (
    ap (addr n) (add8_one a.j (omega (arith, t.0)))
    ∙ ap (λ (r : NodeIndex). addr r.0 r.1) (sym (root_of-eq-spine n a (b ∷ rest) h t)))

-- The root of the model of a generation from 1 to 2 ^ 64 - 1 is the root that `root_of` computes
-- from the index alone.
pub root-new : (n : ℕ) → 0 < n → n < 2 ^ 64 → root (new n) ≡ some (addr (root_of n).0 (root_of n).1)
unfolding new
root-new n pos h = root_of_trees n pos h (pbst_roots n) (pbst_roots-Tiles n h)

-- A joining node is never over a multiple of its size.
find-pbst-none :
    (k lo n j : ℕ) (a : Addr) (rest : List Addr)
    → lo % 2 ^ k ≡ 0
    → n % 2 ^ j ≡ 0
    → k ≤ 64
    → Tiles k lo n (a ∷ rest)
    → find_ephemeral n j (create_ephemeral_nodes n (a ∷ rest)) ≡ none
unfolding find_ephemeral create_ephemeral_nodes
find-pbst-none k lo n j a [] e m hk t = refl
find-pbst-none k lo n j a (b ∷ rest) e m hk t =
    rw (add8_one a.j (omega (arith, t.0)), other_height)
      (rw andf (
        find-pbst-none a.j a.i n j b rest (rest_multiple k lo n a (b ∷ rest) t) m
          (omega (arith, t.0)) t.3))
  where
    bounds : (a.i ≤ n) × (n < a.i + 2 ^ a.j)
    bounds = Tiles-bounds a.j a.i n (b ∷ rest) t.3

    some_leaf : lo < n
    some_leaf = Tiles-some_leaf k lo n a (b ∷ rest) t

    part : n < lo + 2 ^ suc a.j
    part = omega (arith, bounds, t.2, pow-suc 2 a.j)

    aligned : IsAligned lo n (suc a.j)
    aligned = record {
      multiple = multiple_of_le lo (suc a.j) k t.0 e;
      some_leaf = some_leaf;
      fits = omega (arith, part);
    }

    other_height : (suc a.j == j) ≡ false
    other_height = elim (Bool-cases (suc a.j == j)) [
      | inl same ↦ absurd (
          let z : n % 2 ^ suc a.j ≡ 0 = rw ((==_iff _ _).0 same) m in
          omega (arith, mod_in_block lo n (suc a.j) aligned part, some_leaf, z))
      | inr d ↦ d
    ]

    andf : ((n == n) && false) ≡ false
    andf = ground arith

find-pbst-none_of :
    (n j : ℕ)
    → 0 < n
    → n % 2 ^ j ≡ 0
    → (xs : List Addr) → Tiles 64 0 n xs
    → find_ephemeral n j (create_ephemeral_nodes n xs) ≡ none
find-pbst-none_of n j pos m [] t = absurd (omega arith)
find-pbst-none_of n j pos m (a ∷ rest) t =
    find-pbst-none 64 0 n j a rest (omega arith) m (omega arith) t

multiple_of_pbst : (n j : ℕ) → n < 2 ^ 64 → is_pbst n j ≡ true → j ≤ 64 → n % 2 ^ j ≡ 0
multiple_of_pbst n j h e hj = (==_iff _ _).0 (sym (is_pbst_lem n j h hj) ∙ e)

inode-none : (n j : ℕ) → 0 < n → n < 2 ^ 64 → is_pbst n j ≡ true → j ≤ 64 → inode (new n) n j ≡ none
unfolding inode new
inode-none n j pos h e hj =
    let past : ltb n n ≡ false = ground arith in
    rw (e, past)
      (elim (Bool-cases (j == 0)) [
        | inl z ↦ rw z refl
        | inr nz ↦ rw nz (
            find-pbst-none_of n j pos (multiple_of_pbst n j h e hj) (pbst_roots n)
              (pbst_roots-Tiles n h))
      ])

pbst-IsNode : (n j : ℕ) → 0 < n → n % 2 ^ j ≡ 0 → IsNode (n - 2 ^ j) n j
pbst-IsNode n j pos m =
    let le : 2 ^ j ≤ n = multiple_ge n (2 ^ j) pos m in
    let back : n - 2 ^ j + 2 ^ j ≡ n = omega (arith, le) in
    rw back at (perfect-IsNode (n - 2 ^ j) j (sym (mod-eq-sub-mod le) ∙ m))

pbst-valid : (n j : ℕ) → 0 < n → n < 2 ^ 64 → is_pbst n j ≡ true → j ≤ 64 → is_valid n j ≡ true
pbst-valid n j pos h e hj =
    (is_valid_iff n j pos h).1 (n - 2 ^ j, pbst-IsNode n j pos (multiple_of_pbst n j h e hj))

-- For `n` from 1 to 2 ^ 64 - 1, a perfect tree over the latest entry `n`, up to 64 high, has a
-- root, which `is_valid` accepts, and `inode` of the model of generation `n` returns no node for
-- it.
pub inode-latest-none :
    (n j : ℕ)
    → 0 < n
    → n < 2 ^ 64
    → is_pbst n j ≡ true
    → j ≤ 64
    → (is_valid n j ≡ true) × (inode (new n) n j ≡ none)
inode-latest-none n j pos h e hj = (pbst-valid n j pos h e hj, inode-none n j pos h e hj)

-- What a search that succeeds returns.
abbrev Joins : ℕ → ℕ → INode → Type 0
Joins i j x =
    (x.node ≡ addr i j) × (subnodes_of i j ≡ ((x.left.i, x.left.j), (x.right.i, x.right.j)))

found_eq : (y x : INode) → some y ≡ some x → y ≡ x
found_eq y x e = cc

and-left : (a b : Bool) → (a && b) ≡ true → a ≡ true
and-left a b h = ground arith

and-right : (a b : Bool) → (a && b) ≡ true → b ≡ true
and-right a b h = ground arith

found-Joins :
    (n top i j : ℕ) (y : INode) (ys : List INode) (bottom : ℕ)
    → Falls n top bottom (y ∷ ys)
    → (y.node.i == i) ≡ true
    → (y.node.j == j) ≡ true
    → Joins i j y
found-Joins n top i j y ys bottom f p q =
    let ei : y.node.i ≡ i = (==_iff _ _).0 p in
    let ej : y.node.j ≡ j = (==_iff _ _).0 q in
    let en : n ≡ i = sym (ap (λ (a : Addr). a.i) f.0) ∙ ei in
    let et : top ≡ j = sym (ap (λ (a : Addr). a.j) f.0) ∙ ej in
    let er : n ≡ y.right.i = sym (ap (λ (a : Addr). a.i) f.2) in
    (
      ap₂ addr ei ej,
      ap₂ subnodes_of (sym en) (sym et)
          ∙ f.3
          ∙ ap (λ (r : ℕ). ((y.left.i, y.left.j), (r, y.right.j))) er,
    )

find-Joins :
    (n top bottom i j : ℕ) (xs : List INode) (x : INode)
    → Falls n top bottom xs
    → find_ephemeral i j xs ≡ some x
    → Joins i j x
unfolding find_ephemeral
find-Joins n top bottom i j [] x f e = cc
find-Joins n top bottom i j (y ∷ ys) x f e = elim (Bool-cases (y.node.i == i && y.node.j == j)) [
  | inl here ↦
      subst (Joins i j) (found_eq y x (rw here at e))
        (found-Joins n top i j y ys bottom f (and-left _ _ here) (and-right _ _ here))
  | inr later ↦ find-Joins n y.right.j bottom i j ys x f.4 (rw later at e)
]

find-Joins_of :
    (n i j : ℕ) (x : INode)
    → n < 2 ^ 64
    → (xs : List Addr) → Tiles 64 0 n xs
    → find_ephemeral i j (create_ephemeral_nodes n xs) ≡ some x
    → Joins i j x
unfolding find_ephemeral create_ephemeral_nodes
find-Joins_of n i j x h [] t e = cc
find-Joins_of n i j x h (a ∷ rest) t e =
    find-Joins n (spine_height (a ∷ rest)) (last_height (a ∷ rest)) i j _ x
      (ephemerals-Falls 64 0 n a rest (omega arith) (omega arith) h t) e

pbst_inode-Joins :
    (i k : ℕ)
    → 0 < i
    → i < 2 ^ 64
    → suc k ≤ 64
    → is_pbst i (suc k) ≡ true
    → Joins i (suc k) (pbst_inode i (suc k))
unfolding pbst_inode
pbst_inode-Joins i k pos h hj e =
    let m : i % 2 ^ suc k ≡ 0 = multiple_of_pbst i (suc k) h e hj in
    let le : 2 ^ suc k ≤ i = multiple_ge i (2 ^ suc k) pos m in
    let low : suc k < 64 = two_pow_lt_inv (suc k) 64 (omega (arith, le)) in
    let left : i - 2 ^ suc k + 2 ^ k ≡ i - 2 ^ k = omega (arith, le, pow-suc 2 k) in
    rw (height_lem k (omega arith), shl64_one k (omega arith))
      (rw (sub64_of_le i (2 ^ k) (omega (arith, le, pow-suc 2 k)) h)
        (refl, pbst-subnodes_of i k pos h (omega arith) m ∙ ap (λ (l : ℕ). ((l, k), (i, k))) left))

-- In the model of a generation below 2 ^ 64, every node that `inode` returns, asked for an index
-- from 1 and a height up to 64, is the node asked for, with the subnodes that `subnodes_of`
-- computes.
pub inode-Joins :
    (n i j : ℕ) (x : INode)
    → n < 2 ^ 64
    → 0 < i
    → j ≤ 64
    → inode (new n) i j ≡ some x
    → (x.node ≡ addr i j) × (subnodes_of i j ≡ ((x.left.i, x.left.j), (x.right.i, x.right.j)))
unfolding inode new
inode-Joins n i zero x h pos hj e = cc
inode-Joins n i (suc k) x h pos hj e = elim (Bool-cases (is_pbst i (suc k) && ltb i n)) [
  | inl p ↦ subst (Joins i (suc k)) (found_eq _ _ (rw (above, p) at e)) (
      pbst_inode-Joins i k pos (omega (arith, ltb→lt i n (and-right _ _ p), h)) hj (and-left _ _ p))
  | inr q ↦ find-Joins_of n i (suc k) x h (pbst_roots n) (pbst_roots-Tiles n h) (rw (above, q) at e)
]
  where
    above : (suc k == 0) ≡ false
    above = ground arith
