-- ===== src/Formula/Roots/Spine.antt =====
-- The nodes that join the perfect trees of a generation: from the root down, the left subnode is a
-- perfect tree and the right one joins the trees after it.
use native.Mathlib.Nat.{pow-suc}
use stratified_hash_tree.Prelude.{
  ℕ, zero, suc, ◌+◌, ◌-◌, ◌%◌, ◌^◌, ◌≤◌, ◌<◌, ◌≡◌, refl, ap, ◌∙◌, List, [], ◌∷◌, arith,
}
use stratified_hash_tree.Prelude.Words.{two_pow_pos, two_pow_le, two_pow_lt}
use stratified_hash_tree.Formula.Arith.{ceil_log2}
use stratified_hash_tree.Formula.Arith.Logs.{ceil_log2_unique, ceil_log2_one}
use stratified_hash_tree.Formula.Tree.{Addr, subnodes_of}
use stratified_hash_tree.Formula.Tree.Nodes.{IsNode, multiple_of_le, multiple-add}
use stratified_hash_tree.Formula.Tree.Subnodes.{subnodes_of_lem}
use stratified_hash_tree.Formula.Roots.Tiling.{Tiles}

pub Tiles-bounds : (k lo hi : ℕ) (xs : List Addr) → Tiles k lo hi xs → (lo ≤ hi) × (hi < lo + 2 ^ k)
Tiles-bounds k lo hi [] t = (omega arith, omega (arith, two_pow_pos k))
Tiles-bounds k lo hi (a ∷ rest) t = omega (
  arith,
  Tiles-bounds a.j a.i hi rest t.3,
  t.2,
  two_pow_le {a = suc a.j} {b = k} t.0,
  pow-suc 2 a.j,
)

pub Tiles-some_leaf :
    (k lo hi : ℕ) (a : Addr) (rest : List Addr) → Tiles k lo hi (a ∷ rest) → lo < hi
Tiles-some_leaf k lo hi a rest t =
    omega (arith, Tiles-bounds a.j a.i hi rest t.3, t.2, two_pow_pos a.j)

pub perfect-IsNode : (lo j : ℕ) → lo % 2 ^ j ≡ 0 → IsNode lo (lo + 2 ^ j) j
perfect-IsNode lo zero e = refl
perfect-IsNode lo (suc k) e =
    (e, omega (arith, two_pow_lt {a = k} {b = suc k} (omega arith)), omega arith)

-- A node's height is the least that covers its leaves.
pub IsNode_height : (lo i j : ℕ) → i < 2 ^ 64 → IsNode lo i j → ceil_log2 (i - lo) ≡ j
IsNode_height lo i zero h n = let e : i - lo ≡ 1 = omega arith in rw e ceil_log2_one
IsNode_height lo i (suc k) h n =
    ceil_log2_unique (i - lo) k (omega arith) (omega (arith, n.1)) (omega (arith, n.2))

-- The height of the node that joins the trees of a list.
unfoldable pub spine_height : List Addr → ℕ
spine_height [] = 0
spine_height (a ∷ []) = a.j
spine_height (a ∷ b ∷ rest) = suc a.j

pub spine-IsNode :
    (k lo hi : ℕ) (a : Addr) (rest : List Addr)
    → lo % 2 ^ k ≡ 0
    → Tiles k lo hi (a ∷ rest)
    → IsNode lo hi (spine_height (a ∷ rest))
unfolding spine_height
spine-IsNode k lo hi a [] e t =
    let last : hi ≡ lo + 2 ^ a.j = omega (arith, t.2, t.3) in rw last (perfect-IsNode lo a.j t.1)
spine-IsNode k lo hi a (b ∷ rest) e t = (
  multiple_of_le lo (suc a.j) k t.0 e,
  omega (arith, Tiles-some_leaf a.j a.i hi b rest t.3, t.2),
  omega (arith, Tiles-bounds a.j a.i hi (b ∷ rest) t.3, t.2, pow-suc 2 a.j),
)

pub rest_multiple :
    (k lo hi : ℕ) (a : Addr) (rest : List Addr) → Tiles k lo hi (a ∷ rest) → a.i % 2 ^ a.j ≡ 0
rest_multiple k lo hi a rest t = rw t.2 (multiple-add lo a.j t.1)

-- Below a joining node stand the first tree and the node that joins the others.
pub spine-subnodes_of :
    (k lo hi : ℕ) (a b : Addr) (rest : List Addr)
    → lo % 2 ^ k ≡ 0
    → k ≤ 64
    → hi < 2 ^ 64
    → Tiles k lo hi (a ∷ b ∷ rest)
    → subnodes_of hi (suc a.j) ≡ ((a.i, a.j), (hi, spine_height (b ∷ rest)))
unfolding spine_height
spine-subnodes_of k lo hi a b rest e hk hh t =
    subnodes_of_lem lo hi a.j hh (omega (arith, t.0)) (spine-IsNode k lo hi a (b ∷ rest) e t)
    ∙ rw (← t.2) (
        ap (λ (h : ℕ). ((a.i, a.j), (hi, h)))
          (IsNode_height a.i hi (spine_height (b ∷ rest)) hh
            (spine-IsNode a.j a.i hi b rest (rest_multiple k lo hi a (b ∷ rest) t) t.3)))
