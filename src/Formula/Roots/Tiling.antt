-- ===== src/Formula/Roots/Tiling.antt =====
-- The roots of generation `n` tile its leaves with perfect trees of falling height.
use native.Mathlib.Nat.{pow-suc}
use stratified_hash_tree.Prelude.{
  ℕ, zero, suc, ◌+◌, ◌-◌, ◌%◌, ◌^◌, ◌≤◌, ◌<◌, ◌≡◌, refl, false, List, [], ◌∷◌, arith, ◌==◌,
}
use stratified_hash_tree.Prelude.Words.{add64_of_lt, sub64_of_le, two_pow_lt_inv}
use stratified_hash_tree.Formula.Arith.{floor_log2}
use stratified_hash_tree.Formula.Arith.Mod.{pow2e_lem}
use stratified_hash_tree.Formula.Arith.Logs.{floor_log2_lem}
use stratified_hash_tree.Formula.Tree.{Addr}
use stratified_hash_tree.Formula.Tree.Nodes.{multiple_of_le, multiple-add}
use stratified_hash_tree.Formula.Roots.{pbst_roots_loop, pbst_roots}

-- Perfect trees, each less high than `k` and than the one before it, over the leaves `lo + 1` to
-- `hi`, each aligned to its size.
abbrev pub Tiles : ℕ → ℕ → ℕ → List Addr → Type 0
Tiles k lo hi [] = lo ≡ hi
Tiles k lo hi (a ∷ rest) =
    (a.j < k) × (lo % 2 ^ a.j ≡ 0) × (a.i ≡ lo + 2 ^ a.j) × Tiles a.j a.i hi rest

loop-zero : (fuel n : ℕ) → pbst_roots_loop fuel n 0 ≡ []
unfolding pbst_roots_loop
loop-zero zero n = refl
loop-zero (suc fuel) n = refl

-- A round of the iterator while leaves are left.
loop-suc :
    (fuel n r : ℕ)
    → 0 < r
    → r ≤ n
    → n < 2 ^ 64
    → pbst_roots_loop (suc fuel) n r
      ≡ record { i = n - r + 2 ^ floor_log2 r; j = floor_log2 r }
        ∷ pbst_roots_loop fuel n (r - 2 ^ floor_log2 r)
unfolding pbst_roots_loop
loop-suc fuel n r pos le h =
    let f = floor_log2_lem r pos (omega arith) in
    let nz : (r == 0) ≡ false = ground arith in
    rw (nz, pow2e_lem (floor_log2 r) f.2, sub64_of_le n r le h)
      (rw (sub64_of_le r (2 ^ floor_log2 r) f.0 (omega arith))
        (rw (add64_of_lt (n - r) (2 ^ floor_log2 r) (omega (arith, f.0))) refl))

pub loop-Tiles :
    (fuel k n r : ℕ)
    → k ≤ fuel
    → k ≤ 64
    → r < 2 ^ k
    → r ≤ n
    → n < 2 ^ 64
    → (n - r) % 2 ^ k ≡ 0
    → Tiles k (n - r) n (pbst_roots_loop fuel n r)
loop-Tiles fuel k n zero hf hk small le h e = rw loop-zero (omega arith)
loop-Tiles zero zero n (suc r) hf hk small le h e = absurd (omega arith)
loop-Tiles zero (suc k) n (suc r) hf hk small le h e = absurd (omega arith)
loop-Tiles (suc fuel) k n (suc r) hf hk small le h e =
    let f = floor_log2_lem (suc r) (omega arith) (omega arith) in
    let b = floor_log2 (suc r) in
    let below : b < k = two_pow_lt_inv b k (omega (arith, f.0)) in
    let here : (n - suc r) % 2 ^ b ≡ 0 = multiple_of_le (n - suc r) b k (omega arith) e in
    let next : n - (suc r - 2 ^ b) ≡ n - suc r + 2 ^ b = omega (arith, f.0) in
    rw (loop-suc fuel n (suc r) (omega arith) le h) (
      below,
      here,
      refl,
      rw next at (
          loop-Tiles fuel b n (suc r - 2 ^ b) (omega arith) (omega arith)
            (omega (arith, f.1, pow-suc 2 b)) (omega arith) h
            (rw next (multiple-add (n - suc r) b here))),
    )

-- The roots of every generation `n` below 2 ^ 64 tile the leaves 1 to `n`: from left to right
-- perfect trees whose heights strictly fall, aligned to their sizes, with no gap and no overlap.
pub pbst_roots-Tiles : (n : ℕ) → n < 2 ^ 64 → Tiles 64 0 n (pbst_roots n)
unfolding pbst_roots
pbst_roots-Tiles n h =
    let z : n - n ≡ 0 = omega arith in
    rw z at (loop-Tiles 64 64 n n (omega arith) (omega arith) h (omega arith) h (omega arith))
