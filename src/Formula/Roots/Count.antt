-- ===== src/Formula/Roots/Count.antt =====
-- The number of ones of a word, and the number of roots.
use native.Mathlib.Nat.{pow-suc, mod-eq_of_lt, sub-zero, lt_of_le_of_lt, le_refl}
use stratified_hash_tree.Prelude.{
  ℕ, zero, suc, ◌+◌, ◌-◌, ◌/◌, ◌%◌, ◌^◌, ◌≤◌, ◌<◌, ◌≡◌, sym, ap, ◌∙◌, List, [], ◌∷◌, arith, length,
}
use stratified_hash_tree.Prelude.Words.{ones, count_ones}
use stratified_hash_tree.Formula.Tree.{Addr, count_pbsts}
use stratified_hash_tree.Formula.Roots.{pbst_roots}
use stratified_hash_tree.Formula.Roots.Tiling.{Tiles, pbst_roots-Tiles}
use stratified_hash_tree.Formula.Roots.Spine.{Tiles-bounds}

pub ones-le : (f k x : ℕ) → x < 2 ^ k → ones f x ≤ k
unfolding ones
ones-le zero k x h = omega arith
ones-le (suc f) zero x h =
    let z : x ≡ 0 = omega arith in rw z (omega (arith, ones-le f zero 0 (omega arith)))
ones-le (suc f) (suc k) x h = omega (arith, ones-le f k (x / 2) (omega (arith, pow-suc 2 k)))

-- One more bit, above all the others.
pub ones_top : (f k x : ℕ) → x < 2 ^ k → k < f → ones f (2 ^ k + x) ≡ suc (ones f x)
unfolding ones
ones_top zero k x h kf = absurd (omega arith)
ones_top (suc f) zero x h kf = let z : x ≡ 0 = omega arith in rw z (omega arith)
ones_top (suc f) (suc k) x h kf =
    let low : (2 ^ suc k + x) / 2 ≡ 2 ^ k + x / 2 = omega (arith, pow-suc 2 k) in
    let bit : (2 ^ suc k + x) % 2 ≡ x % 2 = omega (arith, pow-suc 2 k) in
    rw (low, bit, ones_top f k (x / 2) (omega (arith, pow-suc 2 k)) (omega arith)) (omega arith)

ones-zero : (f : ℕ) → ones f 0 ≡ 0
ones-zero f = omega (arith, ones-le f 0 0 (omega arith))

Tiles-length :
    (k lo hi : ℕ) (xs : List Addr) → k ≤ 64 → Tiles k lo hi xs → length xs ≡ ones 64 (hi - lo)
Tiles-length k lo hi [] hk t = let z : hi - lo ≡ 0 = omega arith in rw z (sym (ones-zero 64))
Tiles-length k lo hi (a ∷ rest) hk t =
    let b = Tiles-bounds a.j a.i hi rest t.3 in
    let split : hi - lo ≡ 2 ^ a.j + (hi - a.i) = omega (arith, t.2, b) in
    rw split (
      ap suc (Tiles-length a.j a.i hi rest (omega (arith, t.0)) t.3)
      ∙ sym (ones_top 64 a.j (hi - a.i) (omega (arith, b)) (omega (arith, t.0))))

-- For every generation below 2 ^ 64, `count_pbsts` is the number of roots that `pbst_roots` yields.
pub count_pbsts-eq-length : (n : ℕ) → n < 2 ^ 64 → count_pbsts n ≡ length (pbst_roots n)
unfolding count_pbsts count_ones
count_pbsts-eq-length n h =
    mod-eq_of_lt (lt_of_le_of_lt (ones-le 64 64 n h) (omega arith))
    ∙ sym (
        Tiles-length 64 0 n (pbst_roots n) (le_refl 64) (pbst_roots-Tiles n h)
        ∙ ap (λ (m : ℕ). ones 64 m) (sub-zero n))
