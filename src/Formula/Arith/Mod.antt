-- ===== src/Formula/Arith/Mod.antt =====
-- `i_mod_2e` and `pow2e` compute the remainder and the power that their names say.
use stratified_hash_tree.Prelude.{
  ℕ, ◌-◌, ◌%◌, ◌^◌, ◌≤◌, ◌<◌, ◌≡◌, ap, ◌∙◌, inl, inr, arith, leb, Bool-cases, leb→le,
}
use stratified_hash_tree.Prelude.Words.{
  sub64, shl64, shl64_one, sub64_of_le, two_pow_pos, two_pow_lt,
}
use stratified_hash_tree.Prelude.Bits.{bit_and_mask}
use stratified_hash_tree.Formula.Arith.{i_mod_2e, pow2e}

pub mask_lem : (j : ℕ) → j < 64 → sub64 (shl64 1 j) 1 ≡ 2 ^ j - 1
mask_lem j h =
    ap (λ (p : ℕ). sub64 p 1) (shl64_one j h) ∙ sub64_of_le (2 ^ j) 1 (two_pow_pos j) (two_pow_lt h)

-- For every index and every height up to 64, `i_mod_2e i j` is the remainder of `i` by `2 ^ j`.
pub i_mod_2e_lem : (i j : ℕ) → i < 2 ^ 64 → j ≤ 64 → i_mod_2e i j ≡ i % 2 ^ j
unfolding i_mod_2e
i_mod_2e_lem i j hi hj = elim (Bool-cases (leb 64 j)) [
  | inl top ↦ let full : j ≡ 64 = omega (arith, leb→le 64 j top) in rw (top, full) (omega arith)
  | inr low ↦ rw (low, mask_lem j (ground arith), bit_and_mask j i)
]

pub pow2e_lem : (j : ℕ) → j < 64 → pow2e j ≡ 2 ^ j
unfolding pow2e
pow2e_lem j h = shl64_one j h
