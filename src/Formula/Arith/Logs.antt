-- ===== src/Formula/Arith/Logs.antt =====
-- `ceil_log2` and `floor_log2` are the rounded logarithms.
use native.Mathlib.Decide.{dec_lt}
use stratified_hash_tree.Prelude.{ℕ, suc, ◌-◌, ◌^◌, ◌≤◌, ◌<◌, ◌≡◌, ◌↔◌, refl, arith}
use stratified_hash_tree.Prelude.Words.{
  sub64, leading_zeros, bit_len, sub64_of_le, two_pow_lt_inv, two_pow_le,
}
use stratified_hash_tree.Prelude.Bits.{bit_len-le, lt-two-pow-bit_len, two-pow-le_of_bit_len}
use stratified_hash_tree.Formula.Arith.{ceil_log2, floor_log2}

ceil_log2-eq-bit_len : (x : ℕ) → 0 < x → x < 2 ^ 64 → ceil_log2 x ≡ bit_len 64 (x - 1)
unfolding ceil_log2 leading_zeros
ceil_log2-eq-bit_len x pos h =
    rw (sub64_of_le x 1 pos h) (omega (arith, bit_len-le 64 64 (x - 1) (omega arith)))

-- For `x` from 1 to 2 ^ 64 - 1, `x` is at most `2 ^ ceil_log2 x`, and `ceil_log2 x` at most 64.
pub ceil_log2_upper : (x : ℕ) → 0 < x → x < 2 ^ 64 → (x ≤ 2 ^ ceil_log2 x) × (ceil_log2 x ≤ 64)
ceil_log2_upper x pos h = rw (ceil_log2-eq-bit_len x pos h) (
  omega (arith, lt-two-pow-bit_len 64 (x - 1) (omega arith)),
  bit_len-le 64 64 (x - 1) (omega arith),
)

-- For `x` from 1 to 2 ^ 64 - 1, `ceil_log2 x` is at most every `k` with `x` at most `2 ^ k`.
pub ceil_log2_least : (x k : ℕ) → 0 < x → x < 2 ^ 64 → x ≤ 2 ^ k → ceil_log2 x ≤ k
ceil_log2_least x k pos h below =
    rw (ceil_log2-eq-bit_len x pos h) (bit_len-le 64 k (x - 1) (omega arith))

-- For `x` from 1 to 2 ^ 64 - 1, `ceil_log2 x` is the least `k` with `x` at most `2 ^ k`: it is at
-- most `k` exactly when `x` is at most `2 ^ k`.
pub ceil_log2_iff : (x k : ℕ) → 0 < x → x < 2 ^ 64 → (ceil_log2 x ≤ k) ↔ (x ≤ 2 ^ k)
ceil_log2_iff x k pos h = (
  λ le. omega (arith, (ceil_log2_upper x pos h).0, two_pow_le {a = ceil_log2 x} {b = k} le),
  ceil_log2_least x k pos h,
)

-- The one height at which `2 ^ k` is the power that closes `x` from above.
pub ceil_log2_unique : (x k : ℕ) → x < 2 ^ 64 → 2 ^ k < x → x ≤ 2 ^ suc k → ceil_log2 x ≡ suc k
ceil_log2_unique x k h low high = omega (
  arith,
  ceil_log2_least x (suc k) pos h high,
  two_pow_lt_inv k (ceil_log2 x) (omega (arith, ceil_log2_upper x pos h)),
)
  where
    pos : 0 < x
    pos = omega arith

pub ceil_log2_one : ceil_log2 1 ≡ 0
unfolding ceil_log2 leading_zeros bit_len sub64
ceil_log2_one = refl

floor_log2-eq : (x b : ℕ) → x < 2 ^ 64 → bit_len 64 x ≡ suc b → floor_log2 x ≡ b
unfolding floor_log2 leading_zeros
floor_log2-eq x b h e = omega (arith, bit_len-le 64 64 x h)

bit_len-ne-zero : (x : ℕ) → 0 < x → x < 2 ^ 64 → 0 < bit_len 64 x
bit_len-ne-zero x pos h = elim (dec_lt 0 (bit_len 64 x)) [
  | yes p ↦ p
  | no p ↦
      let z : bit_len 64 x ≡ 0 = omega arith in
      absurd (let l : x < 2 ^ 0 = rw z at (lt-two-pow-bit_len 64 x h) in omega arith)
]

-- For `x` from 1 to 2 ^ 64 - 1, `2 ^ floor_log2 x` is at most `x`, the next power of two is larger,
-- and `floor_log2 x` is below 64.
pub floor_log2_lem :
    (x : ℕ)
    → 0 < x
    → x < 2 ^ 64
    → (2 ^ floor_log2 x ≤ x) × (x < 2 ^ suc (floor_log2 x)) × (floor_log2 x < 64)
floor_log2_lem x pos h =
    let b : ℕ = bit_len 64 x - 1 in
    let e : bit_len 64 x ≡ suc b = omega (arith, bit_len-ne-zero x pos h) in
    rw (floor_log2-eq x b h e) (
      two-pow-le_of_bit_len 64 x b e,
      rw e at (lt-two-pow-bit_len 64 x h),
      omega (arith, bit_len-le 64 64 x h, e),
    )
