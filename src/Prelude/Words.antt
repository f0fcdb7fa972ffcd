-- ===== src/Prelude/Words.antt =====
-- Machine words as numbers, with the wrap of a release build written out: `u64`, `u8` and the
-- shifts, whose count is taken modulo the width.
use Prim.Native.Nat.{ℕ, zero, suc, ◌+◌, ◌-◌, ◌*◌, ◌/◌, ◌%◌, ◌^◌, ◌≤◌, ◌<◌}
use mathlib.Core.Path.{◌≡◌, ◌∙◌}
use native.Mathlib.Nat.{mod-eq_of_lt, pow-le-pow_right, one-mul}
use native.Mathlib.Omega.{arith}
use stratified_hash_tree.Prelude.Tests.{◌==◌, if◌then◌else◌}

abbrev pub u64_mod : ℕ
u64_mod = 2 ^ 64

unfoldable pub add64 : ℕ → ℕ → ℕ
add64 a b = (a + b) % 2 ^ 64

unfoldable pub sub64 : ℕ → ℕ → ℕ
sub64 a b = (a + 2 ^ 64 - b) % 2 ^ 64

unfoldable pub add32 : ℕ → ℕ → ℕ
add32 a b = (a + b) % 2 ^ 32

unfoldable pub add8 : ℕ → ℕ → ℕ
add8 a b = (a + b) % 2 ^ 8

unfoldable pub sub8 : ℕ → ℕ → ℕ
sub8 a b = (a + 2 ^ 8 - b) % 2 ^ 8

unfoldable pub shl64 : ℕ → ℕ → ℕ
shl64 x k = x * 2 ^ (k % 64) % 2 ^ 64

unfoldable pub shr64 : ℕ → ℕ → ℕ
shr64 x k = x / 2 ^ (k % 64)

-- The number of binary digits of a word of at most `f` bits.
unfoldable pub bit_len : ℕ → ℕ → ℕ
bit_len zero x = 0
bit_len (suc f) x = if x == 0 then 0 else suc (bit_len f (x / 2))

unfoldable pub leading_zeros : ℕ → ℕ
unfolding bit_len
leading_zeros x = 64 - bit_len 64 x

-- The number of ones among the lowest `f` binary digits.
unfoldable pub ones : ℕ → ℕ → ℕ
ones zero x = 0
ones (suc f) x = ones f (x / 2) + x % 2

unfoldable pub count_ones : ℕ → ℕ
unfolding ones
count_ones x = ones 64 x

pub add64_of_lt : (a b : ℕ) → a + b < 2 ^ 64 → add64 a b ≡ a + b
unfolding add64
add64_of_lt a b h = omega arith

pub sub64_of_le : (a b : ℕ) → b ≤ a → a < 2 ^ 64 → sub64 a b ≡ a - b
unfolding sub64
sub64_of_le a b h k = omega arith

pub add32_of_lt : (a b : ℕ) → a + b < 2 ^ 32 → add32 a b ≡ a + b
unfolding add32
add32_of_lt a b h = omega arith

pub add8_of_lt : (a b : ℕ) → a + b < 256 → add8 a b ≡ a + b
unfolding add8
add8_of_lt a b h = omega arith

pub sub8_of_le : (a b : ℕ) → b ≤ a → a < 256 → sub8 a b ≡ a - b
unfolding sub8
sub8_of_le a b h k = omega arith

pub two_pow_pos : (k : ℕ) → 0 < 2 ^ k
two_pow_pos k = native.Mathlib.Nat.one-le-pow k 2 (omega arith)

pub two_pow_le : {a b : ℕ} → a ≤ b → 2 ^ a ≤ 2 ^ b
two_pow_le h = pow-le-pow_right (omega arith) h

pub two_pow_lt : {a b : ℕ} → a < b → 2 ^ a < 2 ^ b
two_pow_lt {a} h = omega (arith, two_pow_pos a, two_pow_le h, native.Mathlib.Nat.pow-suc 2 a)

pub two_pow_lt_inv : (a b : ℕ) → 2 ^ a < 2 ^ b → a < b
two_pow_lt_inv a b h = elim (native.Mathlib.Decide.dec_lt a b) [
  | yes p ↦ p
  | no p ↦ absurd (let q : 2 ^ b ≤ 2 ^ a = two_pow_le (omega arith) in omega arith)
]

-- Below the width a shift multiplies, as long as no bit leaves the word.
pub shl64_of_lt : (x k : ℕ) → k < 64 → x * 2 ^ k < 2 ^ 64 → shl64 x k ≡ x * 2 ^ k
unfolding shl64
shl64_of_lt x k h fits = rw (mod-eq_of_lt h) (mod-eq_of_lt fits)

pub shl64_one : (k : ℕ) → k < 64 → shl64 1 k ≡ 2 ^ k
shl64_one k h = shl64_of_lt 1 k h (rw one-mul (two_pow_lt h)) ∙ one-mul (2 ^ k)

pub shr64_of_lt : (x k : ℕ) → k < 64 → shr64 x k ≡ x / 2 ^ k
unfolding shr64
shr64_of_lt x k h = rw (mod-eq_of_lt h)
