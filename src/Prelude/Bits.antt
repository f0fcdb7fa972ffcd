-- ===== src/Prelude/Bits.antt =====
-- Bit facts about the words of src/formula.rs: low masks, `|` of disjoint fields, digit counts.
use Prim.Native.Nat.{
  ℕ, zero, suc, ◌+◌, ◌-◌, ◌*◌, ◌/◌, ◌%◌, ◌^◌, ◌≤◌, ◌<◌, min, max, bit_and, bit_or, digits,
  bit_and-bitwise, bit_or-bitwise,
}
use mathlib.Core.Path.{◌≡◌, refl, ap}
use mathlib.Core.Logic.{inl, inr}
use native.Mathlib.Nat.{
  pow-suc, pow-succ', div-div-eq-div-mul, mod_def, mul-div-le, mul_assoc, mul-one,
}
use native.Mathlib.Decide.{dec_le}
use native.Mathlib.Omega.{arith}
use stratified_hash_tree.Prelude.Tests.{◌==◌, Bool-cases, ==_iff}
use stratified_hash_tree.Prelude.Words.{bit_len, two_pow_pos}

-- A bitwise operation is a recursion on binary digits with fuel; more fuel changes nothing.
module _ (z : ℕ → ℕ) (op : ℕ → ℕ → ℕ) where
  pub digits_fuel_irrelevant : (f g x y : ℕ) → x ≤ f → x ≤ g → digits z op f x y ≡ digits z op g x y
  digits_fuel_irrelevant zero zero x y p q = refl
  digits_fuel_irrelevant zero (suc g) zero y p q = refl
  digits_fuel_irrelevant zero (suc g) (suc x) y p q = absurd (omega arith)
  digits_fuel_irrelevant (suc f) zero zero y p q = refl
  digits_fuel_irrelevant (suc f) zero (suc x) y p q = absurd (omega arith)
  digits_fuel_irrelevant (suc f) (suc g) zero y p q = refl
  digits_fuel_irrelevant (suc f) (suc g) (suc x) y p q =
      ap (λ (d : ℕ). d * 2 + op (suc x % 2) (y % 2))
        (digits_fuel_irrelevant f g (suc x / 2) (y / 2) (omega arith) (omega arith))

-- The law of the lowest digit.
pub bit_and_lowest : (x y : ℕ) → bit_and x y ≡ bit_and (x / 2) (y / 2) * 2 + min (x % 2) (y % 2)
bit_and_lowest zero y = omega (arith, bit_and-bitwise 0 y, bit_and-bitwise 0 (y / 2))
bit_and_lowest (suc x) y = omega (
  arith,
  bit_and-bitwise (suc x) y,
  bit_and-bitwise (suc x / 2) (y / 2),
  digits_fuel_irrelevant (λ d. 0) min x (suc x / 2) (suc x / 2) (y / 2) (omega arith) (omega arith),
)

pub bit_or_lowest : (x y : ℕ) → bit_or x y ≡ bit_or (x / 2) (y / 2) * 2 + max (x % 2) (y % 2)
bit_or_lowest zero y = omega (arith, bit_or-bitwise 0 y, bit_or-bitwise 0 (y / 2))
bit_or_lowest (suc x) y = omega (
  arith,
  bit_or-bitwise (suc x) y,
  bit_or-bitwise (suc x / 2) (y / 2),
  digits_fuel_irrelevant (λ d. d) max x (suc x / 2) (suc x / 2) (y / 2) (omega arith) (omega arith),
)

bit_and-zero_below : (f x : ℕ) → x ≤ f → bit_and x 0 ≡ 0
bit_and-zero_below f zero h = refl
bit_and-zero_below zero (suc x) h = absurd (omega arith)
bit_and-zero_below (suc f) (suc x) h =
    omega (arith, bit_and_lowest (suc x) 0, bit_and-zero_below f (suc x / 2) (omega arith))

bit_or-zero_below : (f x : ℕ) → x ≤ f → bit_or x 0 ≡ x
bit_or-zero_below f zero h = refl
bit_or-zero_below zero (suc x) h = absurd (omega arith)
bit_or-zero_below (suc f) (suc x) h =
    omega (arith, bit_or_lowest (suc x) 0, bit_or-zero_below f (suc x / 2) (omega arith))

pub bit_or-zero : (x : ℕ) → bit_or x 0 ≡ x
bit_or-zero x = bit_or-zero_below x x (omega arith)

mod-double : (x p : ℕ) → x % (2 * p) ≡ x / 2 % p * 2 + x % 2
mod-double x p =
    rw (mod_def x (2 * p), ← div-div-eq-div-mul x 2 p, mod_def (x / 2) p)
      (omega (arith, mul-div-le (x / 2) p, mul_assoc 2 p (x / 2 / p)))

pub mod-two-pow-suc : (x k : ℕ) → x % 2 ^ suc k ≡ x / 2 % 2 ^ k * 2 + x % 2
mod-two-pow-suc x k = rw (pow-succ' 2 k) (mod-double x (2 ^ k))

-- A mask of `k` low ones is the remainder by `2 ^ k`.
pub bit_and_mask : (k x : ℕ) → bit_and x (2 ^ k - 1) ≡ x % 2 ^ k
bit_and_mask zero x = omega (arith, bit_and-zero_below x x (omega arith))
bit_and_mask (suc k) x =
    rw (bit_and_lowest x (2 ^ suc k - 1), half, mod-two-pow-suc x k)
      (rw (bit_and_mask k (x / 2)) (omega (arith, odd)))
  where
    half : (2 ^ suc k - 1) / 2 ≡ 2 ^ k - 1
    half = omega (arith, pow-suc 2 k)

    odd : (2 ^ suc k - 1) % 2 ≡ 1
    odd = omega (arith, pow-suc 2 k, two_pow_pos k)

-- `|` of a multiple of `2 ^ k` and a number of `k` bits is their sum.
pub bit_or_disjoint : (k q r : ℕ) → r < 2 ^ k → bit_or (q * 2 ^ k) r ≡ q * 2 ^ k + r
bit_or_disjoint zero q r h = rw (mul-one, ze) (omega (arith, bit_or-zero q))
  where
    ze : r ≡ 0
    ze = omega arith
bit_or_disjoint (suc k) q r h =
    rw (bit_or_lowest (q * 2 ^ suc k) r, half)
      (rw (bit_or_disjoint k q (r / 2) (omega (arith, pow-suc 2 k))) (omega (arith, dbl)))
  where
    dbl : q * 2 ^ suc k ≡ 2 * (q * 2 ^ k)
    dbl = omega (arith, ap (λ (t : ℕ). q * t) (pow-suc 2 k))

    half : q * 2 ^ suc k / 2 ≡ q * 2 ^ k
    half = omega (arith, dbl)

-- `bit_len` is the least number of binary digits that hold the word.
pub bit_len-le : (f k x : ℕ) → x < 2 ^ k → bit_len f x ≤ k
unfolding bit_len
bit_len-le zero k x h = omega arith
bit_len-le (suc f) zero x h = ground arith
bit_len-le (suc f) (suc k) x h = ground (arith, bit_len-le f k (x / 2) (omega (arith, pow-suc 2 k)))

pub lt-two-pow-bit_len : (f x : ℕ) → x < 2 ^ f → x < 2 ^ bit_len f x
unfolding bit_len
lt-two-pow-bit_len zero x h = h
lt-two-pow-bit_len (suc f) x h = elim (Bool-cases (x == 0)) [
  | inl z ↦ rw z (omega (arith, (==_iff x 0).0 z))
  | inr nz ↦ rw nz (
      omega (
        arith,
        pow-suc 2 (bit_len f (x / 2)),
        lt-two-pow-bit_len f (x / 2) (omega (arith, pow-suc 2 f)),
      ))
]

pub two-pow-le_of_bit_len : (f x k : ℕ) → bit_len f x ≡ suc k → 2 ^ k ≤ x
two-pow-le_of_bit_len f x k e = elim (dec_le (2 ^ k) x) [
  | yes p ↦ p
  | no p ↦ absurd (omega (arith, bit_len-le f k x (omega arith)))
]
