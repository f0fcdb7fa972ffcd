-- ===== src/Prelude/Xor.antt =====
-- `^` on words: its binary digits, and that `x ^ (x >> s)` determines `x`.
use Prim.Native.Nat.{
  ℕ, zero, suc, ◌+◌, ◌*◌, ◌/◌, ◌%◌, ◌^◌, ◌≤◌, ◌<◌, bit_xor, bit_xor-bitwise, differ,
}
use mathlib.Core.Path.{◌≡◌, refl, sym, ap, ◌∙◌}
use native.Mathlib.Nat.{pow-suc, pow-succ', div-div-eq-div-mul, mul_comm}
use native.Mathlib.Omega.{arith}
use stratified_hash_tree.Prelude.Bits.{digits_fuel_irrelevant}

pub bit_xor_lowest : (x y : ℕ) → bit_xor x y ≡ bit_xor (x / 2) (y / 2) * 2 + differ (x % 2) (y % 2)
bit_xor_lowest zero y = omega (arith, bit_xor-bitwise 0 y, bit_xor-bitwise 0 (y / 2))
bit_xor_lowest (suc x) y = omega (
  arith,
  bit_xor-bitwise (suc x) y,
  bit_xor-bitwise (suc x / 2) (y / 2),
  digits_fuel_irrelevant (λ d. d) differ x (suc x / 2) (suc x / 2) (y / 2) (omega arith)
      (omega arith),
)

-- Two binary digits that differ in the same way from a third are the same.
differ_digit : (a b : ℕ) → a < 2 → b < 2 → differ a b < 2
differ_digit zero b ha hb = hb
differ_digit (suc zero) zero ha hb = omega arith
differ_digit (suc zero) (suc b) ha hb = omega arith
differ_digit (suc (suc a)) b ha hb = absurd (omega arith)

differ_cancel : (a b c : ℕ) → a < 2 → b < 2 → c < 2 → differ a c ≡ differ b c → a ≡ b
differ_cancel zero zero c ha hb hc e = refl
differ_cancel (suc zero) (suc zero) c ha hb hc e = refl
differ_cancel zero (suc zero) zero ha hb hc e = e
differ_cancel zero (suc zero) (suc zero) ha hb hc e = sym e
differ_cancel (suc zero) zero zero ha hb hc e = e
differ_cancel (suc zero) zero (suc zero) ha hb hc e = sym e
differ_cancel zero (suc zero) (suc (suc c)) ha hb hc e = absurd (omega arith)
differ_cancel (suc zero) zero (suc (suc c)) ha hb hc e = absurd (omega arith)
differ_cancel (suc (suc a)) b c ha hb hc e = absurd (omega arith)
differ_cancel zero (suc (suc b)) c ha hb hc e = absurd (omega arith)
differ_cancel (suc zero) (suc (suc b)) c ha hb hc e = absurd (omega arith)

pub bit_xor_lt : (k x y : ℕ) → x < 2 ^ k → y < 2 ^ k → bit_xor x y < 2 ^ k
bit_xor_lt zero zero zero hx hy = omega (arith, bit_xor-bitwise 0 0)
bit_xor_lt zero (suc x) y hx hy = absurd (omega arith)
bit_xor_lt zero zero (suc y) hx hy = absurd (omega arith)
bit_xor_lt (suc k) x y hx hy = omega (
  arith,
  pow-suc 2 k,
  bit_xor_lowest x y,
  differ_digit (x % 2) (y % 2) (omega arith) (omega arith),
  bit_xor_lt k (x / 2) (y / 2) (omega (arith, pow-suc 2 k)) (omega (arith, pow-suc 2 k)),
)

-- Two numbers with the same `x ^ (x >> s)`, for a shift by `s` of one or more, are the same:
-- their digits agree from the highest one down.
module _ (s : ℕ) where
  shifted_half : (x : ℕ) → x / 2 ^ suc s / 2 ≡ x / 2 / 2 ^ suc s
  shifted_half x =
      div-div-eq-div-mul x (2 ^ suc s) 2
      ∙ ap (λ (d : ℕ). x / d) (mul_comm (2 ^ suc s) 2)
      ∙ sym (div-div-eq-div-mul x 2 (2 ^ suc s))

  -- The digits above the lowest one.
  upper : (x : ℕ) → bit_xor x (x / 2 ^ suc s) / 2 ≡ bit_xor (x / 2) (x / 2 / 2 ^ suc s)
  upper x =
      omega (
        arith,
        bit_xor_lowest x (x / 2 ^ suc s),
        differ_digit (x % 2) (x / 2 ^ suc s % 2) (omega arith) (omega arith),
      )
      ∙ ap (bit_xor (x / 2)) (shifted_half x)

  shifted_of_half : (x y : ℕ) → x / 2 ≡ y / 2 → x / 2 ^ suc s ≡ y / 2 ^ suc s
  shifted_of_half x y e =
      ap (λ (d : ℕ). x / d) (pow-succ' 2 s)
      ∙ sym (div-div-eq-div-mul x 2 (2 ^ s))
      ∙ ap (λ (h : ℕ). h / 2 ^ s) e
      ∙ div-div-eq-div-mul y 2 (2 ^ s)
      ∙ ap (λ (d : ℕ). y / d) (sym (pow-succ' 2 s))

  low_of_half :
      (x y : ℕ)
      → x / 2 ≡ y / 2
      → bit_xor x (x / 2 ^ suc s) ≡ bit_xor y (y / 2 ^ suc s)
      → x % 2 ≡ y % 2
  low_of_half x y half e =
      let same = shifted_of_half x y half in
      differ_cancel (x % 2) (y % 2) (x / 2 ^ suc s % 2) (omega arith) (omega arith) (omega arith) (
        omega (
          arith,
          bit_xor_lowest x (x / 2 ^ suc s),
          bit_xor_lowest y (y / 2 ^ suc s),
          ap (λ (h : ℕ). bit_xor h (x / 2 ^ suc s / 2)) half,
          ap (λ (d : ℕ). bit_xor (y / 2) (d / 2)) same,
          ap (λ (d : ℕ). differ (y % 2) (d % 2)) same,
          e,
        ))

  pub xor_shift_cancel :
      (fuel x y : ℕ)
      → x ≤ fuel
      → y ≤ fuel
      → bit_xor x (x / 2 ^ suc s) ≡ bit_xor y (y / 2 ^ suc s)
      → x ≡ y
  xor_shift_cancel zero x y hx hy e = omega arith
  xor_shift_cancel (suc fuel) x y hx hy e =
      let half : x / 2 ≡ y / 2 =
        xor_shift_cancel fuel (x / 2) (y / 2) (omega arith) (omega arith)
          (sym (upper x) ∙ ap (λ (h : ℕ). h / 2) e ∙ upper y) in
      omega (arith, half, low_of_half x y half e)
