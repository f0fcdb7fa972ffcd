-- ===== src/Storage/Rocks/Keys.antt =====
-- src/storage/rocksdb.rs: the keys of the entries, and that different positions have different
-- keys.
use native.Mathlib.Nat.{div-le_self, mod_def, div-div-eq-div-mul, mul-div-le, mul_assoc, pow-suc}
use mathlib.Core.List.{head-eq_of_cons-eq, tail-eq_of_cons-eq, append_cancel_left}
use stratified_hash_tree.Prelude.{
  ℕ, zero, suc, ◌+◌, ◌*◌, ◌/◌, ◌%◌, ◌^◌, ◌<◌, ◌≡◌, ◌≢◌, refl, sym, ap, ◌∙◌, Bool, true, false, List,
  [], ◌∷◌, ◌++◌, bit_xor, if◌then◌else◌, arith,
}
use stratified_hash_tree.Prelude.Words.{shr64, shr64_of_lt}
use stratified_hash_tree.Prelude.Xor.{bit_xor_lt, xor_shift_cancel}

unfoldable pub wrapping_mul : ℕ → ℕ → ℕ
wrapping_mul a b = a * b % 2 ^ 64

unfoldable pub bijective_scramble : ℕ → ℕ
unfolding shr64 wrapping_mul
bijective_scramble x =
    let a = wrapping_mul (bit_xor x (shr64 x 30)) 0xbf58476d1ce4e5b9 in
    let b = wrapping_mul (bit_xor a (shr64 a 27)) 0x94d049bb133111eb in bit_xor b (shr64 b 31)

-- `to_be_bytes`, of a number of so many bytes.
unfoldable pub to_be_bytes : ℕ → ℕ → List ℕ
to_be_bytes zero n = []
to_be_bytes (suc width) n = n / 256 ^ width % 256 ∷ to_be_bytes width n

unfoldable pub create_key : ℕ → Bool → List ℕ → List ℕ
unfolding bijective_scramble to_be_bytes
create_key position hashing prefix =
    let key = if hashing then bijective_scramble position else position in
    prefix ++ to_be_bytes 8 key

-- The first factor has an inverse, so the product determines the other one.
first_factor_cancel :
    (x y : ℕ)
    → x < 2 ^ 64
    → y < 2 ^ 64
    → wrapping_mul x 0xbf58476d1ce4e5b9 ≡ wrapping_mul y 0xbf58476d1ce4e5b9
    → x ≡ y
unfolding wrapping_mul
first_factor_cancel x y hx hy e =
    sym (back x hx) ∙ ap (λ (p : ℕ). p * 0x96de1b173f119089 % 2 ^ 64) e ∙ back y hy
  where
    back : (z : ℕ) → z < 2 ^ 64 → z * 0xbf58476d1ce4e5b9 % 2 ^ 64 * 0x96de1b173f119089 % 2 ^ 64 ≡ z
    back z h = omega arith

second_factor_cancel :
    (x y : ℕ)
    → x < 2 ^ 64
    → y < 2 ^ 64
    → wrapping_mul x 0x94d049bb133111eb ≡ wrapping_mul y 0x94d049bb133111eb
    → x ≡ y
unfolding wrapping_mul
second_factor_cancel x y hx hy e =
    sym (back x hx) ∙ ap (λ (p : ℕ). p * 0x319642b2d24d8ec3 % 2 ^ 64) e ∙ back y hy
  where
    back : (z : ℕ) → z < 2 ^ 64 → z * 0x94d049bb133111eb % 2 ^ 64 * 0x319642b2d24d8ec3 % 2 ^ 64 ≡ z
    back z h = omega arith

module _ (s : ℕ) (small : suc s < 64) where
  round_lt : (x : ℕ) → x < 2 ^ 64 → bit_xor x (shr64 x (suc s)) < 2 ^ 64
  unfolding shr64
  round_lt x h =
      bit_xor_lt 64 x (x / 2 ^ (suc s % 64)) h (omega (arith, div-le_self x (2 ^ (suc s % 64))))

  round_cancel : (x y : ℕ) → bit_xor x (shr64 x (suc s)) ≡ bit_xor y (shr64 y (suc s)) → x ≡ y
  round_cancel x y e =
      xor_shift_cancel s (x + y) x y (omega arith) (omega arith)
        (rw (← shr64_of_lt x (suc s) small, ← shr64_of_lt y (suc s) small) e)

wrapping_mul_lt : (x y : ℕ) → wrapping_mul x y < 2 ^ 64
unfolding wrapping_mul
wrapping_mul_lt x y = omega arith

-- On words of 64 bits the scramble returns a word, and different ones for different arguments.
pub bijective_scramble_inj :
    (x y : ℕ)
    → x < 2 ^ 64
    → y < 2 ^ 64
    → (bijective_scramble x < 2 ^ 64) × (bijective_scramble x ≡ bijective_scramble y → x ≡ y)
unfolding bijective_scramble
bijective_scramble_inj x y hx hy = (
  round_lt 30 (omega arith) (second x) (wrapping_mul_lt _ _),
  λ e. round_cancel 29 (omega arith) x y (
      first_factor_cancel (bit_xor x (shr64 x 30)) (bit_xor y (shr64 y 30))
        (round_lt 29 (omega arith) x hx) (round_lt 29 (omega arith) y hy)
        (round_cancel 26 (omega arith) (first x) (first y) (
          second_factor_cancel (bit_xor (first x) (shr64 (first x) 27))
            (bit_xor (first y) (shr64 (first y) 27))
            (round_lt 26 (omega arith) (first x) (wrapping_mul_lt _ _))
            (round_lt 26 (omega arith) (first y) (wrapping_mul_lt _ _))
            (round_cancel 30 (omega arith) (second x) (second y) e)))),
)
  where
    first : ℕ → ℕ
    first z = wrapping_mul (bit_xor z (shr64 z 30)) 0xbf58476d1ce4e5b9

    second : ℕ → ℕ
    second z = wrapping_mul (bit_xor (first z) (shr64 (first z) 27)) 0x94d049bb133111eb

-- A remainder splits at its highest byte.
mod-bytes : (x p : ℕ) → x % (p * 256) ≡ x / p % 256 * p + x % p
mod-bytes x p =
    rw (mod_def x (p * 256), ← div-div-eq-div-mul x p 256, mod_def x p)
      (omega
        (arith, mul-div-le x p, mul_assoc p 256 (x / p / 256), ap (λ (t : ℕ). p * t) digits_of))
  where
    digits_of : x / p ≡ 256 * (x / p / 256) + x / p % 256
    digits_of = omega arith

-- The bytes of a number determine it.
to_be_bytes_inj :
    (width m n : ℕ) → to_be_bytes width m ≡ to_be_bytes width n → m % 256 ^ width ≡ n % 256 ^ width
unfolding to_be_bytes
to_be_bytes_inj zero m n e = omega arith
to_be_bytes_inj (suc width) m n e =
    let low = to_be_bytes_inj width m n (tail-eq_of_cons-eq e) in
    let high : m / 256 ^ width % 256 ≡ n / 256 ^ width % 256 = head-eq_of_cons-eq e in
    rw (pow-suc 256 width, mod-bytes m (256 ^ width), mod-bytes n (256 ^ width), high, low) refl

create_key_inj :
    (hashing : Bool) (prefix : List ℕ) (x y : ℕ)
    → x < 2 ^ 64
    → y < 2 ^ 64
    → create_key x hashing prefix ≡ create_key y hashing prefix
    → x ≡ y
unfolding create_key
create_key_inj false prefix x y hx hy e =
    omega (arith, to_be_bytes_inj 8 x y (append_cancel_left prefix _ _ e))
create_key_inj true prefix x y hx hy e =
    let (small, cancel) = bijective_scramble_inj x y hx hy in
    let small' = (bijective_scramble_inj y x hy hx).0 in
    cancel (
      omega (
        arith,
        small,
        small',
        to_be_bytes_inj 8 (bijective_scramble x) (bijective_scramble y)
            (append_cancel_left prefix _ _ e),
      ))

-- Different positions below 2 ^ 64 have different keys, under one prefix and one way of hashing.
pub create_key_ne :
    (hashing : Bool) (prefix : List ℕ) (x y : ℕ)
    → x < 2 ^ 64
    → y < 2 ^ 64
    → x ≢ y
    → create_key x hashing prefix ≢ create_key y hashing prefix
create_key_ne hashing prefix x y hx hy ne e = ne (create_key_inj hashing prefix x y hx hy e)
