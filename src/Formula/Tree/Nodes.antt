-- ===== src/Formula/Tree/Nodes.antt =====
-- The place of a node: b_{i,j} stands over the leaves `lo + 1` to `i`, where `lo` is a multiple of
-- `2 ^ j` and more than half of the `2 ^ j` leaves after it are there.
use Prim.Native.Nat.{◌∣◌}
use native.Mathlib.Nat.{
  dvd_trans, dvd_refl, dvd-mul_right_of_dvd, pow-suc, mod-eq_of_lt, mod-add-mod, add-mod_right,
  zero-add, add-zero, add-suc, mod-eq-zero_of_dvd, dvd_of_mod-eq-zero,
}
use native.Mathlib.Decide.{dec_le}
use stratified_hash_tree.Prelude.{
  ℕ, zero, suc, ◌+◌, ◌-◌, ◌%◌, ◌^◌, ◌≤◌, ◌<◌, ◌≡◌, refl, ap, ◌∙◌, arith, ◌&&◌, leb,
}
use stratified_hash_tree.Prelude.Words.{add64_of_lt, sub64_of_le}
use stratified_hash_tree.Formula.Arith.{ceil_log2}
use stratified_hash_tree.Formula.Arith.Mod.{i_mod_2e_lem}
use stratified_hash_tree.Formula.Arith.Logs.{ceil_log2_upper, ceil_log2_least}
use stratified_hash_tree.Formula.Tree.{RangeInclusive, range, leaf_count, contains}

abbrev pub IsNode : ℕ → ℕ → ℕ → Type 0
IsNode lo i zero = i ≡ lo + 1
IsNode lo i (suc k) = (lo % 2 ^ suc k ≡ 0) × (lo + 2 ^ k < i) × (i ≤ lo + 2 ^ suc k)

two-pow-dvd : (a c : ℕ) → 2 ^ a ∣ 2 ^ (a + c)
two-pow-dvd a zero = rw add-zero (dvd_refl (2 ^ a))
two-pow-dvd a (suc c) =
    rw (add-suc, pow-suc 2 (a + c)) (dvd-mul_right_of_dvd (2 ^ a) (two-pow-dvd a c) 2)

-- A multiple of a power of two is one of every smaller power.
pub multiple_of_le : (x a b : ℕ) → a ≤ b → x % 2 ^ b ≡ 0 → x % 2 ^ a ≡ 0
multiple_of_le x a b h e = mod-eq-zero_of_dvd (2 ^ a) (
    dvd_trans (2 ^ a)
      (let split : a + (b - a) ≡ b = omega arith in rw split at (two-pow-dvd a (b - a)))
      (dvd_of_mod-eq-zero (2 ^ b) e))

pub multiple-add : (x k : ℕ) → x % 2 ^ k ≡ 0 → (x + 2 ^ k) % 2 ^ k ≡ 0
multiple-add x k e = rw (add-mod_right x (2 ^ k)) e

-- What a node's leaves are, without the lower bound on their number.
pub record IsAligned (lo i j : ℕ) : Type 0 where
  pub multiple : lo % 2 ^ j ≡ 0
  pub some_leaf : lo < i
  pub fits : i ≤ lo + 2 ^ j

pub IsNode-IsAligned : (lo i j : ℕ) → IsNode lo i j → IsAligned lo i j
IsNode-IsAligned lo i zero h = record {
  multiple = omega arith;
  some_leaf = omega arith;
  fits = omega arith;
}
IsNode-IsAligned lo i (suc k) h = record { multiple = h.0; some_leaf = omega arith; fits = h.2 }

pub pred-mod : (lo i j : ℕ) → IsAligned lo i j → (i - 1) % 2 ^ j ≡ i - 1 - lo
pred-mod lo i j a =
    let c : ℕ = i - 1 - lo in
    let e : i - 1 ≡ lo + c = omega (arith, a.some_leaf) in
    rw (e, ← mod-add-mod lo (2 ^ j) c, a.multiple, zero-add)
      (mod-eq_of_lt (omega (arith, a.some_leaf, a.fits)) ∙ omega (arith, a.some_leaf))

-- `range` is the leaves `lo + 1` to `i` of a node over them, below 2 ^ 64 and at most 64 high.
pub range_lem :
    (lo i j : ℕ)
    → i < 2 ^ 64
    → j ≤ 64
    → IsAligned lo i j
    → range i j ≡ record { start = lo + 1; end = i }
unfolding range
range_lem lo i j hi hj a =
    rw
      (
        sub64_of_le i 1 (omega (arith, a.some_leaf)) hi,
        i_mod_2e_lem (i - 1) j (omega arith) hj,
        pred-mod lo i j a,
      )
      (rw (sub64_of_le i (i - 1 - lo) (omega arith) hi)
        (ap (λ (s : ℕ). record { start = s; end = i }) (omega (arith, a.some_leaf))))

-- For an index below 2 ^ 64 and a height up to 64, `leaf_count` of a node over the leaves `lo + 1`
-- to `i`, a beginning of a block of `2 ^ j`, is their number.
pub leaf_count_lem : (lo i j : ℕ) → i < 2 ^ 64 → j ≤ 64 → IsAligned lo i j → leaf_count i j ≡ i - lo
unfolding leaf_count
leaf_count_lem lo i j hi hj a =
    rw
      (
        sub64_of_le i 1 (omega (arith, a.some_leaf)) hi,
        i_mod_2e_lem (i - 1) j (omega arith) hj,
        pred-mod lo i j a,
      )
      (add64_of_lt _ _ (omega arith) ∙ omega (arith, a.some_leaf))

-- For an index below 2 ^ 64 and a height up to 64, `contains` of a node over the leaves `lo + 1` to
-- `i`, a beginning of a block of `2 ^ j`, is the test that a number is among them.
pub contains_lem :
    (lo i j k : ℕ)
    → i < 2 ^ 64
    → j ≤ 64
    → IsAligned lo i j
    → contains i j k ≡ (leb (lo + 1) k && leb k i)
unfolding contains
contains_lem lo i j k hi hj a =
    ap (λ (r : RangeInclusive). leb r.start k && leb k r.end) (range_lem lo i j hi hj a)

ceil_log2_gt : (m c : ℕ) → 0 < m → m < 2 ^ 64 → ceil_log2 m ≡ suc c → 2 ^ c < m
ceil_log2_gt m c pos h e = elim (dec_le m (2 ^ c)) [
  | yes p ↦ absurd (omega (arith, ceil_log2_least m c pos h p))
  | no p ↦ omega arith
]

-- A tree of `m` leaves that begins after a multiple of a large enough power.
pub IsNode_of_size :
    (lo m k : ℕ)
    → 0 < m
    → m < 2 ^ 64
    → m ≤ 2 ^ k
    → lo % 2 ^ k ≡ 0
    → IsNode lo (lo + m) (ceil_log2 m) × (ceil_log2 m ≤ k)
IsNode_of_size lo m k pos h fits e = (go (ceil_log2 m) refl, ceil_log2_least m k pos h fits)
  where
    go : (c : ℕ) → ceil_log2 m ≡ c → IsNode lo (lo + m) c
    go zero z = omega (arith, ceil_log2_upper m pos h, ap (λ (t : ℕ). 2 ^ t) z)
    go (suc c) z = (
      multiple_of_le lo (suc c) k (omega (arith, ceil_log2_least m k pos h fits)) e,
      omega (arith, ceil_log2_gt m c pos h z),
      omega (arith, ceil_log2_upper m pos h, ap (λ (t : ℕ). 2 ^ t) z),
    )
