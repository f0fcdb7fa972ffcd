-- ===== src/Formula/Tree/Subnodes.antt =====
-- `subnodes_of` splits a node into the perfect tree of its first leaves and the rest.
use native.Mathlib.Nat.{pow-suc, zero-add, div-add-mod'}
use stratified_hash_tree.Prelude.{
  ℕ, zero, suc, ◌+◌, ◌-◌, ◌*◌, ◌/◌, ◌%◌, ◌^◌, ◌≤◌, ◌<◌, ◌≡◌, refl, ◌∙◌, bit_or, arith, ltb, inl,
  inr, Bool-cases, if◌then◌else◌,
}
use stratified_hash_tree.Prelude.Words.{
  sub64, sub8, shl64_of_lt, shr64_of_lt, shl64, shr64, sub64_of_le, sub8_of_le, two_pow_lt,
}
use stratified_hash_tree.Prelude.Bits.{bit_or_disjoint}
use stratified_hash_tree.Formula.Arith.{pow2e, ceil_log2}
use stratified_hash_tree.Formula.Arith.Mod.{pow2e_lem}
use stratified_hash_tree.Formula.Tree.{subnodes_of}
use stratified_hash_tree.Formula.Tree.Nodes.{
  IsNode, IsAligned, IsNode-IsAligned, IsNode_of_size, multiple_of_le, multiple-add, pred-mod,
}

-- The three steps of `subnodes_of`: clear the low bits, decrement the height, set one bit.
pub height_lem : (k : ℕ) → k < 64 → sub8 (suc k) 1 ≡ k
height_lem k h = sub8_of_le (suc k) 1 (omega arith) (omega arith) ∙ omega arith

clear_low_bits :
    (lo i j : ℕ) → i < 2 ^ 64 → j < 64 → IsAligned lo i j → shl64 (shr64 (sub64 i 1) j) j ≡ lo
clear_low_bits lo i j hi hj a =
    rw (sub64_of_le i 1 (omega (arith, a.some_leaf)) hi, shr64_of_lt (i - 1) j hj)
      (shl64_of_lt ((i - 1) / 2 ^ j) j hj (omega (arith, down, a.some_leaf)) ∙ down)
  where
    down : (i - 1) / 2 ^ j * 2 ^ j ≡ lo
    down = omega (arith, div-add-mod' (i - 1) (2 ^ j), pred-mod lo i j a, a.some_leaf)

left_upper_lem :
    (lo i j : ℕ)
    → i < 2 ^ 64
    → j ≤ 64
    → IsAligned lo i j
    → (if ltb j 64 then shl64 (shr64 (sub64 i 1) j) j else 0) ≡ lo
left_upper_lem lo i j hi hj a = elim (Bool-cases (ltb j 64)) [
  | inl low ↦ rw low (clear_low_bits lo i j hi (ground arith) a)
  | inr top ↦
      let full : j ≡ 64 = ground arith in
      let mult : lo % 2 ^ 64 ≡ 0 = rw full at a.multiple in rw top (omega (arith, a.some_leaf))
]

left_i_lem :
    (lo k : ℕ) → k < 64 → lo % 2 ^ suc k ≡ 0 → bit_or lo (pow2e (sub8 (suc k) 1)) ≡ lo + 2 ^ k
left_i_lem lo k hk mult =
    let q : ℕ = lo / 2 ^ suc k in
    let e : q * 2 ^ suc k ≡ lo = omega (arith, div-add-mod' lo (2 ^ suc k)) in
    rw (height_lem k hk, pow2e_lem k hk)
      (rw e at (bit_or_disjoint (suc k) q (2 ^ k) (two_pow_lt {a = k} {b = suc k} (omega arith))))

-- The subnodes of a node of height `k + 1` up to 64 over the leaves `lo + 1` to `i`, below 2 ^ 64:
-- the left one is the perfect tree of the first `2 ^ k` leaves, the right one has the rest and the
-- height of the smallest tree that can hold them.
pub subnodes_of_lem :
    (lo i k : ℕ)
    → i < 2 ^ 64
    → k < 64
    → IsNode lo i (suc k)
    → subnodes_of i (suc k) ≡ ((lo + 2 ^ k, k), (i, ceil_log2 (i - (lo + 2 ^ k))))
unfolding subnodes_of
subnodes_of_lem lo i k hi hk h =
    let a : IsAligned lo i (suc k) = IsNode-IsAligned lo i (suc k) h in
    rw (left_upper_lem lo i (suc k) hi hk a, left_i_lem lo k hk h.0, height_lem k hk)
      (rw (sub64_of_le i (lo + 2 ^ k) (omega (arith, h.1)) hi))

pub left-IsNode : (lo i k : ℕ) → IsNode lo i (suc k) → IsNode lo (lo + 2 ^ k) k
left-IsNode lo i zero h = refl
left-IsNode lo i (suc k) h = (
  multiple_of_le lo (suc k) (suc (suc k)) (omega arith) h.0,
  omega (arith, two_pow_lt {a = k} {b = suc k} (omega arith)),
  omega arith,
)

pub right-IsNode :
    (lo i k : ℕ)
    → i < 2 ^ 64
    → IsNode lo i (suc k)
    → let m : ℕ = i - (lo + 2 ^ k) in IsNode (lo + 2 ^ k) i (ceil_log2 m) × (ceil_log2 m ≤ k)
right-IsNode lo i k hi h =
    let m : ℕ = i - (lo + 2 ^ k) in
    let e : lo + 2 ^ k + m ≡ i = omega (arith, h.1) in
    rw e at (
      IsNode_of_size (lo + 2 ^ k) m k (omega (arith, h.1)) (omega arith)
        (omega (arith, h.2, pow-suc 2 k))
        (multiple-add lo k (multiple_of_le lo k (suc k) (omega arith) h.0)))

-- The root of generation `n` stands over all its leaves.
pub root_of-IsNode : (n : ℕ) → 0 < n → n < 2 ^ 64 → IsNode 0 n (ceil_log2 n)
root_of-IsNode n pos h =
    rw zero-add at ((IsNode_of_size 0 n 64 pos h (omega arith) (omega arith)).0)
