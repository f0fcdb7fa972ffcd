-- ===== src/Formula/Tree/Valid.antt =====
-- `is_valid` decides which nodes exist.
use native.Mathlib.Nat.{
  mod-eq_of_lt, mod-add-mod, add-mod_right, div-eq_of_lt, zero-add, div-add-mod', mod-lt,
  mul-mod_left,
}
use native.Mathlib.Decide.{dec_lt}
use stratified_hash_tree.Prelude.{
  ℕ, zero, suc, ◌+◌, ◌-◌, ◌*◌, ◌/◌, ◌%◌, ◌^◌, ◌≤◌, ◌<◌, ◌≡◌, refl, sym, ◌∙◌, ◌↔◌, ◌≢◌, inl, inr,
  true, false, arith, ltb, ◌==◌, ==_iff, lt→ltb, ltb→lt, Bool-cases, bit_and,
}
use stratified_hash_tree.Prelude.Words.{
  sub64, sub8, shl64, shl64_one, two_pow_pos, two_pow_le, two_pow_lt,
}
use stratified_hash_tree.Prelude.Bits.{bit_and_mask}
use stratified_hash_tree.Formula.Arith.{ceil_log2}
use stratified_hash_tree.Formula.Arith.Mod.{i_mod_2e_lem, mask_lem}
use stratified_hash_tree.Formula.Arith.Logs.{ceil_log2_upper}
use stratified_hash_tree.Formula.Tree.{is_valid, is_pbst}
use stratified_hash_tree.Formula.Tree.Nodes.{IsNode, IsAligned, IsNode-IsAligned, pred-mod}
use stratified_hash_tree.Formula.Tree.Subnodes.{root_of-IsNode, height_lem}

-- The leaves before the block of `2 ^ j` that holds leaf `i`.
abbrev base : ℕ → ℕ → ℕ
base i j = (i - 1) / 2 ^ j * 2 ^ j

base-IsAligned : (i j : ℕ) → 0 < i → IsAligned (base i j) i j
base-IsAligned i j pos = record {
  multiple = mul-mod_left ((i - 1) / 2 ^ j) (2 ^ j);
  some_leaf = omega (arith, div-add-mod' (i - 1) (2 ^ j));
  fits = omega (arith, div-add-mod' (i - 1) (2 ^ j), mod-lt (i - 1) (two_pow_pos j));
}

pub mod_in_block : (lo i j : ℕ) → IsAligned lo i j → i < lo + 2 ^ j → i % 2 ^ j ≡ i - lo
mod_in_block lo i j a h =
    let e : i ≡ lo + (i - lo) = omega (arith, a.some_leaf) in
    rw (e, ← mod-add-mod lo (2 ^ j) (i - lo), a.multiple, zero-add)
      (mod-eq_of_lt (omega (arith, a.some_leaf)) ∙ omega (arith, a.some_leaf))

-- The last case of `is_valid`: an ephemeral node stands over more than half of its block.
ephemeral_lem :
    (lo i k : ℕ)
    → i < 2 ^ 64
    → suc k < 64
    → IsAligned lo i (suc k)
    → i < lo + 2 ^ suc k
    → ltb (shl64 1 (sub8 (suc k) 1)) (bit_and i (sub64 (shl64 1 (suc k)) 1)) ≡ ltb (2 ^ k) (i - lo)
ephemeral_lem lo i k hi hk a inside =
    rw
      (
        height_lem k (omega arith),
        shl64_one k (omega arith),
        mask_lem (suc k) hk,
        bit_and_mask (suc k) i,
      )
      (rw (mod_in_block lo i (suc k) a inside))

pub is_pbst_lem : (i j : ℕ) → i < 2 ^ 64 → j ≤ 64 → is_pbst i j ≡ (i % 2 ^ j == 0)
unfolding is_pbst
is_pbst_lem i j hi hj = rw (i_mod_2e_lem i j hi hj)

pub whole_block : (lo i j : ℕ) → IsAligned lo i j → i % 2 ^ j ≡ 0 → i ≡ lo + 2 ^ j
whole_block lo i j a e = elim (dec_lt i (lo + 2 ^ j)) [
  | yes p ↦ absurd (omega (arith, mod_in_block lo i j a p, a.some_leaf))
  | no p ↦ omega (arith, a.fits)
]

partial_block : (lo i j : ℕ) → IsAligned lo i j → i % 2 ^ j ≢ 0 → i < lo + 2 ^ j
partial_block lo i j a ne = elim (dec_lt i (lo + 2 ^ j)) [
  | yes p ↦ p
  | no p ↦
      let e : i ≡ lo + 2 ^ j = omega (arith, a.fits) in
      absurd (ne (rw (e, add-mod_right lo (2 ^ j)) a.multiple))
]

le→not_ltb : (a b : ℕ) → b ≤ a → ltb a b ≡ false
le→not_ltb a b h = ground arith

ltb-sub : (a b c : ℕ) → ltb a (b - c) ≡ ltb (c + a) b
ltb-sub a b c = ground arith

module _ (i k : ℕ) (pos : 0 < i) (hi : i < 2 ^ 64) where
  abbrev lo : ℕ
  lo = base i (suc k)

  aligned : IsAligned lo i (suc k)
  aligned = base-IsAligned i (suc k) pos

  too_high : ceil_log2 i < suc k → ltb (lo + 2 ^ k) i ≡ false
  too_high h =
      le→not_ltb _ _ (
        omega (arith, ceil_log2_upper i pos hi, two_pow_le {a = ceil_log2 i} {b = k} (omega arith)))

  at_root : suc k ≡ ceil_log2 i → ltb (lo + 2 ^ k) i ≡ true
  at_root e =
      let node : IsNode 0 i (suc k) = rw (← e) at (root_of-IsNode i pos hi) in
      let start : (i - 1) / 2 ^ suc k ≡ 0 = div-eq_of_lt (omega (arith, node.2)) in
      rw start (lt→ltb _ _ (omega (arith, node.1)))

  at_pbst : i % 2 ^ suc k ≡ 0 → ltb (lo + 2 ^ k) i ≡ true
  at_pbst e = lt→ltb _ _ (
      omega
        (arith, whole_block lo i (suc k) aligned e, two_pow_lt {a = k} {b = suc k} (omega arith)))

  at_ephemeral :
      suc k < 64
      → i % 2 ^ suc k ≢ 0
      → ltb (shl64 1 (sub8 (suc k) 1)) (bit_and i (sub64 (shl64 1 (suc k)) 1)) ≡ ltb (lo + 2 ^ k) i
  at_ephemeral hk ne =
      ephemeral_lem lo i k hi hk aligned (partial_block lo i (suc k) aligned ne)
      ∙ ltb-sub (2 ^ k) i lo

  -- Above the leaves, `is_valid` is the test that more than half of the block is there.
  pub is_valid-suc : is_valid i (suc k) ≡ ltb (lo + 2 ^ k) i
  unfolding is_valid
  is_valid-suc =
      let nz : (i == 0) ≡ false = ground arith in
      let above : (suc k == 0) ≡ false = ground arith in
      rw (nz, above)
        (elim (Bool-cases (ltb (ceil_log2 i) (suc k))) [
          | inl high ↦ rw (high, too_high (ltb→lt _ _ high)) refl
          | inr low ↦ rw low (elim (Bool-cases (suc k == ceil_log2 i)) [
            | inl root ↦ rw (root, at_root ((==_iff _ _).0 root)) refl
            | inr inner ↦
                let hk : suc k < 64 = ground (arith, ceil_log2_upper i pos hi) in
                rw (inner, is_pbst_lem i (suc k) hi (omega arith))
                  (elim (Bool-cases (i % 2 ^ suc k == 0)) [
                    | inl whole ↦ rw (whole, at_pbst ((==_iff _ _).0 whole)) refl
                    | inr part ↦ rw part (at_ephemeral hk (λ e. cc (part, (==_iff _ _).1 e)))
                  ])
          ])
        ])

base_unique : (lo i j : ℕ) → IsAligned lo i j → base i j ≡ lo
base_unique lo i j a = omega (arith, div-add-mod' (i - 1) (2 ^ j), pred-mod lo i j a, a.some_leaf)

leaf-valid : (i : ℕ) → 0 < i → is_valid i 0 ≡ true
unfolding is_valid
leaf-valid i pos = ground arith

is_valid→IsNode :
    (i k : ℕ) → 0 < i → i < 2 ^ 64 → is_valid i (suc k) ≡ true → (lo : ℕ) × IsNode lo i (suc k)
is_valid→IsNode i k pos hi v =
    let more : base i (suc k) + 2 ^ k < i = ltb→lt _ _ (sym (is_valid-suc i k pos hi) ∙ v) in
    let a = base-IsAligned i (suc k) pos in (base i (suc k), (a.multiple, more, a.fits))

IsNode→is_valid :
    (i k : ℕ) → 0 < i → i < 2 ^ 64 → ((lo : ℕ) × IsNode lo i (suc k)) → is_valid i (suc k) ≡ true
IsNode→is_valid i k pos hi (l, node) =
    is_valid-suc i k pos hi
    ∙ rw (base_unique l i (suc k) (IsNode-IsAligned l i (suc k) node)) (lt→ltb _ _ node.1)

-- For an index from 1 to 2 ^ 64 - 1, `is_valid i j` holds exactly when b_{i,j} is a node: when
-- the leaves `lo + 1` to `i` lie in one block of `2 ^ j` and are more than half of it (just the
-- leaf `i` where `j` is 0).
pub is_valid_iff :
    (i j : ℕ) → 0 < i → i < 2 ^ 64 → (is_valid i j ≡ true) ↔ ((lo : ℕ) × IsNode lo i j)
is_valid_iff i zero pos hi = (λ v. (i - 1, omega arith), λ n. leaf-valid i pos)
is_valid_iff i (suc k) pos hi = (is_valid→IsNode i k pos hi, IsNode→is_valid i k pos hi)
