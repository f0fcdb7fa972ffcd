-- ===== src/Formula/Roots/Distance.antt =====
-- `entry_access_distance` is the number of left turns on the way from the root of the generation to
-- the entry: each of them is a read of another entry.
use native.Mathlib.Nat.{pow-suc}
use stratified_hash_tree.Prelude.{
  ℕ, zero, suc, ◌+◌, ◌-◌, ◌%◌, ◌^◌, ◌≤◌, ◌<◌, ◌≡◌, refl, ap, ◌∙◌, arith, leb, le→leb, leb→le, Bool,
  true, false, inl, inr, Bool-cases, if◌then◌else◌, not, ◌==◌,
}
use stratified_hash_tree.Prelude.Words.{
  ones, count_ones, add8, sub8, sub64, sub64_of_le, add8_of_lt, sub8_of_le, two_pow_pos, two_pow_lt,
}
use stratified_hash_tree.Formula.Tree.{
  Addr, NodeIndex, RangeInclusive, range, contains, subnodes_of,
}
use stratified_hash_tree.Formula.Tree.Nodes.{
  IsNode, IsAligned, IsNode-IsAligned, contains_lem, range_lem, multiple_of_le, multiple-add,
}
use stratified_hash_tree.Formula.Tree.Subnodes.{subnodes_of_lem}
use stratified_hash_tree.Formula.Roots.{distance_below}
use stratified_hash_tree.Formula.Roots.Count.{ones-le, ones_top}
use stratified_hash_tree.Formula.Roots.Spine.{perfect-IsNode, IsNode_height}

add8_small : (t : ℕ) (b : Bool) → t < 255 → add8 t (if b then 1 else 0) ≡ t + (if b then 1 else 0)
add8_small t true h = add8_of_lt t 1 (omega arith)
add8_small t false h = add8_of_lt t 0 (omega arith)

-- The left turns of the descent to leaf `k`, by `subnodes_of` and `contains`.
unfoldable pub left_turns : ℕ → ℕ → NodeIndex → ℕ
left_turns fuel k (i, zero) = 0
left_turns zero k (i, suc j) = 0
left_turns (suc fuel) k (i, suc j) =
    let (left, right) = subnodes_of i (suc j) in
    let go_left = suc (left_turns fuel k left) in
    let go_right = left_turns fuel k right in if contains left.0 left.1 k then go_left else go_right

pub contains_node :
    (lo i j k : ℕ) → i < 2 ^ 64 → j ≤ 64 → IsNode lo i j → lo < k → contains i j k ≡ leb k i
contains_node lo i j k hi hj n h =
    contains_lem lo i j k hi hj (IsNode-IsAligned lo i j n)
    ∙ rw (le→leb (lo + 1) k (omega arith)) refl

module _ (k : ℕ) where
  pub left_turns_left :
      (fuel i j il jl : ℕ) (right : NodeIndex)
      → subnodes_of i (suc j) ≡ ((il, jl), right)
      → contains il jl k ≡ true
      → left_turns (suc fuel) k (i, suc j) ≡ suc (left_turns fuel k (il, jl))
  unfolding left_turns
  left_turns_left fuel i j il jl right e c = rw (e, c) refl

  pub left_turns_right :
      (fuel i j il jl : ℕ) (right : NodeIndex)
      → subnodes_of i (suc j) ≡ ((il, jl), right)
      → contains il jl k ≡ false
      → left_turns (suc fuel) k (i, suc j) ≡ left_turns fuel k right
  unfolding left_turns
  left_turns_right fuel i j il jl right e c = rw (e, c) refl

pub leaf_turns : (fuel k i : ℕ) → left_turns fuel k (i, zero) ≡ 0
unfolding left_turns
leaf_turns zero k i = refl
leaf_turns (suc fuel) k i = refl

pub perfect-subnodes_of :
    (lo j : ℕ)
    → j < 64
    → lo + 2 ^ suc j < 2 ^ 64
    → lo % 2 ^ suc j ≡ 0
    → subnodes_of (lo + 2 ^ suc j) (suc j) ≡ ((lo + 2 ^ j, j), (lo + 2 ^ suc j, j))
perfect-subnodes_of lo j hj h e =
    let whole : lo + 2 ^ j + 2 ^ j ≡ lo + 2 ^ suc j = omega (arith, pow-suc 2 j) in
    let low : lo % 2 ^ j ≡ 0 = multiple_of_le lo j (suc j) (omega arith) e in
    let right : IsNode (lo + 2 ^ j) (lo + 2 ^ suc j) j =
      rw whole at (perfect-IsNode (lo + 2 ^ j) j (multiple-add lo j low)) in
    subnodes_of_lem lo (lo + 2 ^ suc j) j h hj (perfect-IsNode lo (suc j) e)
    ∙ ap (λ (c : ℕ). ((lo + 2 ^ j, j), (lo + 2 ^ suc j, c)))
        (IsNode_height (lo + 2 ^ j) (lo + 2 ^ suc j) j h right)

-- In a perfect tree the ones of the offset are the right turns.
left_turns_perfect :
    (fuel lo j k : ℕ)
    → j ≤ fuel
    → j ≤ 64
    → lo + 2 ^ j < 2 ^ 64
    → lo % 2 ^ j ≡ 0
    → lo < k
    → k ≤ lo + 2 ^ j
    → left_turns fuel k (lo + 2 ^ j, j) + ones 64 (k - lo - 1) ≡ j
left_turns_perfect fuel lo zero k hf hj h e low high =
    omega (arith, leaf_turns fuel k (lo + 2 ^ 0), ones-le 64 0 (k - lo - 1) (omega arith))
left_turns_perfect zero lo (suc j) k hf hj h e low high = absurd (omega arith)
left_turns_perfect (suc fuel) lo (suc j) k hf hj h e low high =
    elim (Bool-cases (leb k (lo + 2 ^ j))) [
      | inl l ↦ rw (left_turns_left k fuel (lo + 2 ^ suc j) j (lo + 2 ^ j) j _ split (inside ∙ l)) (
          omega (
            arith,
            left_turns_perfect fuel lo j k (omega arith) (omega arith) mid_fits mult low
                (leb→le _ _ l),
          ))
      | inr r ↦
          let past : lo + 2 ^ j < k = ground arith in
          let offset : k - lo - 1 ≡ 2 ^ j + (k - (lo + 2 ^ j) - 1) = omega arith in
          rw
            (
              left_turns_right k fuel (lo + 2 ^ suc j) j (lo + 2 ^ j) j _ split (inside ∙ r),
              offset,
              ones_top 64 j (k - (lo + 2 ^ j) - 1) (omega (arith, pow-suc 2 j)) hj,
            )
            (omega (
              arith,
              rw whole at (
                  left_turns_perfect fuel (lo + 2 ^ j) j k (omega arith) (omega arith) (rw whole h)
                    (multiple-add lo j mult) past (rw whole high)),
            ))
    ]
  where
    whole : lo + 2 ^ j + 2 ^ j ≡ lo + 2 ^ suc j
    whole = omega (arith, pow-suc 2 j)

    mult : lo % 2 ^ j ≡ 0
    mult = multiple_of_le lo j (suc j) (omega arith) e

    mid_fits : lo + 2 ^ j < 2 ^ 64
    mid_fits = omega (arith, two_pow_lt {a = j} {b = suc j} (omega arith))

    split : subnodes_of (lo + 2 ^ suc j) (suc j) ≡ ((lo + 2 ^ j, j), (lo + 2 ^ suc j, j))
    split = perfect-subnodes_of lo j hj h e

    inside : contains (lo + 2 ^ j) j k ≡ leb k (lo + 2 ^ j)
    inside = contains_node lo (lo + 2 ^ j) j k mid_fits (omega arith) (perfect-IsNode lo j mult) low

-- What the code computes for the perfect tree that holds the entry.
module _ (lo k n fuel : ℕ) (a : Addr) (hi : a.i < 2 ^ 64) (hf : a.j ≤ fuel) (hj : a.j < 64)
    (mult : lo % 2 ^ a.j ≡ 0) (e : a.i ≡ lo + 2 ^ a.j) (low : lo < k) (high : k ≤ a.i) where
  aligned : IsAligned lo a.i a.j
  aligned = record {
    multiple = mult;
    some_leaf = omega (arith, e, two_pow_pos a.j);
    fits = omega (arith, e);
  }

  turns_and_ones : left_turns fuel k (a.i, a.j) + ones 64 (k - lo - 1) ≡ a.j
  turns_and_ones =
      rw e (
        left_turns_perfect fuel lo a.j k hf (omega (arith, hj)) (rw e at hi) mult low
          (rw e at high))

  turns : sub8 a.j (ones 64 (k - lo - 1)) ≡ left_turns fuel k (a.i, a.j)
  turns =
      sub8_of_le a.j (ones 64 (k - lo - 1)) (omega (arith, turns_and_ones)) (omega (arith, hj))
      ∙ omega (arith, turns_and_ones)

  offset : sub64 k (range a.i a.j).start ≡ k - lo - 1
  offset =
      ap (λ (r : RangeInclusive). sub64 k r.start)
        (range_lem lo a.i a.j hi (omega (arith, hj)) aligned)
      ∙ sub64_of_le k (lo + 1) (omega (arith, low)) (omega (arith, high, hi))
      ∙ omega arith

  pub distance_below_lem :
      distance_below k n a ≡ left_turns fuel k (a.i, a.j) + (if not (a.i == n) then 1 else 0)
  unfolding distance_below count_ones
  distance_below_lem =
      rw (offset, turns)
        (add8_small (left_turns fuel k (a.i, a.j)) (not (a.i == n))
          (omega (arith, turns_and_ones, hj)))

  pub contains_root : contains a.i a.j k ≡ true
  contains_root =
      contains_lem lo a.i a.j k hi (omega (arith, hj)) aligned
      ∙ rw (le→leb (lo + 1) k (omega (arith, low)), le→leb k a.i high) refl
