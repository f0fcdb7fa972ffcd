-- ===== src/Formula/Roots/Limits/Nearest.antt =====
-- The first leaf at each distance below a node.
use stratified_hash_tree.Prelude.{
  ℕ, zero, suc, ◌+◌, ◌-◌, ◌^◌, ◌≤◌, ◌<◌, ◌≡◌, refl, ◌∙◌, ◌⊎◌, inl, inr, Bool-cases, arith, leb,
  leb→le, ap,
}
use stratified_hash_tree.Prelude.Words.{two_pow_le, two_pow_lt_inv}
use stratified_hash_tree.Formula.Arith.{ceil_log2}
use stratified_hash_tree.Formula.Tree.{contains}
use stratified_hash_tree.Formula.Tree.Nodes.{IsNode}
use stratified_hash_tree.Formula.Tree.Subnodes.{subnodes_of_lem, left-IsNode, right-IsNode}
use stratified_hash_tree.Formula.Roots.Distance.{
  left_turns, left_turns_left, left_turns_right, leaf_turns, contains_node,
}

-- A node over `lo + 1` to `i` of height `j + 1`, and the way down to one of its leaves.
abbrev pub GoesLeft : ℕ → ℕ → ℕ → ℕ → ℕ → Type 0
GoesLeft fuel lo i j k =
    (k ≤ lo + 2 ^ j)
    × (left_turns (suc fuel) k (i, suc j) ≡ suc (left_turns fuel k (lo + 2 ^ j, j)))

abbrev pub GoesRight : ℕ → ℕ → ℕ → ℕ → ℕ → Type 0
GoesRight fuel lo i j k =
    (lo + 2 ^ j < k)
    × (left_turns (suc fuel) k (i, suc j) ≡ left_turns fuel k (i, ceil_log2 (i - (lo + 2 ^ j))))

pub turn :
    (fuel lo i j k : ℕ)
    → i < 2 ^ 64
    → IsNode lo i (suc j)
    → lo < k
    → GoesLeft fuel lo i j k ⊎ GoesRight fuel lo i j k
turn fuel lo i j k room node low =
    let hj : j < 64 = two_pow_lt_inv j 64 (omega (arith, node.1)) in
    let split = subnodes_of_lem lo i j room hj node in
    let test : contains (lo + 2 ^ j) j k ≡ leb k (lo + 2 ^ j) =
      contains_node lo (lo + 2 ^ j) j k (omega (arith, node.1)) (omega arith)
        (left-IsNode lo i j node) low in
    elim (Bool-cases (leb k (lo + 2 ^ j))) [
      | inl l ↦ inl (leb→le _ _ l, left_turns_left k fuel i j (lo + 2 ^ j) j _ split (test ∙ l))
      | inr r ↦ inr (ground arith, left_turns_right k fuel i j (lo + 2 ^ j) j _ split (test ∙ r))
    ]

pub turn_left :
    (fuel lo i j k : ℕ)
    → i < 2 ^ 64
    → IsNode lo i (suc j)
    → lo < k
    → k ≤ lo + 2 ^ j
    → left_turns (suc fuel) k (i, suc j) ≡ suc (left_turns fuel k (lo + 2 ^ j, j))
turn_left fuel lo i j k room node low le = elim (turn fuel lo i j k room node low) [
  | inl l ↦ l.1
  | inr r ↦ absurd (omega (arith, r.0))
]

pub turn_right :
    (fuel lo i j k : ℕ)
    → i < 2 ^ 64
    → IsNode lo i (suc j)
    → lo + 2 ^ j < k
    → left_turns (suc fuel) k (i, suc j) ≡ left_turns fuel k (i, ceil_log2 (i - (lo + 2 ^ j)))
turn_right fuel lo i j k room node past = elim (turn fuel lo i j k room node (omega arith)) [
  | inl l ↦ absurd (omega (arith, l.0))
  | inr r ↦ r.1
]

-- Where a leaf at distance `d` can stand.
pub record Standing (lo i j k d : ℕ) : Type 0 where
  pub low : d ≤ j
  pub at_end : d ≡ 0 → k ≡ i
  pub beyond : 0 < d → lo + 2 ^ (j - d) ≤ k

near_left : (lo i j k d : ℕ) → Standing lo (lo + 2 ^ j) j k d → Standing lo i (suc j) k (suc d)
near_left lo i j k zero near = record {
  low = omega arith;
  at_end = λ e. absurd (omega arith);
  beyond = λ pos. let e : suc j - 1 ≡ j = omega arith in rw e (omega (arith, near.at_end refl));
}
near_left lo i j k (suc d) near = record {
  low = omega (arith, near.low);
  at_end = λ e. absurd (omega arith);
  beyond = λ pos.
      (let e : suc j - suc (suc d) ≡ j - suc d = omega arith in rw e (near.beyond (omega arith)));
}

near_right :
    (lo i j c k d : ℕ)
    → c ≤ j
    → lo + 2 ^ j < k
    → Standing (lo + 2 ^ j) i c k d
    → Standing lo i (suc j) k d
near_right lo i j c k d le past near = record {
  low = omega (arith, near.low);
  at_end = near.at_end;
  beyond = λ pos. omega (arith, two_pow_le {a = suc j - d} {b = j} (omega arith));
}

pub left_turns-Standing :
    (fuel lo i j k : ℕ)
    → j ≤ fuel
    → i < 2 ^ 64
    → IsNode lo i j
    → lo < k
    → k ≤ i
    → Standing lo i j k (left_turns fuel k (i, j))
left_turns-Standing fuel lo i zero k hf room node low high =
    rw (leaf_turns fuel k i) (record {
      low = omega arith;
      at_end = λ e. omega arith;
      beyond = λ pos. absurd (omega arith);
    })
left_turns-Standing zero lo i (suc j) k hf room node low high = absurd (omega arith)
left_turns-Standing (suc fuel) lo i (suc j) k hf room node low high =
    elim (turn fuel lo i j k room node low) [
      | inl l ↦ rw (l.1) (
          near_left lo i j k (left_turns fuel k (lo + 2 ^ j, j)) (
            left_turns-Standing fuel lo (lo + 2 ^ j) j k (omega arith) (omega (arith, node.1))
              (left-IsNode lo i j node) low l.0))
      | inr r ↦
          let below = right-IsNode lo i j room node in
          rw (r.1) (
            near_right lo i j (ceil_log2 (i - (lo + 2 ^ j))) k _ below.1 r.0 (
              left_turns-Standing fuel (lo + 2 ^ j) i (ceil_log2 (i - (lo + 2 ^ j))) k
                (omega (arith, below.1)) room below.0 r.0 high))
    ]

-- The first leaf at a distance.
unfoldable pub first_at : ℕ → ℕ → ℕ → ℕ → ℕ
first_at lo i j zero = i
first_at lo i j (suc d) = lo + 2 ^ (j - suc d)

-- It is a leaf of the node, and at that distance.
pub record Reaches (fuel lo i j k d : ℕ) : Type 0 where
  pub above : lo < k
  pub inside : k ≤ i
  pub turns : left_turns fuel k (i, j) ≡ d

first_left : (lo i j d : ℕ) → first_at lo i (suc j) (suc d) ≡ first_at lo (lo + 2 ^ j) j d
unfolding first_at
first_left lo i j zero = ap (λ (x : ℕ). lo + 2 ^ x) (omega arith)
first_left lo i j (suc d) = ap (λ (x : ℕ). lo + 2 ^ x) (omega arith)

pub first_at-Reaches :
    (fuel lo i j d : ℕ)
    → j ≤ fuel
    → i < 2 ^ 64
    → IsNode lo i j
    → d ≤ j
    → Reaches fuel lo i j (first_at lo i j d) d
unfolding first_at
first_at-Reaches fuel lo i zero zero hf room node le = record {
  above = omega arith;
  inside = omega arith;
  turns = leaf_turns fuel i i;
}
first_at-Reaches fuel lo i zero (suc d) hf room node le = absurd (omega arith)
first_at-Reaches zero lo i (suc j) d hf room node le = absurd (omega arith)
first_at-Reaches (suc fuel) lo i (suc j) zero hf room node le =
    let below = right-IsNode lo i j room node in
    let ih =
      first_at-Reaches fuel (lo + 2 ^ j) i (ceil_log2 (i - (lo + 2 ^ j))) zero
        (omega (arith, below.1)) room below.0 (omega arith) in
    record {
      above = omega (arith, node.1);
      inside = omega arith;
      turns = turn_right fuel lo i j i room node node.1 ∙ ih.turns;
    }
first_at-Reaches (suc fuel) lo i (suc j) (suc d) hf room node le =
    let ih =
      first_at-Reaches fuel lo (lo + 2 ^ j) j d (omega arith) (omega (arith, node.1))
        (left-IsNode lo i j node) (omega arith) in
    rw (first_left lo i j d) (record {
      above = ih.above;
      inside = omega (arith, ih.inside, node.1);
      turns = turn_left fuel lo i j _ room node ih.above ih.inside ∙ ap suc ih.turns;
    })

pub first_at-le : (lo i j k d : ℕ) → Standing lo i j k d → first_at lo i j d ≤ k
unfolding first_at
first_at-le lo i j k zero near = omega (arith, near.at_end refl)
first_at-le lo i j k (suc d) near = near.beyond (omega arith)
