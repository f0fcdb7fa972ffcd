-- ===== src/Formula/Roots/Access.antt =====
-- The distance of every entry of every generation.
use native.Mathlib.Nat.{add-zero, sub-zero}
use native.Mathlib.Numerals.{add-one}
use stratified_hash_tree.Prelude.{
  ℕ, zero, suc, ◌+◌, ◌%◌, ◌^◌, ◌≤◌, ◌<◌, ◌≡◌, refl, sym, ap, ◌∙◌, List, [], ◌∷◌, arith, leb, le→leb,
  leb→le, true, false, inl, inr, Bool-cases, if◌then◌else◌, Option, none, some, not, ◌==◌,
}
use stratified_hash_tree.Prelude.Words.{two_pow_pos}
use stratified_hash_tree.Formula.Arith.{ceil_log2}
use stratified_hash_tree.Formula.Tree.{Addr, contains, root_of}
use stratified_hash_tree.Formula.Tree.Nodes.{IsAligned, contains_lem}
use stratified_hash_tree.Formula.Roots.{
  find_root, distance_below, entry_access_distance, pbst_roots,
}
use stratified_hash_tree.Formula.Roots.Tiling.{Tiles, pbst_roots-Tiles}
use stratified_hash_tree.Formula.Roots.Spine.{
  IsNode_height, spine_height, spine-IsNode, spine-subnodes_of, rest_multiple, Tiles-some_leaf,
}
use stratified_hash_tree.Formula.Roots.Distance.{
  left_turns, left_turns_left, left_turns_right, distance_below_lem, contains_root,
}

-- The search among the roots, and the walk down from the node that joins them.
distance_to : ℕ → ℕ → List Addr → Option ℕ
unfolding find_root
distance_to k n xs = elim (find_root k xs) [
  | none ↦ none
  | some root ↦ some (distance_below k n root)
]

module _ (k n : ℕ) where
  distance_to-here :
      (a : Addr) (rest : List Addr)
      → contains a.i a.j k ≡ true
      → distance_to k n (a ∷ rest) ≡ some (distance_below k n a)
  unfolding distance_to
  distance_to-here a rest c = rw (c, distance_to) refl

  distance_to-later :
      (a : Addr) (rest : List Addr)
      → contains a.i a.j k ≡ false
      → distance_to k n (a ∷ rest) ≡ distance_to k n rest
  unfolding distance_to
  distance_to-later a rest c = rw (c, distance_to) refl

same_test : (n : ℕ) → (if not (n == n) then 1 else 0) ≡ ◌+◌ 0 0
same_test n = ground arith

other_test : (i n : ℕ) → i < n → (if not (i == n) then 1 else 0) ≡ ◌+◌ 1 0
other_test i n h = ground arith

pub root-IsAligned :
    (k lo hi : ℕ) (a : Addr) (rest : List Addr) → Tiles k lo hi (a ∷ rest) → IsAligned lo a.i a.j
root-IsAligned k lo hi a rest t = record {
  multiple = t.1;
  some_leaf = omega (arith, t.2, two_pow_pos a.j);
  fits = omega (arith, t.2);
}

pub spine_height-le :
    (a b : Addr) (rest : List Addr) (n fuel : ℕ)
    → Tiles a.j a.i n (b ∷ rest)
    → a.j ≤ fuel
    → spine_height (b ∷ rest) ≤ fuel
unfolding spine_height
spine_height-le a b [] n fuel t h = omega (arith, t.0, h)
spine_height-le a b (c ∷ rest) n fuel t h = omega (arith, t.0, h)

pub root_height :
    (a : Addr) (rest : List Addr) (n : ℕ) → Tiles 64 0 n (a ∷ rest) → spine_height (a ∷ rest) ≤ 64
unfolding spine_height
root_height a [] n t = omega (arith, t.0)
root_height a (b ∷ rest) n t = t.0

distance_to-eq-left_turns :
    (fuel bound lo k n : ℕ) (a : Addr) (rest : List Addr)
    → n < 2 ^ 64
    → bound ≤ 64
    → lo % 2 ^ bound ≡ 0
    → Tiles bound lo n (a ∷ rest)
    → spine_height (a ∷ rest) ≤ fuel
    → lo < k
    → k ≤ n
    → distance_to k n (a ∷ rest) ≡ some (left_turns fuel k (n, spine_height (a ∷ rest)))
unfolding spine_height
distance_to-eq-left_turns fuel bound lo k n a [] hn hb e t hf low high =
    let last : a.i ≡ n = t.3 in
    let hi : a.i < 2 ^ 64 = rw last hn in
    let hj : a.j < 64 = omega (arith, t.0, hb) in
    let le : k ≤ a.i = rw last high in
    distance_to-here k n a [] (contains_root lo k n fuel a hi hf hj t.1 t.2 low le)
    ∙ ap some (
        distance_below_lem lo k n fuel a hi hf hj t.1 t.2 low le
        ∙ rw (last, same_test n) (add-zero _))
distance_to-eq-left_turns zero bound lo k n a (b ∷ rest) hn hb e t hf low high =
    absurd (omega arith)
distance_to-eq-left_turns (suc fuel) bound lo k n a (b ∷ rest) hn hb e t hf low high =
    let split = spine-subnodes_of bound lo n a b rest e hb hn t in
    let past : a.i < n = Tiles-some_leaf a.j a.i n b rest t.3 in
    let hi : a.i < 2 ^ 64 = omega (arith, past, hn) in
    let hj : a.j < 64 = omega (arith, t.0, hb) in
    let test : contains a.i a.j k ≡ leb k a.i =
      contains_lem lo a.i a.j k hi (omega (arith, hj)) (root-IsAligned bound lo n a (b ∷ rest) t)
      ∙ rw (le→leb (lo + 1) k (omega (arith, low))) refl in
    elim (Bool-cases (leb k a.i)) [
      | inl l ↦
          let le : k ≤ a.i = leb→le k a.i l in
          distance_to-here k n a (b ∷ rest) (test ∙ l)
          ∙ ap some (
              distance_below_lem lo k n fuel a hi (omega (arith, hf)) hj t.1 t.2 low le
              ∙ rw (left_turns_left k fuel n a.j a.i a.j _ split (test ∙ l), other_test a.i n past)
                  (add-one _))
      | inr r ↦
          distance_to-later k n a (b ∷ rest) (test ∙ r)
          ∙ distance_to-eq-left_turns fuel a.j a.i k n b rest hn (omega (arith, hj))
              (rest_multiple bound lo n a (b ∷ rest) t) t.3
              (spine_height-le a b rest n fuel t.3 (omega (arith, hf))) (ground arith) high
          ∙ ap some (sym (left_turns_right k fuel n a.j a.i a.j _ split (test ∙ r)))
    ]

-- The root of a generation is the node that joins all its trees.
pub root_of-eq-spine :
    (n : ℕ) (a : Addr) (rest : List Addr)
    → n < 2 ^ 64
    → Tiles 64 0 n (a ∷ rest)
    → root_of n ≡ (n, spine_height (a ∷ rest))
unfolding root_of
root_of-eq-spine n a rest h t =
    let node = spine-IsNode 64 0 n a rest (omega arith) t in
    ap (λ (c : ℕ). (n, c))
      (ap ceil_log2 (sym (sub-zero n)) ∙ IsNode_height 0 n (spine_height (a ∷ rest)) h node)

through_roots :
    (k n : ℕ)
    → 0 < k
    → k ≤ n
    → n < 2 ^ 64
    → (xs : List Addr) → Tiles 64 0 n xs
    → distance_to k n xs ≡ some (left_turns 64 k (root_of n))
through_roots k n pos high h [] t = absurd (omega arith)
through_roots k n pos high h (a ∷ rest) t = rw (root_of-eq-spine n a rest h t) (
    distance_to-eq-left_turns 64 64 0 k n a rest h (omega arith) (omega arith) t
      (root_height a rest n t) pos high)

-- For an entry `k` of a generation `n` below 2 ^ 64, `entry_access_distance` finds the number of
-- left turns on the way down from the root of the generation.
pub entry_access_distance-eq-left_turns :
    (k n : ℕ)
    → 0 < k
    → k ≤ n
    → n < 2 ^ 64
    → entry_access_distance k n ≡ some (left_turns 64 k (root_of n))
unfolding entry_access_distance distance_to
entry_access_distance-eq-left_turns k n pos high h =
    through_roots k n pos high h (pbst_roots n) (pbst_roots-Tiles n h)
