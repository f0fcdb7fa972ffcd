-- ===== src/Formula/Roots/Limits/Farthest.antt =====
-- The last leaf at each distance below the node that joins perfect trees.
use native.Mathlib.Nat.{pow-suc}
use stratified_hash_tree.Prelude.{
  ℕ, zero, suc, ◌+◌, ◌-◌, ◌%◌, ◌^◌, ◌≤◌, ◌<◌, ◌≡◌, refl, sym, ◌∙◌, inl, inr, false, Bool-cases,
  arith, leb, le→leb, leb→le, ap, List, [], ◌∷◌, if◌then◌else◌,
}
use stratified_hash_tree.Prelude.Words.{two_pow_pos, two_pow_le}
use stratified_hash_tree.Formula.Arith.{ceil_log2}
use stratified_hash_tree.Formula.Tree.{Addr}
use stratified_hash_tree.Formula.Tree.Nodes.{multiple_of_le, multiple-add}
use stratified_hash_tree.Formula.Roots.Spine.{perfect-IsNode, IsNode_height, spine_height}
use stratified_hash_tree.Formula.Roots.Distance.{left_turns, leaf_turns}
use stratified_hash_tree.Formula.Roots.Limits.Nearest.{
  left_turns-Standing, turn, turn_left, turn_right,
}

-- The height of the right half of a perfect tree.
half_height :
    (lo j : ℕ)
    → lo + 2 ^ suc j < 2 ^ 64
    → lo % 2 ^ suc j ≡ 0
    → ceil_log2 (lo + 2 ^ suc j - (lo + 2 ^ j)) ≡ j
half_height lo j room mult = IsNode_height (lo + 2 ^ j) (lo + 2 ^ suc j) j room (
    let whole : lo + 2 ^ j + 2 ^ j ≡ lo + 2 ^ suc j = omega (arith, pow-suc 2 j) in
    rw whole at (
      perfect-IsNode (lo + 2 ^ j) j
        (multiple-add lo j (multiple_of_le lo j (suc j) (omega arith) mult))))

-- The right half as a perfect tree.
right_half :
    (fuel lo j k : ℕ)
    → lo + 2 ^ suc j < 2 ^ 64
    → lo % 2 ^ suc j ≡ 0
    → lo + 2 ^ j < k
    → left_turns (suc fuel) k (lo + 2 ^ suc j, suc j) ≡ left_turns fuel k (lo + 2 ^ j + 2 ^ j, j)
right_half fuel lo j k room mult past =
    let whole : lo + 2 ^ suc j ≡ lo + 2 ^ j + 2 ^ j = omega (arith, pow-suc 2 j) in
    turn_right fuel lo (lo + 2 ^ suc j) j k room (perfect-IsNode lo (suc j) mult) past
    ∙ ap (λ (c : ℕ). left_turns fuel k (lo + 2 ^ suc j, c)) (half_height lo j room mult)
    ∙ ap (λ (i : ℕ). left_turns fuel k (i, j)) whole

pub perfect_bound :
    (fuel lo j k : ℕ)
    → j ≤ fuel
    → lo + 2 ^ j < 2 ^ 64
    → lo % 2 ^ j ≡ 0
    → lo < k
    → k ≤ lo + 2 ^ j
    → k + 2 ^ left_turns fuel k (lo + 2 ^ j, j) ≤ lo + 2 ^ j + 1
perfect_bound fuel lo zero k hf room mult low high =
    rw (leaf_turns fuel k (lo + 2 ^ 0)) (omega arith)
perfect_bound zero lo (suc j) k hf room mult low high = absurd (omega arith)
perfect_bound (suc fuel) lo (suc j) k hf room mult low high =
    let twice = pow-suc 2 j in
    let half = multiple_of_le lo j (suc j) (omega arith) mult in
    let node = perfect-IsNode lo (suc j) mult in
    elim (turn fuel lo (lo + 2 ^ suc j) j k room node low) [
      | inl l ↦
          let ih = perfect_bound fuel lo j k (omega arith) (omega (arith, twice)) half low l.0 in
          let near =
            left_turns-Standing fuel lo (lo + 2 ^ j) j k (omega arith) (omega (arith, twice))
              (perfect-IsNode lo j half) low l.0 in
          let turns = left_turns fuel k (lo + 2 ^ j, j) in
          rw (l.1)
            (omega (arith, ih, pow-suc 2 turns, twice, two_pow_le {a = turns} {b = j} near.low))
      | inr r ↦
          let ih =
            perfect_bound fuel (lo + 2 ^ j) j k (omega arith) (omega (arith, twice))
              (multiple-add lo j half) r.0 (omega (arith, twice)) in
          rw (right_half fuel lo j k room mult r.0) (omega (arith, ih, twice))
    ]

pub perfect_last :
    (fuel lo j d k : ℕ)
    → j ≤ fuel
    → lo + 2 ^ j < 2 ^ 64
    → lo % 2 ^ j ≡ 0
    → d ≤ j
    → k + 2 ^ d ≡ lo + 2 ^ j + 1
    → left_turns fuel k (lo + 2 ^ j, j) ≡ d
perfect_last fuel lo zero d k hf room mult le at = leaf_turns fuel k (lo + 2 ^ 0) ∙ omega arith
perfect_last zero lo (suc j) d k hf room mult le at = absurd (omega arith)
perfect_last (suc fuel) lo (suc j) d k hf room mult le at =
    let twice = pow-suc 2 j in
    let half = multiple_of_le lo j (suc j) (omega arith) mult in
    elim (Bool-cases (leb d j)) [
      | inl l ↦
          let past : lo + 2 ^ j < k =
            omega (arith, twice, two_pow_le {a = d} {b = j} (leb→le d j l)) in
          right_half fuel lo j k room mult past
          ∙ perfect_last fuel (lo + 2 ^ j) j d k (omega arith) (omega (arith, twice))
              (multiple-add lo j half) (leb→le d j l) (omega (arith, twice))
      | inr r ↦
          let top : d ≡ suc j = ground arith in
          let first : k ≡ lo + 1 = omega (arith, ap (λ (x : ℕ). 2 ^ x) top) in
          let pos = two_pow_pos j in
          turn_left fuel lo (lo + 2 ^ suc j) j k room (perfect-IsNode lo (suc j) mult) (omega arith)
            (omega arith)
          ∙ ap suc (
              perfect_last fuel lo j j k (omega arith) (omega (arith, twice)) half (omega arith)
                (omega arith))
          ∙ sym top
    ]

-- The last leaf at a distance below the node that joins the perfect trees after leaf `lo`.
unfoldable pub last_at : ℕ → List Addr → ℕ → ℕ
unfolding spine_height
last_at lo [] d = 0
last_at lo (a ∷ []) d = lo + 2 ^ a.j + 1 - 2 ^ d
last_at lo (a ∷ b ∷ rest) d =
    let right = last_at a.i (b ∷ rest) d in
    if leb d (spine_height (b ∷ rest)) then right else lo + 2 ^ a.j + 1 - 2 ^ (d - 1)

pub last_one : (lo d : ℕ) (a : Addr) → last_at lo (a ∷ []) d ≡ lo + 2 ^ a.j + 1 - 2 ^ d
unfolding last_at
last_one lo d a = refl

pub last_right :
    (lo d : ℕ) (a b : Addr) (rest : List Addr)
    → d ≤ spine_height (b ∷ rest)
    → last_at lo (a ∷ b ∷ rest) d ≡ last_at a.i (b ∷ rest) d
unfolding last_at
last_right lo d a b rest le = rw (last_at, le→leb d (spine_height (b ∷ rest)) le) refl

pub last_left :
    (lo d : ℕ) (a b : Addr) (rest : List Addr)
    → spine_height (b ∷ rest) ≤ d
    → last_at lo (a ∷ b ∷ rest) (suc d) ≡ lo + 2 ^ a.j + 1 - 2 ^ d
unfolding last_at
last_left lo d a b rest le =
    let past : leb (suc d) (spine_height (b ∷ rest)) ≡ false = ground arith in
    let e : suc d - 1 ≡ d = omega arith in rw (last_at, past, e) refl
