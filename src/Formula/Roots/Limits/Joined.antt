-- ===== src/Formula/Roots/Limits/Joined.antt =====
-- `last_at` is the last leaf at each distance below the node that joins perfect trees.
use stratified_hash_tree.Prelude.{
  ℕ, zero, suc, ◌+◌, ◌-◌, ◌%◌, ◌^◌, ◌≤◌, ◌<◌, ◌≡◌, sym, ◌∙◌, inl, inr, Bool-cases, arith, leb,
  leb→le, ap, List, [], ◌∷◌,
}
use stratified_hash_tree.Prelude.Words.{two_pow_pos, two_pow_le}
use stratified_hash_tree.Formula.Arith.{ceil_log2}
use stratified_hash_tree.Formula.Tree.{Addr}
use stratified_hash_tree.Formula.Tree.Nodes.{IsNode}
use stratified_hash_tree.Formula.Roots.Tiling.{Tiles}
use stratified_hash_tree.Formula.Roots.Spine.{
  IsNode_height, spine_height, spine-IsNode, rest_multiple,
}
use stratified_hash_tree.Formula.Roots.Access.{spine_height-le}
use stratified_hash_tree.Formula.Roots.Distance.{left_turns}
use stratified_hash_tree.Formula.Roots.Limits.Nearest.{
  left_turns-Standing, Reaches, turn, turn_left, turn_right,
}
use stratified_hash_tree.Formula.Roots.Limits.Farthest.{
  perfect_bound, perfect_last, last_at, last_one, last_right, last_left,
}

-- A joining node and the node of the trees after its first.
record Parts (lo n : ℕ) (a b : Addr) (rest : List Addr) : Type 0 where
  node : IsNode lo n (suc a.j)
  below : IsNode a.i n (spine_height (b ∷ rest))
  height : ceil_log2 (n - (lo + 2 ^ a.j)) ≡ spine_height (b ∷ rest)
  multiple : a.i % 2 ^ a.j ≡ 0

parts :
    (k lo n : ℕ) (a b : Addr) (rest : List Addr)
    → n < 2 ^ 64
    → lo % 2 ^ k ≡ 0
    → Tiles k lo n (a ∷ b ∷ rest)
    → Parts lo n a b rest
unfolding spine_height
parts k lo n a b rest room e t =
    let multiple = rest_multiple k lo n a (b ∷ rest) t in
    let below = spine-IsNode a.j a.i n b rest multiple t.3 in
    record {
      node = spine-IsNode k lo n a (b ∷ rest) e t;
      below = below;
      height =
          ap (λ (x : ℕ). ceil_log2 (n - x)) (sym t.2)
          ∙ IsNode_height a.i n (spine_height (b ∷ rest)) room below;
      multiple = multiple;
    }

-- The last leaf of each distance is a leaf of the node, and at that distance.
pub last_at-Reaches :
    (fuel bound lo n d : ℕ) (a : Addr) (rest : List Addr)
    → n < 2 ^ 64
    → lo % 2 ^ bound ≡ 0
    → Tiles bound lo n (a ∷ rest)
    → spine_height (a ∷ rest) ≤ fuel
    → d ≤ spine_height (a ∷ rest)
    → Reaches fuel lo n (spine_height (a ∷ rest)) (last_at lo (a ∷ rest) d) d
unfolding spine_height
last_at-Reaches fuel bound lo n d a [] room e t hf le =
    let whole : n ≡ lo + 2 ^ a.j = omega (arith, t.2, t.3) in
    let small = two_pow_le {a = d} {b = a.j} le in
    let pos = two_pow_pos d in
    rw (last_one lo d a, whole)
      (record {
        above = omega arith;
        inside = omega arith;
        turns =
            perfect_last fuel lo a.j d (lo + 2 ^ a.j + 1 - 2 ^ d) hf (omega (arith, whole)) t.1 le
              (omega arith);
      })
last_at-Reaches zero bound lo n d a (b ∷ rest) room e t hf le = absurd (omega arith)
last_at-Reaches (suc fuel) bound lo n d a (b ∷ rest) room e t hf le =
    let p = parts bound lo n a b rest room e t in
    elim (Bool-cases (leb d (spine_height (b ∷ rest)))) [
      | inl l ↦
          let ih =
            last_at-Reaches fuel a.j a.i n d b rest room p.multiple t.3
              (spine_height-le a b rest n fuel t.3 (omega arith)) (leb→le _ _ l) in
          rw (last_right lo d a b rest (leb→le _ _ l)) (record {
            above = omega (arith, ih.above, t.2);
            inside = ih.inside;
            turns =
                turn_right fuel lo n a.j _ room p.node (omega (arith, ih.above, t.2))
                ∙ ap (λ (c : ℕ). left_turns fuel (last_at a.i (b ∷ rest) d) (n, c)) p.height
                ∙ ih.turns;
          })
      | inr r ↦
          let positive : d ≡ suc (d - 1) = ground arith in
          rw positive (
            in_left fuel lo n (d - 1) a b rest room p (ground arith) t.1 (omega arith)
              (omega arith))
    ]
  where
    in_left :
        (fuel lo n d : ℕ) (a b : Addr) (rest : List Addr)
        → n < 2 ^ 64
        → Parts lo n a b rest
        → spine_height (b ∷ rest) ≤ d
        → lo % 2 ^ a.j ≡ 0
        → d ≤ a.j
        → a.j ≤ fuel
        → Reaches (suc fuel) lo n (suc a.j) (last_at lo (a ∷ b ∷ rest) (suc d)) (suc d)
    in_left fuel lo n d a b rest room p past mult le hf =
        let small = two_pow_le {a = d} {b = a.j} le in
        let pos = two_pow_pos d in
        rw (last_left lo d a b rest past) (record {
          above = omega arith;
          inside = omega (arith, p.node.1);
          turns =
              turn_left fuel lo n a.j _ room p.node (omega arith) (omega arith)
              ∙ ap suc (
                  perfect_last fuel lo a.j d (lo + 2 ^ a.j + 1 - 2 ^ d) hf (omega (arith, p.node.1))
                    mult le (omega arith));
        })

-- No leaf at a distance is after the last one.
pub last_at-ge :
    (fuel bound lo n k : ℕ) (a : Addr) (rest : List Addr)
    → n < 2 ^ 64
    → lo % 2 ^ bound ≡ 0
    → Tiles bound lo n (a ∷ rest)
    → spine_height (a ∷ rest) ≤ fuel
    → lo < k
    → k ≤ n
    → k ≤ last_at lo (a ∷ rest) (left_turns fuel k (n, spine_height (a ∷ rest)))
unfolding spine_height
last_at-ge fuel bound lo n k a [] room e t hf low high =
    let whole : n ≡ lo + 2 ^ a.j = omega (arith, t.2, t.3) in
    rw (last_one lo _ a, whole)
      (omega (
        arith,
        perfect_bound fuel lo a.j k hf (omega (arith, whole)) t.1 low (omega (arith, whole)),
      ))
last_at-ge zero bound lo n k a (b ∷ rest) room e t hf low high = absurd (omega arith)
last_at-ge (suc fuel) bound lo n k a (b ∷ rest) room e t hf low high =
    let p = parts bound lo n a b rest room e t in
    let deep = spine_height-le a b rest n fuel t.3 (omega arith) in
    elim (turn fuel lo n a.j k room p.node low) [
      | inl l ↦
          let d = left_turns fuel k (lo + 2 ^ a.j, a.j) in
          rw (l.1) (elim (Bool-cases (leb (suc d) (spine_height (b ∷ rest)))) [
            | inl s ↦
                let ih =
                  last_at-Reaches fuel a.j a.i n (suc d) b rest room p.multiple t.3 deep
                    (leb→le _ _ s) in
                rw (last_right lo (suc d) a b rest (leb→le _ _ s))
                  (omega (arith, ih.above, l.0, t.2))
            | inr s ↦
                let ih =
                  perfect_bound fuel lo a.j k (omega arith) (omega (arith, p.node.1)) t.1 low l.0 in
                rw (last_left lo d a b rest (ground arith)) (omega (arith, ih))
          ])
      | inr r ↦
          let d = left_turns fuel k (n, spine_height (b ∷ rest)) in
          let past : a.i < k = omega (arith, r.0, t.2) in
          let near =
            left_turns-Standing fuel a.i n (spine_height (b ∷ rest)) k deep room p.below past
              high in
          let same : left_turns (suc fuel) k (n, suc a.j) ≡ d =
            r.1 ∙ ap (λ (c : ℕ). left_turns fuel k (n, c)) p.height in
          rw (same, last_right lo d a b rest near.low)
            (last_at-ge fuel a.j a.i n k b rest room p.multiple t.3 deep past high)
    ]
