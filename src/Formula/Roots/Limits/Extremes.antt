-- ===== src/Formula/Roots/Limits/Extremes.antt =====
-- The first and the last entry of a generation at each distance.
use mathlib.Core.Path.{subst}
use stratified_hash_tree.Prelude.{
  ℕ, suc, ◌^◌, ◌≤◌, ◌<◌, ◌≡◌, sym, ap, ◌∙◌, inl, inr, Bool-cases, none, some, List, [], ◌∷◌, arith,
  ltb,
}
use stratified_hash_tree.Formula.Tree.{Addr}
use stratified_hash_tree.Formula.Tree.Nodes.{IsNode}
use stratified_hash_tree.Formula.Roots.{entry_access_distance}
use stratified_hash_tree.Formula.Roots.Tiling.{Tiles}
use stratified_hash_tree.Formula.Roots.Spine.{spine_height, spine-IsNode}
use stratified_hash_tree.Formula.Roots.Access.{
  root_of-eq-spine, root_height, spine_height-le, entry_access_distance-eq-left_turns,
}
use stratified_hash_tree.Formula.Roots.Distance.{left_turns}
use stratified_hash_tree.Formula.Roots.Limits.Nearest.{
  Standing, left_turns-Standing, first_at, first_at-Reaches, first_at-le,
}
use stratified_hash_tree.Formula.Roots.Limits.Farthest.{last_at, last_one, last_left}
use stratified_hash_tree.Formula.Roots.Limits.Joined.{last_at-Reaches, last_at-ge}

-- Entry `k` is the last one of generation `n` at distance `d`.
pub record IsFarthest (n d k : ℕ) : Type 0 where
  pub positive : 0 < k
  pub inside : k ≤ n
  pub distance : entry_access_distance k n ≡ some d
  pub greatest : (i : ℕ) → 0 < i → i ≤ n → entry_access_distance i n ≡ some d → i ≤ k

-- Entry `k` is the first one of generation `n` at distance `d`.
pub record IsNearest (n d k : ℕ) : Type 0 where
  pub positive : 0 < k
  pub inside : k ≤ n
  pub distance : entry_access_distance k n ≡ some d
  pub least : (i : ℕ) → 0 < i → i ≤ n → entry_access_distance i n ≡ some d → k ≤ i

some_injective : {a b : ℕ} → some a ≡ some b → a ≡ b
some_injective e = ap (λ o. (elim o [ none ↦ 0 | some x ↦ x ])) e

module _ (n : ℕ) (a : Addr) (rest : List Addr) (room : n < 2 ^ 64)
    (t : Tiles 64 0 n (a ∷ rest)) where
  abbrev pub height : ℕ
  height = spine_height (a ∷ rest)

  pub node : IsNode 0 n height
  node = spine-IsNode 64 0 n a rest (omega arith) t

  distance_lem :
      (k : ℕ) → 0 < k → k ≤ n → entry_access_distance k n ≡ some (left_turns 64 k (n, height))
  distance_lem k pos le =
      entry_access_distance-eq-left_turns k n pos le room
      ∙ ap (λ p. some (left_turns 64 k p)) (root_of-eq-spine n a rest room t)

  pub last_at-IsFarthest : (d : ℕ) → d ≤ height → IsFarthest n d (last_at 0 (a ∷ rest) d)
  last_at-IsFarthest d le =
      let r = last_at-Reaches 64 64 0 n d a rest room (omega arith) t (root_height a rest n t) le in
      record {
        positive = r.above;
        inside = r.inside;
        distance = distance_lem _ r.above r.inside ∙ ap some r.turns;
        greatest = λ i pos high at.
            (let turns = some_injective (sym (distance_lem i pos high) ∙ at) in
              subst (λ (x : ℕ). i ≤ last_at 0 (a ∷ rest) x) turns
                (last_at-ge 64 64 0 n i a rest room (omega arith) t (root_height a rest n t) pos
                  high));
      }

  pub first_at-IsNearest : (d : ℕ) → d ≤ height → IsNearest n d (first_at 0 n height d)
  first_at-IsNearest d le =
      let r = first_at-Reaches 64 0 n height d (root_height a rest n t) room node le in
      record {
        positive = r.above;
        inside = r.inside;
        distance = distance_lem _ r.above r.inside ∙ ap some r.turns;
        least = λ i pos high at.
            (let turns = some_injective (sym (distance_lem i pos high) ∙ at) in
              first_at-le 0 n height i d (
                subst (λ (x : ℕ). Standing 0 n height i x) turns
                  (left_turns-Standing 64 0 n height i (root_height a rest n t) room node pos
                    high)));
      }

  -- Only the latest entry has distance 0.
  pub before : (d k : ℕ) → IsFarthest n (suc d) k → k < n
  unfolding first_at
  before d k last = elim (Bool-cases (ltb k n)) [
    | inl l ↦ ground arith
    | inr r ↦
        let same : k ≡ n = ground (arith, last.inside) in
        let zeroth = first_at-IsNearest 0 (omega arith) in
        let at_zero : entry_access_distance n n ≡ some 0 = zeroth.distance in
        absurd (
          omega (
            arith,
            some_injective (
                sym at_zero ∙ ap (λ (x : ℕ). entry_access_distance x n) (sym same) ∙ last.distance),
          ))
  ]

  pub top_lem : last_at 0 (a ∷ rest) height ≡ 1
  unfolding spine_height
  top_lem = go rest t
    where
      go : (xs : List Addr) → Tiles 64 0 n (a ∷ xs) → last_at 0 (a ∷ xs) (spine_height (a ∷ xs)) ≡ 1
      go [] u = last_one 0 a.j a ∙ omega arith
      go (b ∷ xs) u =
          last_left 0 a.j a b xs (spine_height-le a b xs n a.j u.3 (omega arith)) ∙ omega arith
