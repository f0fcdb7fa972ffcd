-- ===== src/Formula/Roots/Limits/Bounds.antt =====
-- The limits bound the entries at each distance, and each bound is such an entry.
use mathlib.Core.List.{reverse}
use mathlib.Core.Path.{subst}
use stratified_hash_tree.Prelude.{
  ℕ, zero, suc, ◌+◌, ◌-◌, ◌^◌, ◌≤◌, ◌<◌, ◌==◌, ◌≡◌, refl, sym, ap, ◌∙◌, ◌⊎◌, inl, inr, Bool-cases,
  false, some, List, [], ◌∷◌, ◌++◌, ok, length, get_elem?, arith, ltb,
}
use stratified_hash_tree.Prelude.Words.{add64, sub64, add64_of_lt, sub64_of_le}
use stratified_hash_tree.Formula.Arith.{ceil_log2}
use stratified_hash_tree.Formula.Tree.{Addr, RangeInclusive}
use stratified_hash_tree.Formula.Roots.{pbst_roots}
use stratified_hash_tree.Formula.Roots.Tiling.{Tiles, pbst_roots-Tiles}
use stratified_hash_tree.Formula.Roots.Spine.{spine_height, spine-IsNode, IsNode_height}
use stratified_hash_tree.Formula.Roots.Limits.{
  lower_windows, lower_limits, fill_all, upper_windows, blank, entry_access_distance_limits,
}
use stratified_hash_tree.Formula.Roots.Limits.Nearest.{first_at}
use stratified_hash_tree.Formula.Roots.Limits.Filled.{nth}
use stratified_hash_tree.Formula.Roots.Limits.Folded.{Folded, roots-Folded}
use stratified_hash_tree.Formula.Roots.Limits.Windows.{
  one, upper_window, upper_top, lower_window, length-lower_windows, length-lower_limits,
  nth-lower_limits,
}
use stratified_hash_tree.Formula.Roots.Limits.Extremes.{
  IsFarthest, IsNearest, node, last_at-IsFarthest, first_at-IsNearest, before, top_lem,
}

-- The range of the farthest entries at distance `d`, of distances up to `h`: it ends with the last
-- entry at that distance, and begins behind the last one at the next distance, or with entry 1 at
-- the greatest.
pub record UpperRange (n h d : ℕ) (upper : List RangeInclusive) : Type 0 where
  pub range : RangeInclusive
  pub at : get_elem? upper d ≡ some range
  pub ends : IsFarthest n d range.end
  pub starts : ((d < h) × IsFarthest n (suc d) (range.start - 1)) ⊎ ((d ≡ h) × (range.start ≡ 1))

-- The range of the nearest entries at distance `d`: it begins with the first entry at that
-- distance, and ends before the first one at the distance before, or with the latest entry at
-- distance 0.
pub record LowerRange (n d : ℕ) (lower : List RangeInclusive) : Type 0 where
  pub range : RangeInclusive
  pub at : get_elem? lower d ≡ some range
  pub starts : IsNearest n d range.start
  pub ends : ((0 < d) × IsNearest n (d - 1) (range.end + 1)) ⊎ ((d ≡ 0) × (range.end ≡ n))

-- What the limits of generation `n` are, with the ranges at distance `d`.
pub record Bounded (n d : ℕ) : Type 0 where
  pub upper : List RangeInclusive
  pub lower : List RangeInclusive
  pub limits : entry_access_distance_limits n ≡ ok (upper, lower)
  pub upper_size : length upper ≡ suc (ceil_log2 n)
  pub lower_size : length lower ≡ suc (ceil_log2 n)
  pub upper_range : UpperRange n (ceil_log2 n) d upper
  pub lower_range : LowerRange n d lower

limits_step :
    (n : ℕ) (upper : List ℕ)
    → (n == 0) ≡ false
    → fill_all (blank (suc (ceil_log2 n))) (reverse (pbst_roots n)) ≡ ok upper
    → entry_access_distance_limits n
      ≡ ok (
        upper_windows upper ++ (one ∷ []),
        record { start = n; end = n } ∷ lower_windows (lower_limits n (pbst_roots n)),
      )
unfolding entry_access_distance_limits
limits_step n upper positive filled = rw (entry_access_distance_limits, positive, filled) refl

module _ (n : ℕ) (a : Addr) (rest : List Addr) (room : n < 2 ^ 64)
    (t : Tiles 64 0 n (a ∷ rest)) where
  abbrev height : ℕ
  height = spine_height (a ∷ rest)

  upper_lem :
      (f : Folded (suc height) 0 (a ∷ rest)) (d : ℕ)
      → d ≤ height
      → UpperRange n height d (upper_windows f.filled ++ (one ∷ []))
  upper_lem f d le = elim (Bool-cases (ltb d height)) [
    | inl l ↦
        let below : d < height = ground arith in
        let next : IsFarthest n (suc d) (nth f.filled (suc d)) =
          rw (f.within (suc d) below) (last_at-IsFarthest n a rest room t (suc d) below) in
        let x = nth f.filled (suc d) in
        let start : add64 x 1 - 1 ≡ x =
          ap (λ (y : ℕ). y - 1)
            (add64_of_lt x 1 (omega (arith, before n a rest room t d x next, room)))
          ∙ omega arith in
        record {
          range = record { start = add64 x 1; end = nth f.filled d };
          at = upper_window f.filled height d f.size_kept below;
          ends = rw (f.within d le) (last_at-IsFarthest n a rest room t d le);
          starts = inl (below, subst (IsFarthest n (suc d)) (sym start) next);
        }
    | inr r ↦
        let top : d ≡ height = ground arith in
        record {
          range = one;
          at =
              ap (get_elem? (upper_windows f.filled ++ (one ∷ []))) top
              ∙ (upper_top f.filled height f.size_kept).0;
          ends =
              subst (λ (x : ℕ). IsFarthest n x 1) (sym top)
                (subst (IsFarthest n height) (top_lem n a rest room t)
                  (last_at-IsFarthest n a rest room t height (omega arith)));
          starts = inr (top, refl);
        }
  ]

  lower_lem :
      (d : ℕ)
      → d ≤ height
      → LowerRange n d (record { start = n; end = n } ∷ lower_windows (lower_limits n (a ∷ rest)))
  unfolding first_at
  lower_lem zero le = record {
    range = record { start = n; end = n };
    at = refl;
    starts = first_at-IsNearest n a rest room t 0 le;
    ends = inr (refl, refl);
  }
  lower_lem (suc d) le =
      let limits = lower_limits n (a ∷ rest) in
      let here = first_at-IsNearest n a rest room t d (omega arith) in
      let x = first_at 0 n height d in
      let end : sub64 (nth limits d) 1 + 1 ≡ x =
        ap (λ (y : ℕ). sub64 y 1 + 1) (nth-lower_limits n d a rest t (omega arith))
        ∙ ap (λ (y : ℕ). y + 1)
            (sub64_of_le x 1 (omega (arith, here.positive)) (omega (arith, here.inside, room)))
        ∙ omega (arith, here.positive) in
      let pred : suc d - 1 ≡ d = omega arith in
      record {
        range = record { start = nth limits (suc d); end = sub64 (nth limits d) 1 };
        at = lower_window limits height d (length-lower_limits n a rest) le;
        starts =
            rw (nth-lower_limits n (suc d) a rest t le)
              (first_at-IsNearest n a rest room t (suc d) le);
        ends = inl (omega arith, rw pred (subst (IsNearest n d) (sym end) here));
      }

  limits_of : (d : ℕ) → 0 < n → pbst_roots n ≡ a ∷ rest → d ≤ height → Bounded n d
  limits_of d pos eq le =
      let f =
        roots-Folded n room (suc height) 64 0 a rest (omega arith) (omega arith) t (omega arith) in
      let same : ceil_log2 n ≡ height =
        ap ceil_log2 (omega arith) ∙ IsNode_height 0 n height room (node n a rest room t) in
      let positive : (n == 0) ≡ false = ground arith in
      let limits = lower_limits n (a ∷ rest) in
      let whole : RangeInclusive = record { start = n; end = n } in
      record {
        upper = upper_windows f.filled ++ (one ∷ []);
        lower = whole ∷ lower_windows limits;
        limits =
            limits_step n f.filled positive (rw (eq, same) (f.succeeds))
            ∙ ap
                (λ (xs : List Addr).
                  ok (
                    upper_windows f.filled ++ (one ∷ []),
                    whole ∷ lower_windows (lower_limits n xs),
                  ))
                eq;
        upper_size = (upper_top f.filled height f.size_kept).1 ∙ ap suc (sym same);
        lower_size = omega (arith, length-lower_windows limits, length-lower_limits n a rest, same);
        upper_range =
            subst (λ (h : ℕ). UpperRange n h d (upper_windows f.filled ++ (one ∷ []))) (sym same)
              (upper_lem f d le);
        lower_range = lower_lem d le;
      }

-- For every generation `n` from 1 to 2 ^ 64 - 1, `entry_access_distance_limits` succeeds, with one
-- range in each of both lists for every distance from 0 to the height `h` of the tree. For every
-- such distance `d`, where an entry has the distance that `entry_access_distance` computes: the
-- range of the first list ends with the last entry at distance `d`, and begins behind the last
-- entry at distance `d + 1`, or with entry 1 where `d` is `h`; the range of the second list begins
-- with the first entry at distance `d`, and ends before the first entry at distance `d - 1`, or
-- with entry `n` where `d` is 0.
pub entry_access_distance_limits-Bounded :
    (n d : ℕ) → 0 < n → n < 2 ^ 64 → d ≤ ceil_log2 n → Bounded n d
entry_access_distance_limits-Bounded n d pos room le =
    through n d (pbst_roots n) pos room refl (pbst_roots-Tiles n room) le
  where
    through :
        (n d : ℕ) (xs : List Addr)
        → 0 < n
        → n < 2 ^ 64
        → pbst_roots n ≡ xs
        → Tiles 64 0 n xs
        → d ≤ ceil_log2 n
        → Bounded n d
    through n d [] pos room eq t le = absurd (omega (arith, t))
    through n d (a ∷ rest) pos room eq t le =
        let same : ceil_log2 n ≡ spine_height (a ∷ rest) =
          ap ceil_log2 (omega arith)
          ∙ IsNode_height 0 n (spine_height (a ∷ rest)) room
              (spine-IsNode 64 0 n a rest (omega arith) t) in
        limits_of n a rest room t d pos eq (omega (arith, same))
