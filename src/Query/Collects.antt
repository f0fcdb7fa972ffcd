-- ===== src/Query/Collects.antt =====
-- The walk of `get_sample` from a node of an entry down.
use mathlib.Core.Path.{subst}
use stratified_hash_tree.Prelude.{
  ℕ, zero, suc, ◌+◌, ◌^◌, ◌≤◌, ◌<◌, ◌≡◌, ap, ◌∙◌, inl, inr, ◌==◌, Bool-cases, true, false, none,
  some, arith,
}
use stratified_hash_tree.Prelude.Words.{two_pow_pos}
use stratified_hash_tree.Formula.Tree.{NodeIndex, root_of, contains}
use stratified_hash_tree.Hashing.{Hasher}
use stratified_hash_tree.Entry.{Entry}
use stratified_hash_tree.Cache.{revision}
use stratified_hash_tree.Storage.{Storage}
use stratified_hash_tree.Slate.Spec.{Log, IsEntry}
use stratified_hash_tree.Query.{Query, walk, gather}
use stratified_hash_tree.Query.Descent.{Serves, holder_lem}
use stratified_hash_tree.Query.Places.{height_at, Above, height_at-Above}
use stratified_hash_tree.Query.Walk.{walk-both}
use stratified_hash_tree.Query.Turns.{left_place}
use stratified_hash_tree.Query.Gather.{
  Gathered, Gathers, leaf-Gathers, outside-Gathers, called_node, gather-both, both-Gathered,
}

module _ (S : Storage) ⦃H : Hasher⦄ (log : Log) (n : ℕ) (room : n < 2 ^ 64) (q : Query S)
    (serves : Serves S log n q) (i : ℕ) where
  inside-Gathers :
      (fuel m k j : ℕ) (e : Entry)
      → IsEntry log m e
      → m ≤ n
      → (a : Above log m 0 e.inodes k j) → contains m j i ≡ true
      → Gathers S log i fuel q k e m a.below
      → ((place : ℕ) (below : Entry)
          → IsEntry log a.node.left.i below
          → height_at 0 below.inodes place ≡ some a.node.left.j
          → Gathers S log i fuel q place below a.node.left.i a.node.left.j)
      → Gathers S log i (suc fuel) q (suc k) e m j
  inside-Gathers fuel m k j e entry le a inside righted lefted c =
      let y = a.joins in
      let left_i : a.node.left.i ≡ y.lo + 2 ^ y.k = ap (λ (p : NodeIndex). p.0) y.splits.left_is in
      let (below, held, is_below) =
        holder_lem S log n q a.node.left serves a.stored_at (omega (arith, left_i, two_pow_pos y.k))
          (omega (arith, left_i, y.splits.node.1)) in
      let p = left_place S log m a.below a.node below (omega arith) y is_below in
      let inner : (j == 0) ≡ false = ground (arith, a.height, y.height) in
      let called =
        called_node S log i m j q e a.node c entry a.height
        ∙ gather-both S i (revision q.cache) m j a.node.meta.hash none c inside inner in
      let (mid, to_right, gathered) = righted c in
      let (after, to_left, gathered') = lefted p.place below is_below p.there mid in
      (
        after,
        walk-both S (gather S i) fuel k p.place q e a.node below c mid after a.found
            (ap (λ t. t.0) called) (ap (λ t. walk S (gather S i) fuel q k e t.1) called ∙ to_right)
            held p.way to_left,
        subst (λ (t : ℕ). Gathered S log i m t c after) a.height
            (both-Gathered S log i m a.below a.node c mid after (omega arith) y
              (ap (λ (t : ℕ). contains m t i) a.height ∙ inside) gathered gathered'),
      )

  pub walk-Gathers :
      (fuel m k j : ℕ) (e : Entry)
      → IsEntry log m e
      → 0 < m
      → m ≤ n
      → height_at 0 e.inodes k ≡ some j
      → j < fuel
      → Gathers S log i fuel q k e m j
  walk-Gathers zero m k j e entry pos le at enough = absurd (omega arith)
  walk-Gathers (suc fuel) m zero j e entry pos le at enough =
      let low : 0 ≡ j = (let same : some 0 ≡ some j = at in cc) in
      subst (Gathers S log i (suc fuel) q 0 e m) low
        (leaf-Gathers S log i fuel m q e pos (omega arith) entry)
  walk-Gathers (suc fuel) m (suc k) j e entry pos le at enough =
      let a = height_at-Above log m 0 (root_of m).1 k j e.inodes (omega arith) entry.links at in
      let rises : a.below < j = omega (arith, a.height, a.joins.height, a.joins.splits.right_low) in
      let left_j : a.node.left.j ≡ a.joins.k = ap (λ (p : NodeIndex). p.1) a.joins.splits.left_is in
      let left_i : a.node.left.i ≡ a.joins.lo + 2 ^ a.joins.k =
        ap (λ (p : NodeIndex). p.0) a.joins.splits.left_is in
      elim (Bool-cases (contains m j i)) [
        | inr out ↦ outside-Gathers S log i fuel m k j q e entry a out
        | inl inside ↦
            inside-Gathers fuel m k j e entry le a inside
              (walk-Gathers fuel m k a.below e entry pos le a.below_at (omega arith))
              (λ place below is_below there.
                walk-Gathers fuel a.node.left.i place a.node.left.j below is_below
                  (omega (arith, left_i, two_pow_pos a.joins.k))
                  (omega (arith, left_i, a.joins.splits.node.1)) there
                  (omega (arith, left_j, a.height, a.joins.height)))
      ]
