-- ===== src/Query/Get.antt =====
-- `get` walks down to the leaf of an index and returns its value.
use mathlib.Core.Bool.{true≢false}
use stratified_hash_tree.Prelude.{
  ℕ, zero, suc, ◌+◌, ◌-◌, ◌^◌, ◌≤◌, ◌<◌, ◌≡◌, refl, sym, ap, ◌∙◌, inl, inr, ◌==◌, Bool-cases, true,
  false, Option, none, some, List, ok, arith, length, if◌then◌else◌, ltb, ◌||◌,
}
use stratified_hash_tree.Prelude.Words.{two_pow_pos}
use stratified_hash_tree.Formula.Arith.{ceil_log2}
use stratified_hash_tree.Formula.Arith.Logs.{ceil_log2_upper}
use stratified_hash_tree.Formula.Tree.{NodeIndex, root_of, contains}
use stratified_hash_tree.Formula.Tree.Nodes.{IsNode-IsAligned}
use stratified_hash_tree.Formula.Tree.Subnodes.{root_of-IsNode}
use stratified_hash_tree.Hashing.{Hasher}
use stratified_hash_tree.Entry.{INode, Entry}
use stratified_hash_tree.Cache.{revision, last_entry}
use stratified_hash_tree.Storage.{Storage}
use stratified_hash_tree.Slate.Spec.{Log, IsEntry}
use stratified_hash_tree.Query.{Query, WalkDirection, left, walk, walk_down, steer, get}
use stratified_hash_tree.Query.Descent.{Joined, contains_at, contains_split, Serves, holder_lem}
use stratified_hash_tree.Query.Places.{height_at, height_at-length, Above, height_at-Above}
use stratified_hash_tree.Query.Walk.{called_at, walk_left-Way}
use stratified_hash_tree.Query.Turns.{
  leaf-Walks, turns_right, turns_inside, turns_outside, right-Walks, left_place, Walks,
}

module _ (S : Storage) ⦃H : Hasher⦄ (log : Log) where
  module _ (n : ℕ) (room : n < 2 ^ 64) (q : Query S) (serves : Serves S log n q) where
    left-Walks :
        (fuel i m k h : ℕ) (e : Entry)
        → IsEntry log m e
        → m ≤ n
        → (a : Above log m 0 e.inodes k h) → (m == i) ≡ false
        → contains m a.below i ≡ false
        → ((place : ℕ) (below : Entry)
            → IsEntry log a.node.left.i below
            → a.node.left.i ≤ n
            → height_at 0 below.inodes place ≡ some a.node.left.j
            → Walks S log fuel i q place below)
        → Walks S log (suc fuel) i q (suc k) e
    left-Walks fuel i m k h e entry le a other outside next r =
        let y = a.joins in
        let left_i : a.node.left.i ≡ y.lo + 2 ^ y.k =
          ap (λ (p : NodeIndex). p.0) y.splits.left_is in
        let earlier : a.node.left.i < m = omega (arith, left_i, y.splits.node.1) in
        let (below, held, is_below) =
          holder_lem S log n q a.node.left serves a.stored_at
            (omega (arith, left_i, two_pow_pos y.k)) (omega arith) in
        let p = left_place S log m a.below a.node below (omega arith) y is_below in
        let turned : called_at S (steer S i) q e a.node r ≡ (left, r) =
          ap
            (λ (t : ℕ).
              steer S i (revision q.cache) t a.node.meta.address.j a.node.meta.hash none r)
            entry.leaf.index
          ∙ turns_outside S log (revision q.cache) i m a.below a.node r y other outside in
        walk_left-Way S (steer S i) fuel k p.place q e a.node below r (some (log.payload i)) a.found
          (ap (λ (t : WalkDirection × Option (List ℕ)). t.0) turned) held p.way
          (ap (λ (t : WalkDirection × Option (List ℕ)). walk S (steer S i) fuel q p.place below t.1)
              turned
            ∙ next p.place below is_below (omega arith) p.there r)

    -- A node that is left of the path contains what its parent does and the path below does not.
    contains_left :
        (m i : ℕ) (x : INode) (j h : ℕ)
        → m < 2 ^ 64
        → Joined log m j x
        → x.meta.address.j ≡ h
        → contains m h i ≡ true
        → contains m j i ≡ false
        → contains x.left.i x.left.j i ≡ true
    contains_left m i x j h small y at inside outside =
        elim (Bool-cases (contains x.left.i x.left.j i)) [
          | inl there ↦ there
          | inr gone ↦ absurd (
              true≢false (
                sym inside
                ∙ ap (λ (t : ℕ). contains m t i) (sym at ∙ y.height)
                ∙ contains_split y.lo m y.k i (x.left.i, x.left.j) (m, j) small y.splits gone
                    outside))
        ]

    -- The last leaf of a node.
    contains_last :
        (m i : ℕ) (x : INode) (j : ℕ)
        → m < 2 ^ 64
        → Joined log m j x
        → (m == i) ≡ true
        → contains m j i ≡ true
    contains_last m i x j small y own =
        contains_at (y.lo + 2 ^ y.k) m j i small (omega (arith, y.splits.right_low, y.splits.low))
          y.splits.right_node
        ∙ ground (arith, IsNode-IsAligned (y.lo + 2 ^ y.k) m j y.splits.right_node)

    walk-Walks :
        (fuel i m k j : ℕ) (e : Entry)
        → IsEntry log m e
        → 0 < m
        → m ≤ n
        → height_at 0 e.inodes k ≡ some j
        → j < fuel
        → contains m j i ≡ true
        → Walks S log fuel i q k e
    walk-Walks zero i m k j e entry pos le at enough inside = absurd (omega arith)
    walk-Walks (suc fuel) i m zero j e entry pos le at enough inside =
        let low : 0 ≡ j = (let same : some 0 ≡ some j = at in cc) in
        let leaf = contains_at (m - 1) m 0 i (omega arith) (omega arith) (omega arith) in
        leaf-Walks S log fuel i m q e entry
          (ground (arith, sym leaf ∙ ap (λ (t : ℕ). contains m t i) low ∙ inside))
    walk-Walks (suc fuel) i m (suc k) j e entry pos le at enough inside =
        let a = height_at-Above log m 0 (root_of m).1 k j e.inodes (omega arith) entry.links at in
        let rises : a.below < j =
          omega (arith, a.height, a.joins.height, a.joins.splits.right_low) in
        elim (Bool-cases (m == i)) [
          | inl own ↦
              right-Walks S log fuel i m k j q e entry a
                (λ r. turns_right S log (revision q.cache) i m a.below a.node r a.joins own)
                (walk-Walks fuel i m k a.below e entry pos le a.below_at (omega arith)
                  (contains_last m i a.node a.below (omega arith) a.joins own))
          | inr other ↦ elim (Bool-cases (contains m a.below i)) [
            | inl within ↦
                right-Walks S log fuel i m k j q e entry a
                  (λ r.
                    turns_inside S log (revision q.cache) i m a.below a.node r a.joins other within)
                  (walk-Walks fuel i m k a.below e entry pos le a.below_at (omega arith) within)
            | inr outside ↦
                let left_j : a.node.left.j ≡ a.joins.k =
                  ap (λ (p : NodeIndex). p.1) a.joins.splits.left_is in
                let left_i : a.node.left.i ≡ a.joins.lo + 2 ^ a.joins.k =
                  ap (λ (p : NodeIndex). p.0) a.joins.splits.left_is in
                left-Walks fuel i m k j e entry le a other outside
                  (λ place below is_below small there.
                    walk-Walks fuel i a.node.left.i place a.node.left.j below is_below
                      (omega (arith, left_i, two_pow_pos a.joins.k)) small there
                      (omega (arith, left_j, a.height, a.joins.height))
                      (contains_left m i a.node a.below j (omega arith) a.joins a.height inside
                        outside))
          ]
        ]

    walk_down_step :
        (i : ℕ) (e : Entry) (r : Option (List ℕ))
        → last_entry q.cache ≡ some e
        → walk_down S (steer S i) 65 q r ≡ walk S (steer S i) 65 q (length e.inodes) e r
    unfolding walk_down
    walk_down_step i e r found = rw (walk_down, found) refl

    get_inside :
        (i : ℕ)
        → (i == 0 || ltb (revision q.cache) i) ≡ false
        → get S 65 q i ≡ walk_down S (steer S i) 65 q none
    unfolding get
    get_inside i valid = rw (get, valid) refl

    get_outside : (i : ℕ) → (i == 0 || ltb (revision q.cache) i) ≡ true → get S 65 q i ≡ ok none
    unfolding get
    get_outside i valid = rw (get, valid) refl

    -- In a query on generation `n` of a log, below 2 ^ 64, `get` of an index from 1 to `n` returns
    -- the value of that index, and of every other index none, with the calls of the walk nested at
    -- most 65 deep.
    pub get_lem :
        (i : ℕ) → get S 65 q i ≡ ok (if i == 0 || ltb n i then none else some (log.payload i))
    unfolding root_of
    get_lem i = elim (Bool-cases (i == 0 || ltb (revision q.cache) i)) [
      | inr valid ↦
          let pos : 0 < n = ground (arith, serves.current.at_revision) in
          let (e, last, entry) = serves.current.has_last pos in
          let top = height_at-length log n 0 (root_of n).1 e.inodes entry.links in
          let low = (ceil_log2_upper n pos room).1 in
          let inside : contains n (ceil_log2 n) i ≡ true =
            contains_at 0 n (ceil_log2 n) i room low (root_of-IsNode n pos room)
            ∙ ground (arith, serves.current.at_revision) in
          let range : (i == 0 || ltb n i) ≡ false =
            ap (λ (m : ℕ). i == 0 || ltb m i) (sym serves.current.at_revision) ∙ valid in
          get_inside i valid
          ∙ walk_down_step i e none last
          ∙ walk-Walks 65 i n (length e.inodes) (ceil_log2 n) e entry pos (omega arith) top
              (omega (arith, low)) inside none
          ∙ rw range refl
      | inl out ↦
          let range : (i == 0 || ltb n i) ≡ true =
            ap (λ (m : ℕ). i == 0 || ltb m i) (sym serves.current.at_revision) ∙ out in
          get_outside i out ∙ rw range refl
    ]
