-- ===== src/Query/Walk.antt =====
-- One round of a walk, and where the callback of `get` turns.
use stratified_hash_tree.Prelude.{
  ℕ, suc, ◌-◌, ◌≡◌, refl, sym, ap, ◌∙◌, ◌⊎◌, inl, inr, ◌==◌, ==_iff, true, false, Option, none,
  some, List, ok, arith, get_elem?, if◌then◌else◌, ◌>>=◌,
}
use stratified_hash_tree.Formula.Tree.{NodeIndex, subnodes_of, contains}
use stratified_hash_tree.Hashing.{Hash}
use stratified_hash_tree.Entry.{INode, Entry}
use stratified_hash_tree.Cache.{revision}
use stratified_hash_tree.Storage.{Storage}
use stratified_hash_tree.Query.{
  Query, Callback, WalkDirection, left, right, both, terminate, holder, place_of, node_at,
  goes_left, goes_right, walk, steer,
}

-- Where the left subnode stands in the entry that it belongs to.
abbrev pub Way : INode → Entry → ℕ → Type 0
Way x below place =
    (((x.left.j == 0) ≡ true) × (place ≡ 0))
    ⊎ (((x.left.j == 0) ≡ false) × (place_of x.left.j below.inodes ≡ some place))

module _ (S : Storage) {σ : Type 0} (callback : Callback σ) where
  -- The callback on a node above the leaves.
  abbrev pub called_at : Query S → Entry → INode → σ → WalkDirection × σ
  called_at q e x state =
      callback (revision q.cache) e.enode.meta.address.i x.meta.address.j x.meta.hash none state

  pub walk_leaf :
      (fuel : ℕ) (q : Query S) (e : Entry) (state : σ)
      → walk S callback (suc fuel) q 0 e state
        ≡ ok
            (callback
              (revision q.cache)
              e.enode.meta.address.i
              e.enode.meta.address.j
              e.enode.meta.hash
              (some e.enode.payload)
              state).1
  unfolding walk node_at
  walk_leaf fuel q e state = refl

  pub walk_right :
      (fuel k : ℕ) (q : Query S) (e : Entry) (x : INode) (state result : σ)
      → get_elem? e.inodes k ≡ some x
      → (called_at q e x state).0 ≡ right
      → walk S callback fuel q k e (called_at q e x state).1 ≡ ok result
      → walk S callback (suc fuel) q (suc k) e state ≡ ok result
  unfolding walk node_at goes_right goes_left
  walk_right fuel k q e x state result found turn below =
      let inner : (suc k == 0) ≡ false = ground arith in
      let lower : suc k - 1 ≡ k = omega arith in
      rw (walk, node_at, found, inner, turn, lower, below) refl

  pub walk_left :
      (fuel k place : ℕ) (q : Query S) (e : Entry) (x : INode) (below : Entry) (state result : σ)
      → get_elem? e.inodes k ≡ some x
      → (called_at q e x state).0 ≡ left
      → holder S q x.left ≡ ok below
      → (x.left.j == 0) ≡ false
      → place_of x.left.j below.inodes ≡ some place
      → walk S callback fuel q place below (called_at q e x state).1 ≡ ok result
      → walk S callback (suc fuel) q (suc k) e state ≡ ok result
  unfolding walk node_at goes_right goes_left
  walk_left fuel k place q e x below state result found turn held high placed rest =
      let inner : (suc k == 0) ≡ false = ground arith in
      let lower : suc k - 1 ≡ k = omega arith in
      rw (walk, node_at, found, inner, turn, lower, found, held, ◌>>=◌, high, placed, rest) refl

  pub walk_left_leaf :
      (fuel k : ℕ) (q : Query S) (e : Entry) (x : INode) (below : Entry) (state result : σ)
      → get_elem? e.inodes k ≡ some x
      → (called_at q e x state).0 ≡ left
      → holder S q x.left ≡ ok below
      → (x.left.j == 0) ≡ true
      → walk S callback fuel q 0 below (called_at q e x state).1 ≡ ok result
      → walk S callback (suc fuel) q (suc k) e state ≡ ok result
  unfolding walk node_at goes_right goes_left
  walk_left_leaf fuel k q e x below state result found turn held low rest =
      let inner : (suc k == 0) ≡ false = ground arith in
      let lower : suc k - 1 ≡ k = omega arith in
      rw (walk, node_at, found, inner, turn, lower, found, held, low, rest) refl

  pub walk_left-Way :
      (fuel k place : ℕ) (q : Query S) (e : Entry) (x : INode) (below : Entry) (state result : σ)
      → get_elem? e.inodes k ≡ some x
      → (called_at q e x state).0 ≡ left
      → holder S q x.left ≡ ok below
      → Way x below place
      → walk S callback fuel q place below (called_at q e x state).1 ≡ ok result
      → walk S callback (suc fuel) q (suc k) e state ≡ ok result
  walk_left-Way fuel k place q e x below state result found turn held (inl (low, at)) rest =
      walk_left_leaf fuel k q e x below state result found turn held low
        (ap (λ (p : ℕ). walk S callback fuel q p below (called_at q e x state).1) (sym at) ∙ rest)
  walk_left-Way fuel k place q e x below state result found turn held (inr (high, placed)) rest =
      walk_left fuel k place q e x below state result found turn held high placed rest

  -- A callback that wants both: the right subnode, and the left one with what that left.
  pub walk-both :
      (fuel k place : ℕ) (q : Query S) (e : Entry) (x : INode) (below : Entry)
      (state after result : σ)
      → get_elem? e.inodes k ≡ some x
      → (called_at q e x state).0 ≡ both
      → walk S callback fuel q k e (called_at q e x state).1 ≡ ok after
      → holder S q x.left ≡ ok below
      → Way x below place
      → walk S callback fuel q place below after ≡ ok result
      → walk S callback (suc fuel) q (suc k) e state ≡ ok result
  unfolding walk node_at goes_right goes_left
  walk-both fuel k place q e x below state after result found turn righted held (inl (low, at))
        rest =
      let inner : (suc k == 0) ≡ false = ground arith in
      let lower : suc k - 1 ≡ k = omega arith in
      rw (walk, node_at, found, inner, turn, lower, righted, found, held, low)
        (ap (λ (p : ℕ). walk S callback fuel q p below after) (sym at) ∙ rest)
  walk-both fuel k place q e x below state after result found turn righted held (inr (high, placed))
        rest =
      let inner : (suc k == 0) ≡ false = ground arith in
      let lower : suc k - 1 ≡ k = omega arith in
      rw (walk, node_at, found, inner, turn, lower, righted, found, held, ◌>>=◌, high, placed) rest

  pub walk_terminate :
      (fuel k : ℕ) (q : Query S) (e : Entry) (x : INode) (state : σ)
      → get_elem? e.inodes k ≡ some x
      → (called_at q e x state).0 ≡ terminate
      → walk S callback (suc fuel) q (suc k) e state ≡ ok (called_at q e x state).1
  unfolding walk node_at goes_right goes_left
  walk_terminate fuel k q e x state found turn =
      let inner : (suc k == 0) ≡ false = ground arith in rw (walk, node_at, found, inner, turn) refl

module _ (S : Storage) where
  -- Where `steer` goes at a node: on to the right at the last leaf below it.
  pub steer_own :
      (i n j : ℕ) (h : Hash) (v r : Option (List ℕ))
      → (j == 0) ≡ false
      → steer S i n i j h v r ≡ (right, r)
  unfolding steer
  steer_own i n j h v r inner =
      let own : (i == i) ≡ true = (==_iff i i).1 refl in rw (steer, own, inner) refl

  pub steer_other :
      (i n m j : ℕ) (h : Hash) (v r : Option (List ℕ)) (l right' : NodeIndex)
      → (m == i) ≡ false
      → subnodes_of m j ≡ (l, right')
      → steer S i n m j h v r ≡ (if contains right'.0 right'.1 i then (right, r) else (left, r))
  unfolding steer
  steer_other i n m j h v r l right' other sub = rw (steer, other, sub) refl

  pub steer_leaf :
      (i n : ℕ) (h : Hash) (v r : Option (List ℕ)) → steer S i n i 0 h v r ≡ (terminate, v)
  unfolding steer
  steer_leaf i n h v r = let own : (i == i) ≡ true = (==_iff i i).1 refl in rw (steer, own) refl
