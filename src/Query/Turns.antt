-- ===== src/Query/Turns.antt =====
-- One turn of the walk of `get`, at a node of an entry of the log.
use stratified_hash_tree.Prelude.{
  ℕ, suc, ◌+◌, ◌%◌, ◌^◌, ◌<◌, ◌≡◌, refl, sym, ap, ap₂, ◌∙◌, inl, inr, ◌==◌, ==_iff, Bool-cases,
  true, false, Option, none, some, List, ok, arith,
}
use stratified_hash_tree.Formula.Tree.{NodeIndex, root_of, contains}
use stratified_hash_tree.Formula.Tree.Nodes.{multiple_of_le, multiple-add}
use stratified_hash_tree.Hashing.{Hasher}
use stratified_hash_tree.Entry.{INode, Entry}
use stratified_hash_tree.Cache.{revision}
use stratified_hash_tree.Storage.{Storage}
use stratified_hash_tree.Slate.Spec.{Log, IsEntry}
use stratified_hash_tree.Query.{Query, WalkDirection, left, right, walk, steer}
use stratified_hash_tree.Query.Descent.{Joined}
use stratified_hash_tree.Query.Places.{under_root, height_at, Above, place-Placed}
use stratified_hash_tree.Query.Walk.{
  walk_leaf, walk_right, Way, steer_own, steer_other, steer_leaf, called_at,
}

module _ (S : Storage) ⦃H : Hasher⦄ (log : Log) where
  -- The walk returns the value, whatever was found before.
  abbrev pub Walks : ℕ → ℕ → Query S → ℕ → Entry → Type 0
  Walks fuel i q k e =
      (r : Option (List ℕ)) → walk S (steer S i) fuel q k e r ≡ ok (some (log.payload i))

  pub leaf-Walks :
      (fuel i m : ℕ) (q : Query S) (e : Entry) → IsEntry log m e → m ≡ i → Walks (suc fuel) i q 0 e
  leaf-Walks fuel i m q e entry here r =
      walk_leaf S (steer S i) fuel q e r
      ∙ ap (λ (p : WalkDirection × Option (List ℕ)). ok p.1)
          (let index : e.enode.meta.address.i ≡ i = entry.leaf.index ∙ here in
            let at_leaf =
              steer_leaf S i (revision q.cache) e.enode.meta.hash (some e.enode.payload) r in
            ap₂
              (λ (a b : ℕ).
                steer S i (revision q.cache) a b e.enode.meta.hash (some e.enode.payload) r)
              index entry.leaf.height
            ∙ at_leaf)
      ∙ ap (λ (p : List ℕ). ok (some p)) (entry.value ∙ ap log.payload here)

  -- At a node over the height `j`, the callback turns.
  pub turns_right :
      (n i m j : ℕ) (x : INode) (r : Option (List ℕ))
      → Joined log m j x
      → (m == i) ≡ true
      → steer S i n m x.meta.address.j x.meta.hash none r ≡ (right, r)
  turns_right n i m j x r y own =
      let inner : (x.meta.address.j == 0) ≡ false = ground (arith, y.height) in
      let here : i ≡ m = sym ((==_iff _ _).0 own) in
      ap (λ (t : ℕ). steer S t n m x.meta.address.j x.meta.hash none r) here
      ∙ steer_own S m n x.meta.address.j x.meta.hash none r inner

  pub turns_inside :
      (n i m j : ℕ) (x : INode) (r : Option (List ℕ))
      → Joined log m j x
      → (m == i) ≡ false
      → contains m j i ≡ true
      → steer S i n m x.meta.address.j x.meta.hash none r ≡ (right, r)
  turns_inside n i m j x r y other inside =
      steer_other S i n m x.meta.address.j x.meta.hash none r (x.left.i, x.left.j) (m, j) other
        y.subnodes
      ∙ rw inside refl

  pub turns_outside :
      (n i m j : ℕ) (x : INode) (r : Option (List ℕ))
      → Joined log m j x
      → (m == i) ≡ false
      → contains m j i ≡ false
      → steer S i n m x.meta.address.j x.meta.hash none r ≡ (left, r)
  turns_outside n i m j x r y other outside =
      steer_other S i n m x.meta.address.j x.meta.hash none r (x.left.i, x.left.j) (m, j) other
        y.subnodes
      ∙ rw outside refl

  pub right-Walks :
      (fuel i m k h : ℕ) (q : Query S) (e : Entry)
      → IsEntry log m e
      → (a : Above log m 0 e.inodes k h)
      → ((r : Option (List ℕ))
          → steer S i (revision q.cache) m a.node.meta.address.j a.node.meta.hash none r
            ≡ (right, r))
      → Walks fuel i q k e
      → Walks (suc fuel) i q (suc k) e
  right-Walks fuel i m k h q e entry a turn below r =
      let turned : called_at S (steer S i) q e a.node r ≡ (right, r) =
        ap (λ (t : ℕ). steer S i (revision q.cache) t a.node.meta.address.j a.node.meta.hash none r)
          entry.leaf.index
        ∙ turn r in
      walk_right S (steer S i) fuel k q e a.node r (some (log.payload i)) a.found
        (ap (λ (p : WalkDirection × Option (List ℕ)). p.0) turned)
        (ap (λ (p : WalkDirection × Option (List ℕ)). walk S (steer S i) fuel q k e p.1) turned
          ∙ below r)

  -- The place of the left subnode in its own entry.
  pub record LeftPlace (x : INode) (below : Entry) : Type 0 where
    pub place : ℕ
    pub there : height_at 0 below.inodes place ≡ some x.left.j
    pub way : Way x below place

  pub left_place :
      (m j : ℕ) (x : INode) (below : Entry)
      → m < 2 ^ 64
      → Joined log m j x
      → IsEntry log x.left.i below
      → LeftPlace x below
  unfolding root_of
  left_place m j x below room y entry = elim (Bool-cases (x.left.j == 0)) [
    | inl leaf ↦ record {
      place = 0;
      there = ap some (sym ((==_iff _ _).0 leaf));
      way = inl (leaf, refl);
    }
    | inr high ↦
        let left_i : x.left.i ≡ y.lo + 2 ^ y.k = ap (λ (p : NodeIndex). p.0) y.splits.left_is in
        let left_j : x.left.j ≡ y.k = ap (λ (p : NodeIndex). p.1) y.splits.left_is in
        let earlier : x.left.i < m = omega (arith, left_i, y.splits.node.1) in
        let multiple : x.left.i % 2 ^ x.left.j ≡ 0 =
          rw (left_i, left_j)
            (multiple-add y.lo y.k
              (multiple_of_le y.lo y.k (suc y.k) (omega arith) y.splits.node.0)) in
        let p =
          place-Placed log x.left.i 0 (root_of x.left.i).1 x.left.j below.inodes (omega arith)
            entry.links multiple (ground arith)
            (under_root x.left.i x.left.j (omega arith) (omega arith)
              (rw (left_j, left_i) (omega arith))) in
        record { place = suc p.place; there = p.there; way = inr (high, p.placed) }
  ]
