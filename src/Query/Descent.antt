-- ===== src/Query/Descent.antt =====
-- From an entry down to an earlier one: the node whose left subnode has it, and the entry it is in.
use mathlib.Core.Bool.{true≢false}
use mathlib.Core.Path.{subst}
use stratified_hash_tree.Prelude.{
  ℕ, suc, ◌+◌, ◌-◌, ◌^◌, ◌≤◌, ◌<◌, ◌≡◌, refl, sym, ap, ◌∙◌, inl, inr, ◌==◌, ==_iff, Bool-cases,
  true, false, none, some, Option-cases, List, [], ◌∷◌, ok, arith, leb, ◌&&◌,
}
use stratified_hash_tree.Prelude.Words.{two_pow_pos, two_pow_lt_inv}
use stratified_hash_tree.Formula.Arith.{ceil_log2}
use stratified_hash_tree.Formula.Arith.Logs.{ceil_log2_upper}
use stratified_hash_tree.Formula.Tree.{NodeIndex, subnodes_of, root_of, contains}
use stratified_hash_tree.Formula.Tree.Nodes.{IsNode, IsNode-IsAligned, contains_lem}
use stratified_hash_tree.Formula.Tree.Subnodes.{
  subnodes_of_lem, left-IsNode, right-IsNode, root_of-IsNode,
}
use stratified_hash_tree.Hashing.{Hasher}
use stratified_hash_tree.Entry.{Address, INode, Entry}
use stratified_hash_tree.Cache.{entry}
use stratified_hash_tree.Storage.{Storage}
use stratified_hash_tree.Slate.Spec.{Log, Linked, IsEntry, IsCurrent}
use stratified_hash_tree.Query.{Query, find_left, holder, read_entry_with_index_check}

-- A node over the leaves `lo + 1` to `i` and its subnodes.
pub record Splits (lo i k : ℕ) (left right : NodeIndex) : Type 0 where
  pub low : k < 64
  pub node : IsNode lo i (suc k)
  pub left_is : left ≡ (lo + 2 ^ k, k)
  pub left_node : IsNode lo (lo + 2 ^ k) k
  pub right_index : right.0 ≡ i
  pub right_node : IsNode (lo + 2 ^ k) i right.1
  pub right_low : right.1 ≤ k

pub split_node :
    (lo i k : ℕ) (left right : NodeIndex)
    → i < 2 ^ 64
    → IsNode lo i (suc k)
    → subnodes_of i (suc k) ≡ (left, right)
    → Splits lo i k left right
split_node lo i k left right h node e = record {
  low = low;
  node = node;
  left_is = sym (ap (λ (p : NodeIndex × NodeIndex). p.0) split);
  left_node = left-IsNode lo i k node;
  right_index = sym (ap (λ (p : NodeIndex × NodeIndex). p.1.0) split);
  right_node = subst (IsNode (lo + 2 ^ k) i) height below.0;
  right_low = subst (λ (t : ℕ). t ≤ k) height below.1;
}
  where
    low : k < 64
    low = two_pow_lt_inv k 64 (omega (arith, node.1))

    split :
        ◌≡◌ {A = NodeIndex × NodeIndex}
          ((lo + 2 ^ k, k), (i, ceil_log2 (i - (lo + 2 ^ k))))
          (left, right)
    split = sym (subnodes_of_lem lo i k h low node) ∙ e

    height : ceil_log2 (i - (lo + 2 ^ k)) ≡ right.1
    height = ap (λ (p : NodeIndex × NodeIndex). p.1.1) split

    below :
        IsNode (lo + 2 ^ k) i (ceil_log2 (i - (lo + 2 ^ k))) × (ceil_log2 (i - (lo + 2 ^ k)) ≤ k)
    below = right-IsNode lo i k h node

pub contains_at :
    (lo i j k : ℕ)
    → i < 2 ^ 64
    → j ≤ 64
    → IsNode lo i j
    → contains i j k ≡ (leb (lo + 1) k && leb k i)
contains_at lo i j k h hj node = contains_lem lo i j k h hj (IsNode-IsAligned lo i j node)

-- An index is in a node exactly when it is in one of the subnodes.
pub contains_split :
    (lo i k t : ℕ) (left right : NodeIndex)
    → i < 2 ^ 64
    → Splits lo i k left right
    → contains left.0 left.1 t ≡ false
    → contains right.0 right.1 t ≡ false
    → contains i (suc k) t ≡ false
contains_split lo i k t left right h s out_left out_right =
    let low = s.low in
    let at_left : contains left.0 left.1 t ≡ (leb (lo + 1) t && leb t (lo + 2 ^ k)) =
      ap (λ (p : NodeIndex). contains p.0 p.1 t) s.left_is
      ∙ contains_at lo (lo + 2 ^ k) k t (omega (arith, s.node.1)) (omega arith) s.left_node in
    let at_right : contains right.0 right.1 t ≡ (leb (lo + 2 ^ k + 1) t && leb t i) =
      ap (λ (m : ℕ). contains m right.1 t) s.right_index
      ∙ contains_at (lo + 2 ^ k) i right.1 t h (omega (arith, s.right_low)) s.right_node in
    let at_node = contains_at lo i (suc k) t h (omega arith) s.node in
    let pos = two_pow_pos k in
    ground (arith, sym at_left ∙ out_left, sym at_right ∙ out_right, at_node, s.node.1)

-- The subnodes have no index in common.
pub contains_apart :
    (lo i k t : ℕ) (left right : NodeIndex)
    → i < 2 ^ 64
    → Splits lo i k left right
    → contains left.0 left.1 t ≡ true
    → contains right.0 right.1 t ≡ false
contains_apart lo i k t left right h s inside =
    let at_left : contains left.0 left.1 t ≡ (leb (lo + 1) t && leb t (lo + 2 ^ k)) =
      ap (λ (p : NodeIndex). contains p.0 p.1 t) s.left_is
      ∙ contains_at lo (lo + 2 ^ k) k t (omega (arith, s.node.1)) (omega arith) s.left_node in
    let at_right : contains right.0 right.1 t ≡ (leb (lo + 2 ^ k + 1) t && leb t i) =
      ap (λ (m : ℕ). contains m right.1 t) s.right_index
      ∙ contains_at (lo + 2 ^ k) i right.1 t h (omega (arith, s.right_low)) s.right_node in
    at_right ∙ ground (arith, sym at_left ∙ inside)

module _ ⦃H : Hasher⦄ (log : Log) where
  -- The node of an entry `m` whose left subnode has an earlier index `t`.
  pub record Turns (m t : ℕ) (x : INode) : Type 0 where
    pub has : contains x.left.i x.left.j t ≡ true
    pub stored_at : x.left.position ≡ log.position x.left.i
    pub reaches : t ≤ x.left.i
    pub earlier : x.left.i < m

  -- A linked node and how it splits.
  pub record Joined (m j : ℕ) (x : INode) : Type 0 where
    pub lo : ℕ
    pub k : ℕ
    pub height : x.meta.address.j ≡ suc k
    pub splits : Splits lo m k (x.left.i, x.left.j) (m, j)
    pub subnodes : subnodes_of m x.meta.address.j ≡ ((x.left.i, x.left.j), (m, j))

  pub joined :
      (m j top : ℕ) (x : INode) (xs : List INode)
      → m < 2 ^ 64
      → Linked log m j top (x ∷ xs)
      → Joined m j x
  joined m j top x xs h links = record {
    lo = links.4.0;
    k = x.meta.address.j - 1;
    height = e;
    subnodes = links.3;
    splits =
        split_node links.4.0 m (x.meta.address.j - 1) (x.left.i, x.left.j) (m, j) h
          (subst (IsNode links.4.0 m) e links.4.1) (sym (ap (subnodes_of m) e) ∙ links.3);
  }
    where
      e : x.meta.address.j ≡ suc (x.meta.address.j - 1)
      e = omega (arith, links.1)

  left-Turns :
      (m j t : ℕ) (x : INode)
      → m < 2 ^ 64
      → (x.left.position ≡ log.position x.left.i)
      → Joined m j x
      → contains x.left.i x.left.j t ≡ true
      → Turns m t x
  left-Turns m j t x h stored_at y c = record {
    has = c;
    stored_at = stored_at;
    reaches = ground (arith, test, left_i);
    earlier = omega (arith, left_i, y.splits.node.1);
  }
    where
      left_i : x.left.i ≡ y.lo + 2 ^ y.k
      left_i = ap (λ (p : NodeIndex). p.0) y.splits.left_is

      low : y.k < 64
      low = y.splits.low

      test : (leb (y.lo + 1) t && leb t (y.lo + 2 ^ y.k)) ≡ true
      test =
          sym (
            ap (λ (p : NodeIndex). contains p.0 p.1 t) y.splits.left_is
            ∙ contains_at y.lo (y.lo + 2 ^ y.k) y.k t (omega (arith, y.splits.node.1)) (omega arith)
                y.splits.left_node)
          ∙ c

  find_left_here :
      (t : ℕ) (x : INode) (xs : List INode)
      → contains x.left.i x.left.j t ≡ true
      → find_left t (x ∷ xs) ≡ some x
  unfolding find_left
  find_left_here t x xs c = rw c refl

  pub find_left_later :
      (t : ℕ) (x : INode) (xs : List INode)
      → contains x.left.i x.left.j t ≡ false
      → find_left t (x ∷ xs) ≡ find_left t xs
  unfolding find_left
  find_left_later t x xs c = rw c refl

  find_left-Linked :
      (m j top t : ℕ) (xs : List INode)
      → m < 2 ^ 64
      → Linked log m j top xs
      → contains m j t ≡ false
      → contains m top t ≡ true
      → (x : INode) × (find_left t xs ≡ some x) × Turns m t x
  find_left-Linked m j top t [] h links out inside =
      absurd (true≢false (sym inside ∙ ap (λ (k : ℕ). contains m k t) (sym links) ∙ out))
  find_left-Linked m j top t (x ∷ xs) h links out inside =
      let y = joined m j top x xs h links in
      elim (Bool-cases (contains x.left.i x.left.j t)) [
        | inl c ↦ (x, find_left_here t x xs c, left-Turns m j t x h links.2 y c)
        | inr c ↦
            let beyond : contains m x.meta.address.j t ≡ false =
              ap (λ (k : ℕ). contains m k t) y.height
              ∙ contains_split y.lo m y.k t (x.left.i, x.left.j) (m, j) h y.splits c out in
            let (z, found, turns) =
              find_left-Linked m x.meta.address.j top t xs h links.6 beyond inside in
            (z, find_left_later t x xs c ∙ found, turns)
      ]

  -- Every earlier index is below the left subnode of a node of the entry.
  pub find_left-IsEntry :
      (m t : ℕ) (e : Entry)
      → m < 2 ^ 64
      → IsEntry log m e
      → 0 < t
      → t < m
      → (x : INode) × (find_left t e.inodes ≡ some x) × Turns m t x
  unfolding root_of
  find_left-IsEntry m t e h entry pos lt =
      find_left-Linked m 0 (root_of m).1 t e.inodes h entry.links at_leaf at_root
    where
      at_leaf : contains m 0 t ≡ false
      at_leaf = contains_at (m - 1) m 0 t h (omega arith) (omega arith) ∙ ground arith

      at_root : contains m (ceil_log2 m) t ≡ true
      at_root =
          contains_at 0 m (ceil_log2 m) t h (ceil_log2_upper m (omega arith) h).1
            (root_of-IsNode m (omega arith) h)
          ∙ ground arith

module _ (S : Storage) ⦃H : Hasher⦄ (log : Log) where
  -- The query is on generation `n` of the log: its cache is current, and its reader reads every
  -- entry.
  pub record Serves (n : ℕ) (q : Query S) : Type 0 where
    pub current : IsCurrent log n q.cache
    pub reads :
        (i : ℕ)
        → 0 < i
        → i ≤ n
        → (e : Entry) × (S.read q.cursor (log.position i) ≡ ok e) × IsEntry log i e

  cached_holder :
      (q : Query S) (a : Address) (e : Entry) → entry q.cache a.i ≡ some e → holder S q a ≡ ok e
  unfolding holder
  cached_holder q a e found = rw (holder, found) refl

  read_holder :
      (q : Query S) (a : Address) (e : Entry)
      → entry q.cache a.i ≡ none
      → S.read q.cursor a.position ≡ ok e
      → e.enode.meta.address.i ≡ a.i
      → holder S q a ≡ ok e
  unfolding holder read_entry_with_index_check
  read_holder q a e missing found index =
      let same : (e.enode.meta.address.i == a.i) ≡ true = (==_iff _ _).1 index in
      rw (holder, missing, found, same) refl

  -- An address with the position of its entry leads to that entry.
  pub holder_lem :
      (n : ℕ) (q : Query S) (a : Address)
      → Serves n q
      → a.position ≡ log.position a.i
      → 0 < a.i
      → a.i ≤ n
      → (e : Entry) × (holder S q a ≡ ok e) × IsEntry log a.i e
  unfolding entry
  holder_lem n q a serves at pos le = elim (Option-cases (entry q.cache a.i)) [
    | inr (e, found) ↦ (e, cached_holder q a e found, serves.current.cached a.i e found)
    | inl missing ↦
        let (e, found, is_entry) = serves.reads a.i pos le in
        (
          e,
          read_holder q a e missing (ap (S.read q.cursor) at ∙ found) is_entry.leaf.index,
          is_entry,
        )
  ]
