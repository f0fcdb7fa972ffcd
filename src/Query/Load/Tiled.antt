-- ===== src/Query/Load/Tiled.antt =====
-- The addresses that `Cache::load` gathers from the nodes of the last entry are the perfect trees
-- of its generation.
use mathlib.Core.Bool.{true≢false}
use native.Mathlib.Decide.{dec_lt}
use native.Mathlib.Nat.{pow-suc}
use mathlib.Core.Path.{subst}
use mathlib.Core.List.{reverse_aux}
use stratified_hash_tree.Prelude.{
  ap₂, ℕ, suc, ◌+◌, ◌%◌, ◌^◌, ◌≤◌, ◌<◌, ◌≡◌, refl, sym, ap, ◌∙◌, ◌⊎◌, inl, inr, ◌==◌, ==_iff,
  Bool-cases, true, false, List, [], ◌∷◌, map, arith,
}
use stratified_hash_tree.Formula.Tree.{Addr, NodeIndex, is_pbst}
use stratified_hash_tree.Formula.Tree.Nodes.{IsNode, IsNode-IsAligned, multiple_of_le, multiple-add}
use stratified_hash_tree.Formula.Tree.Valid.{is_pbst_lem, whole_block}
use stratified_hash_tree.Formula.Model.{addr}
use stratified_hash_tree.Formula.Roots.Tiling.{Tiles}
use stratified_hash_tree.Hashing.{Hasher}
use stratified_hash_tree.Entry.{Address, INode}
use stratified_hash_tree.Slate.Spec.{Log, Linked}
use stratified_hash_tree.Query.Load.{pbst_root_addrs}
use stratified_hash_tree.Query.Places.{multiple_gap}
use stratified_hash_tree.Query.Descent.{Joined, joined}

abbrev pub addr_of : Address → Addr
addr_of a = addr a.i a.j

module _ ⦃H : Hasher⦄ (log : Log) where
  -- The nodes of an entry from the height `top` down to that at the end.
  abbrev pub Hangs : ℕ → ℕ → ℕ → List INode → Type 0
  Hangs n top j [] = top ≡ j
  Hangs n top j (y ∷ ys) =
      (y.meta.address.i ≡ n)
      × (y.meta.address.j ≡ top)
      × ((below : ℕ) × Joined log n below y × Hangs n below j ys)

  pub reverse-Hangs :
      (n j top low : ℕ) (xs done : List INode)
      → n < 2 ^ 64
      → Linked log n j top xs
      → Hangs n j low done
      → Hangs n top low (reverse_aux xs done)
  reverse-Hangs n j top low [] done room links hangs =
      subst (λ (t : ℕ). Hangs n t low done) links hangs
  reverse-Hangs n j top low (x ∷ xs) done room links hangs =
      reverse-Hangs n x.meta.address.j top low xs (x ∷ done) room links.6
        (links.0.index, refl, (j, joined log n j top x xs room links, hangs))

  -- The walk down the nodes stops at the first perfect tree.
  pub addrs_perfect :
      (leaf : Address) (y : INode) (ys : List INode)
      → is_pbst y.meta.address.i y.meta.address.j ≡ true
      → pbst_root_addrs leaf (y ∷ ys) ≡ y.meta.address ∷ []
  unfolding pbst_root_addrs
  addrs_perfect leaf y ys e = rw (pbst_root_addrs, e) refl

  pub addrs_joining :
      (leaf : Address) (y : INode) (ys : List INode)
      → is_pbst y.meta.address.i y.meta.address.j ≡ false
      → pbst_root_addrs leaf (y ∷ ys) ≡ y.left ∷ pbst_root_addrs leaf ys
  unfolding pbst_root_addrs
  addrs_joining leaf y ys e = rw (pbst_root_addrs, e) refl

  pub addrs_leaf : (leaf : Address) → pbst_root_addrs leaf [] ≡ leaf ∷ []
  unfolding pbst_root_addrs
  addrs_leaf leaf = refl

  -- One tree at the end of the leaves.
  tile_last :
      (k lo n j : ℕ) (a : Address)
      → a.i ≡ n
      → a.j ≡ j
      → j < k
      → lo % 2 ^ j ≡ 0
      → n ≡ lo + 2 ^ j
      → Tiles k lo n (map addr_of (a ∷ []))
  tile_last k lo n j a ei ej low multiple whole =
      (omega (arith, ej), rw ej multiple, rw ej (ei ∙ whole), ei)

  -- A node that is not perfect ends before its block does.
  joining_short :
      (lo n j : ℕ) → n < 2 ^ 64 → j ≤ 64 → IsNode lo n j → is_pbst n j ≡ false → n < lo + 2 ^ j
  joining_short lo n j room low node other =
      let aligned = IsNode-IsAligned lo n j node in
      let not_multiple : (n % 2 ^ j == 0) ≡ false = sym (is_pbst_lem n j room low) ∙ other in
      elim (Bool-cases (n == lo + 2 ^ j)) [
        | inr short ↦ ground (arith, aligned.fits)
        | inl whole ↦ absurd (
            true≢false (
              sym (
                (==_iff _ _).1 (
                  ap (λ (m : ℕ). m % 2 ^ j) ((==_iff _ _).0 whole)
                  ∙ multiple-add lo j aligned.multiple))
              ∙ not_multiple))
      ]

  -- The left subnode of a node that is not perfect is a tile, and what follows it.
  record JoiningTile (k lo n top below : ℕ) (y : INode) : Type 0 where
    height : top ≡ suc y.left.j
    lower : y.left.j < k
    multiple : lo % 2 ^ y.left.j ≡ 0
    next : y.left.i ≡ lo + 2 ^ y.left.j
    below_le : below ≤ y.left.j
    short : (below < y.left.j) ⊎ (n < y.left.i + 2 ^ below)
    right_node : IsNode y.left.i n below

  same_block : (lo lo' n j : ℕ) → IsNode lo n j → IsNode lo' n j → lo ≡ lo'
  same_block lo lo' n j node node' =
      let a = IsNode-IsAligned lo n j node in
      let b = IsNode-IsAligned lo' n j node' in
      elim (dec_lt lo lo') [
        | yes lt ↦
            absurd
              (omega (arith, multiple_gap lo lo' j a.multiple b.multiple lt, a.fits, b.some_leaf))
        | no ge ↦ elim (dec_lt lo' lo) [
          | yes lt ↦
              absurd
                (omega (arith, multiple_gap lo' lo j b.multiple a.multiple lt, b.fits, a.some_leaf))
          | no le ↦ omega arith
        ]
      ]

  joining_tile :
      (k lo n top below : ℕ) (y : INode)
      → n < 2 ^ 64
      → top ≤ 64
      → top ≤ k
      → y.meta.address.j ≡ top
      → IsNode lo n top
      → n < lo + 2 ^ top
      → Joined log n below y
      → JoiningTile k lo n top below y
  joining_tile k lo n top below y room low le at node low_end z =
      let left_i : y.left.i ≡ z.lo + 2 ^ z.k = ap (λ (p : NodeIndex). p.0) z.splits.left_is in
      let left_j : y.left.j ≡ z.k = ap (λ (p : NodeIndex). p.1) z.splits.left_is in
      let height : top ≡ suc z.k = sym at ∙ z.height in
      let block : lo ≡ z.lo =
        same_block lo z.lo n (suc z.k) (subst (IsNode lo n) height node) z.splits.node in
      let double : 2 ^ top ≡ 2 ^ z.k + 2 ^ z.k =
        ap (λ (t : ℕ). 2 ^ t) height ∙ (omega (arith, pow-suc 2 z.k)) in
      record {
        height = omega (arith, height, left_j);
        lower = omega (arith, height, left_j, le);
        multiple =
            rw (left_j, block) (multiple_of_le z.lo z.k (suc z.k) (omega arith) z.splits.node.0);
        next = rw (left_j, block) left_i;
        below_le = omega (arith, z.splits.right_low, left_j);
        short = (elim (dec_lt below z.k) [
          | yes lt ↦ inl (omega (arith, left_j))
          | no ge ↦ inr (
              let same : 2 ^ below ≡ 2 ^ z.k =
                ap (λ (t : ℕ). 2 ^ t) (omega (arith, z.splits.right_low)) in
              omega (arith, left_i, block, low_end, double, same))
        ]);
        right_node = rw left_i z.splits.right_node;
      }

  pub addrs-Tiles :
      (leaf : Address) (k lo n top : ℕ) (ys : List INode)
      → n < 2 ^ 64
      → leaf.i ≡ n
      → leaf.j ≡ 0
      → top ≤ 64
      → top ≤ k
      → (top < k) ⊎ (n < lo + 2 ^ top)
      → IsNode lo n top
      → Hangs n top 0 ys
      → Tiles k lo n (map addr_of (pbst_root_addrs leaf ys))
  addrs-Tiles leaf k lo n top [] room ei ej low le short node hangs =
      let one : n ≡ lo + 1 = subst (IsNode lo n) hangs node in
      let below : 0 < k = (elim short [
        | inl lt ↦ omega arith
        | inr lt ↦ absurd (let p : 2 ^ top ≡ 1 = rw hangs refl in omega arith)
      ]) in
      rw (addrs_leaf leaf) (tile_last k lo n 0 leaf ei ej below (omega arith) one)
  addrs-Tiles leaf k lo n top (y ∷ ys) room ei ej low le short node hangs =
      let pbst_at : is_pbst y.meta.address.i y.meta.address.j ≡ is_pbst n top =
        ap₂ is_pbst hangs.0 hangs.1 in
      let aligned = IsNode-IsAligned lo n top node in
      elim (Bool-cases (is_pbst n top)) [
        | inl perfect ↦
            let whole : n ≡ lo + 2 ^ top =
              whole_block lo n top aligned
                ((==_iff _ _).0 (sym (is_pbst_lem n top room low) ∙ perfect)) in
            let below : top < k = (elim short [ inl lt ↦ lt | inr lt ↦ absurd (omega arith) ]) in
            rw (addrs_perfect leaf y ys (pbst_at ∙ perfect))
              (tile_last k lo n top y.meta.address hangs.0 hangs.1 below aligned.multiple whole)
        | inr joining ↦
            let low_end = joining_short lo n top room low node joining in
            let (below, z, rest) = hangs.2 in
            let t = joining_tile k lo n top below y room low le hangs.1 node low_end z in
            rw (addrs_joining leaf y ys (pbst_at ∙ joining)) (
              t.lower,
              t.multiple,
              t.next,
              addrs-Tiles leaf y.left.j y.left.i n below ys room ei ej
                  (omega (arith, t.below_le, t.lower, le, low, t.height)) t.below_le t.short
                  t.right_node rest,
            )
      ]
