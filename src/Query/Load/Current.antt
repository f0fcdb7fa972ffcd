-- ===== src/Query/Load/Current.antt =====
-- `Cache::load` from the last entry gives the current cache.
use mathlib.Core.List.{reverse, reverse_aux}
use mathlib.Core.Path.{subst}
use native.Mathlib.Decide.{dec_lt}
use stratified_hash_tree.Prelude.{
  ℕ, ◌+◌, ◌%◌, ◌^◌, ◌≤◌, ◌<◌, ◌≡◌, ◌≢◌, refl, sym, ap, ◌∙◌, inl, inr, ◌==◌, ==_iff, Bool-cases,
  true, none, some, List, [], ◌∷◌, All, map, arith, ok, ◌>>=◌,
}
use stratified_hash_tree.Prelude.Words.{two_pow_pos}
use stratified_hash_tree.Prelude.Map.{Map, lookup, insert, lookup-insert}
use stratified_hash_tree.Formula.Tree.{NodeIndex, is_pbst, root_of}
use stratified_hash_tree.Formula.Arith.{ceil_log2}
use stratified_hash_tree.Formula.Arith.Logs.{ceil_log2_upper}
use stratified_hash_tree.Formula.Tree.Nodes.{multiple-add}
use stratified_hash_tree.Formula.Tree.Subnodes.{root_of-IsNode}
use stratified_hash_tree.Formula.Roots.Tiling.{Tiles, pbst_roots-Tiles}
use stratified_hash_tree.Formula.Roots.Spine.{Tiles-bounds}
use stratified_hash_tree.Formula.Model.{new}
use stratified_hash_tree.Formula.Model.Lefts.{Tiles-unique}
use stratified_hash_tree.Hashing.{Hasher}
use stratified_hash_tree.Entry.{Address, MetaInfo, INode, Entry}
use stratified_hash_tree.Cache.{Cache, revision, last_entry}
use stratified_hash_tree.Storage.{Storage}
use stratified_hash_tree.Slate.Spec.{Log, Linked, IsEntry, Knows, IsCurrent}
use stratified_hash_tree.Query.Descent.{joined}
use stratified_hash_tree.Query.Places.{under_root}
use stratified_hash_tree.Query.Load.{
  pbst_root_addrs, left_addrs, load_with_level, load_each, collect_metas, load,
}
use stratified_hash_tree.Query.Load.Tiled.{
  addr_of, reverse-Hangs, addrs-Tiles, addrs_perfect, addrs_joining, addrs_leaf,
}
use stratified_hash_tree.Query.Load.Loaded.{
  Present, insert-Present_here, insert-AreOwn, Reads, load_each-Loaded, meta-Describes, Known,
  Rising, Rooted, collect-Collected,
}

All-reverse :
    (P : INode → Type 0) (xs done : List INode)
    → All P xs
    → All P done
    → All P (reverse_aux xs done)
All-reverse P [] done all rest = rest
All-reverse P (x ∷ xs) done all rest = All-reverse P xs (x ∷ done) all.1 (all.0, rest)

-- Where a tiling begins, all of its trees end later.
Tiles-later :
    (p k lo n : ℕ) (addrs : List Address)
    → p ≤ lo
    → Tiles k lo n (map addr_of addrs)
    → All (λ b. p < b.i) addrs
Tiles-later p k lo n [] le t = tt
Tiles-later p k lo n (a ∷ rest) le t =
    (omega (arith, t.2, two_pow_pos a.j), Tiles-later p a.j a.i n rest (omega (arith, t.2)) t.3)

Tiles-within :
    (k lo n : ℕ) (addrs : List Address)
    → Tiles k lo n (map addr_of addrs)
    → (i : ℕ) → n < i
    → All (λ b. b.i ≢ i) addrs
Tiles-within k lo n [] t i lt = tt
Tiles-within k lo n (a ∷ rest) t i lt = (
  (λ e. omega (arith, Tiles-bounds a.j a.i n (map addr_of rest) t.3, e)),
  Tiles-within a.j a.i n rest t.3 i lt,
)

module _ ⦃H : Hasher⦄ (log : Log) where
  Tiles-Rising :
      (k lo n : ℕ) (addrs : List Address) → Tiles k lo n (map addr_of addrs) → Rising log addrs
  Tiles-Rising k lo n [] t = tt
  Tiles-Rising k lo n (a ∷ rest) t =
      (Tiles-later a.i a.j a.i n rest (omega arith) t.3, Tiles-Rising a.j a.i n rest t.3)

  -- The trees of a tiling are found in the entries of their indices.
  Tiles-Known :
      (entries : Map Entry) (k lo n : ℕ) (addrs : List Address)
      → n < 2 ^ 64
      → ((i : ℕ) (e : Entry) → lookup i entries ≡ some e → IsEntry log i e)
      → Tiles k lo n (map addr_of addrs)
      → All (λ a. Present entries a.i) addrs
      → All (Known log entries) addrs
  unfolding root_of
  Tiles-Known entries k lo n [] room own t there = tt
  Tiles-Known entries k lo n (a ∷ rest) room own t there =
      let (e, found) = there.0 in
      let bound = Tiles-bounds a.j a.i n (map addr_of rest) t.3 in
      let multiple : a.i % 2 ^ a.j ≡ 0 = rw t.2 (multiple-add lo a.j t.1) in
      let high : a.j ≤ (root_of a.i).1 =
        under_root a.i a.j (omega (arith, t.2, two_pow_pos a.j)) (omega arith)
          (omega (arith, t.2)) in
      let (m, has, describes) =
        meta-Describes log a.i a.j e (omega arith) (own a.i e found) multiple high in
      ((e, m, found, has, describes), Tiles-Known entries a.j a.i n rest room own t.3 there.1)

  -- The entries of the addresses are the last one or those of left subnodes.
  addrs-Present :
      (entries : Map Entry) (leaf : Address) (ys : List INode)
      → Present entries leaf.i
      → All (λ y. Present entries y.left.i × Present entries y.meta.address.i) ys
      → All (λ a. Present entries a.i) (pbst_root_addrs leaf ys)
  addrs-Present entries leaf [] last all = rw (addrs_leaf log leaf) (last, tt)
  addrs-Present entries leaf (y ∷ ys) last all =
      elim (Bool-cases (is_pbst y.meta.address.i y.meta.address.j)) [
        | inl perfect ↦ rw (addrs_perfect log leaf y ys perfect) (all.0.1, tt)
        | inr joining ↦
            rw (addrs_joining log leaf y ys joining)
              (all.0.0, addrs-Present entries leaf ys last all.1)
      ]

  Linked-Present :
      (entries : Map Entry) (n j top : ℕ) (xs : List INode)
      → Linked log n j top xs
      → Present entries n
      → All (λ a. Present entries a.i) (left_addrs xs)
      → All (λ y. Present entries y.left.i × Present entries y.meta.address.i) xs
  Linked-Present entries n j top [] links last there = tt
  Linked-Present entries n j top (x ∷ xs) links last there = (
    (there.0, subst (Present entries) (sym links.0.index) last),
    Linked-Present entries n x.meta.address.j top xs links.6 last there.1,
  )

  Rooted-Knows :
      (c : Cache) (addrs : List Address)
      → All (Rooted log c.pbst_roots) addrs
      → All (Knows log c) (map addr_of addrs)
  Rooted-Knows c [] all = tt
  Rooted-Knows c (a ∷ rest) all = (all.0, Rooted-Knows c rest all.1)

module _ (S : Storage) ⦃H : Hasher⦄ (log : Log) (n : ℕ) (room : n < 2 ^ 64) (pos : 0 < n)
    (r : S.Reader)
    (reads : (i : ℕ)
      → 0 < i
      → i ≤ n
      → (e : Entry) × (S.read r (log.position i) ≡ ok e) × IsEntry log i e) where
  Linked-Reads :
      (j top : ℕ) (xs : List INode) → Linked log n j top xs → All (Reads S log r) (left_addrs xs)
  Linked-Reads j top [] links = tt
  Linked-Reads j top (x ∷ xs) links =
      let y = joined log n j top x xs room links in
      let left_i : x.left.i ≡ y.lo + 2 ^ y.k = ap (λ (p : NodeIndex). p.0) y.splits.left_is in
      let (e, found, entry) =
        reads x.left.i (omega (arith, left_i, two_pow_pos y.k))
          (omega (arith, left_i, y.splits.node.1)) in
      ((e, ap (S.read r) links.2 ∙ found, entry), Linked-Reads x.meta.address.j top xs links.6)

  load_step :
      (st : S.State) (e : Entry) (entries : Map Entry) (roots : Map MetaInfo)
      → S.reader st ≡ ok r
      → load_each S r (λ below c. ok c) (left_addrs e.inodes) (insert e.enode.meta.address.i e [])
        ≡ ok entries
      → collect_metas entries (pbst_root_addrs e.enode.meta.address (reverse e.inodes)) []
        ≡ ok roots
      → load S st 0 e
        ≡ ok (record {
          level = 0;
          model = some (new e.enode.meta.address.i);
          cache = insert e.enode.meta.address.i e [];
          pbst_roots = roots;
        })
  unfolding load load_with_level
  load_step st e entries roots opens loads collects =
      rw (load, opens, load_with_level, loads, ◌>>=◌, collects) refl

  -- The cache that `load` makes, before it is known to be current.
  record Makes (st : S.State) (e : Entry) : Type 0 where
    roots : Map MetaInfo
    loads :
        load S st 0 e
        ≡ ok (record {
          level = 0;
          model = some (new e.enode.meta.address.i);
          cache = insert e.enode.meta.address.i e [];
          pbst_roots = roots;
        })
    tiles : List Address
    tile : Tiles 64 0 n (map addr_of tiles)
    rooted : All (Rooted log roots) tiles
    within : (i : ℕ) → n < i → lookup i roots ≡ none

  makes : (st : S.State) (e : Entry) → S.reader st ≡ ok r → IsEntry log n e → Makes st e
  unfolding root_of lookup
  makes st e opens entry =
      let leaf = e.enode.meta.address in
      let own = insert leaf.i e [] in
      let is_own : IsEntry log leaf.i e =
        subst (λ (i : ℕ). IsEntry log i e) (sym entry.leaf.index) entry in
      let top_low = (ceil_log2_upper n pos room).1 in
      let tiles = pbst_root_addrs leaf (reverse e.inodes) in
      let tile : Tiles 64 0 n (map addr_of tiles) =
        addrs-Tiles log leaf 64 0 n (ceil_log2 n) (reverse e.inodes) room entry.leaf.index
          entry.leaf.height top_low top_low
          (elim (dec_lt (ceil_log2 n) 64) [
            | yes lt ↦ inl lt
            | no ge ↦ inr (let top : ceil_log2 n ≡ 64 = omega arith in rw top room)
          ])
          (root_of-IsNode n pos room)
          (reverse-Hangs log n 0 (ceil_log2 n) 0 e.inodes [] room entry.links refl) in
      let loaded =
        load_each-Loaded S log r (left_addrs e.inodes) own
          (Linked-Reads 0 (ceil_log2 n) e.inodes entry.links)
          (insert-AreOwn S log leaf.i e [] is_own
            (λ i x found. absurd (let none_some : none ≡ some x = found in cc))) in
      let last : Present loaded.entries leaf.i =
        loaded.keeps leaf.i (insert-Present_here leaf.i e []) in
      let all =
        Linked-Present log loaded.entries n 0 (ceil_log2 n) e.inodes entry.links
          (subst (Present loaded.entries) entry.leaf.index last) loaded.there in
      let known = Tiles-Known log loaded.entries 64 0 n tiles room loaded.own tile (
        addrs-Present log loaded.entries leaf (reverse e.inodes) last
          (All-reverse _ e.inodes [] all tt)) in
      let collected = collect-Collected log loaded.entries tiles [] known in
      record {
        roots = collected.roots;
        loads = load_step st e loaded.entries collected.roots opens loaded.loads collected.collects;
        tiles = tiles;
        tile = tile;
        rooted = collected.rooted (Tiles-Rising log 64 0 n tiles tile);
        within = λ i lt. collected.keeps i (Tiles-within 64 0 n tiles tile i lt);
      }

  -- From the entry of generation `n`, from 1 on and below 2 ^ 64, and a storage that opens to a
  -- reader of all entries up to it, `Cache::load` at level 0 returns a cache that is current at
  -- generation `n`.
  pub load-IsCurrent :
      (st : S.State) (e : Entry)
      → S.reader st ≡ ok r
      → IsEntry log n e
      → (c : Cache) × (load S st 0 e ≡ ok c) × IsCurrent log n c
  unfolding revision last_entry new lookup
  load-IsCurrent st e opens entry =
      let m = makes st e opens entry in
      let leaf = e.enode.meta.address in
      let same : (leaf.i == leaf.i) ≡ true = (==_iff leaf.i leaf.i).1 refl in
      let is_own : IsEntry log leaf.i e =
        subst (λ (i : ℕ). IsEntry log i e) (sym entry.leaf.index) entry in
      let c : Cache = record {
        level = 0;
        model = some (new leaf.i);
        cache = insert leaf.i e [];
        pbst_roots = m.roots;
      } in
      (
        c,
        m.loads,
        record {
          at_level = refl;
          at_revision = entry.leaf.index;
          knows =
              subst (All (Knows log c))
                (Tiles-unique 64 64 0 n _ _ m.tile (pbst_roots-Tiles n room))
                (Rooted-Knows log c m.tiles m.rooted);
          nothing_later = m.within;
          no_entry = λ z. absurd (omega arith);
          has_last = λ p. (e, lookup-insert leaf.i leaf.i e [] ∙ rw same refl, entry);
          cached =
              insert-AreOwn S log leaf.i e [] is_own
                (λ i x found. absurd (let none_some : none ≡ some x = found in cc));
        },
      )
