-- ===== src/Slate/Roots.antt =====
-- The cache of the next generation collects the root of each of its perfect trees.
use stratified_hash_tree.Prelude.{
  ℕ, suc, ◌+◌, ◌^◌, ◌≤◌, ◌<◌, ◌≡◌, refl, sym, ap, ◌∙◌, none, some, List, [], ◌∷◌, All, arith, ok,
  ◌⊎◌, inl, inr, ◌==◌, ==_iff, Bool-cases, true, false,
}
use Prim.Native.Nat.{pred}
use mathlib.Core.Path.{subst}
use native.Mathlib.Nat.{le_refl}
use stratified_hash_tree.Prelude.Map.{Map, lookup, insert, lookup-insert}
use stratified_hash_tree.Prelude.Words.{two_pow_pos}
use stratified_hash_tree.Formula.Tree.{Addr}
use stratified_hash_tree.Formula.Roots.Tiling.{Tiles}
use stratified_hash_tree.Formula.Roots.Spine.{Tiles-bounds}
use stratified_hash_tree.Formula.Model.{inodes, new}
use stratified_hash_tree.Hashing.{Hasher}
use stratified_hash_tree.Entry.{MetaInfo, INode, Entry, inode, find_inode}
use stratified_hash_tree.Cache.{Cache, root_meta, collect_roots}
use stratified_hash_tree.Slate.Spec.{Log, Describes, IsEntry, Knows}
use stratified_hash_tree.Slate.Build.{Has}
use stratified_hash_tree.Slate.Carry.{Carried}

module _ ⦃H : Hasher⦄ (log : Log) where
  -- The entry of generation `n`, in which every node that the model adds is found.
  pub record NewEntry (n : ℕ) (e : Entry) : Type 0 where
    pub is_entry : IsEntry log n e
    pub finds :
        (h : ℕ)
        → Has h (inodes (new n))
        → (x : INode) × (find_inode h e.inodes ≡ some x) × Describes log n h x.meta

  -- `root_meta` succeeds on a tree.
  abbrev pub Resolves : Cache → Entry → Addr → Type 0
  Resolves c e a = (m : MetaInfo) × (root_meta c e a ≡ ok m) × Describes log a.i a.j m

  abbrev HasRoot : ℕ → Addr → Type 0
  HasRoot n a = a.i ≡ n → (h : ℕ) → a.j ≡ suc h → Has a.j (inodes (new n))

  module _ (n : ℕ) (c : Cache) (e : Entry) (entry : NewEntry n e)
      (absent : lookup n c.pbst_roots ≡ none) where
    old_root : (a : Addr) → Knows log c a → Resolves c e a
    unfolding root_meta
    old_root a (m, found, d) = (m, rw (found, root_meta) refl, d)

    new_leaf_root : (a : Addr) → a.i ≡ n → a.j ≡ 0 → Resolves c e a
    unfolding root_meta
    new_leaf_root a ei ej =
        let absent' : lookup a.i c.pbst_roots ≡ none =
          ap (λ (k : ℕ). lookup k c.pbst_roots) ei ∙ absent in
        let here : (a.i == e.enode.meta.address.i) ≡ true =
          (==_iff _ _).1 (ei ∙ sym entry.is_entry.leaf.index) in
        let leaf : (a.j == 0) ≡ true = (==_iff _ _).1 ej in
        (
          e.enode.meta,
          rw (root_meta, absent', here, leaf) refl,
          subst (λ (t : ℕ). Describes log t a.j e.enode.meta) (sym ei)
              (subst (λ (t : ℕ). Describes log n t e.enode.meta) (sym ej) entry.is_entry.leaf),
        )

    new_tree_root :
        (a : Addr) (h : ℕ) → a.i ≡ n → a.j ≡ suc h → Has a.j (inodes (new n)) → Resolves c e a
    unfolding root_meta inode
    new_tree_root a h ei ej has =
        let absent' : lookup a.i c.pbst_roots ≡ none =
          ap (λ (k : ℕ). lookup k c.pbst_roots) ei ∙ absent in
        let here : (a.i == e.enode.meta.address.i) ≡ true =
          (==_iff _ _).1 (ei ∙ sym entry.is_entry.leaf.index) in
        let tree : (a.j == 0) ≡ false = ground arith in
        let (x, found, d) = entry.finds a.j has in
        (
          x.meta,
          rw (root_meta, absent', here, tree, found) refl,
          subst (λ (t : ℕ). Describes log t a.j x.meta) (sym ei) d,
        )

    resolves : (a : Addr) → Carried (Knows log c) n a → HasRoot n a → Resolves c e a
    resolves a (inr (lt, known)) has = old_root a known
    resolves a (inl ei) has = elim (Bool-cases (a.j == 0)) [
      | inl z ↦ new_leaf_root a ei ((==_iff a.j 0).0 z)
      | inr nz ↦
          let ej : a.j ≡ suc (pred a.j) = ground arith in
          new_tree_root a (pred a.j) ei ej (has ei (pred a.j) ej)
    ]

    pub All-Resolves :
        (xs : List Addr)
        → All (Carried (Knows log c) n) xs
        → All (HasRoot n) xs
        → All (Resolves c e) xs
    All-Resolves [] p q = tt
    All-Resolves (a ∷ xs) p q = (resolves a p.0 q.0, All-Resolves xs p.1 q.1)

  -- What the collection returns.
  pub record Collected (c : Cache) (e : Entry) (lo hi : ℕ) (xs : List Addr) (m : Map MetaInfo)
      : Type 0 where
    pub roots : Map MetaInfo
    pub collects : collect_roots c e xs m ≡ ok roots
    pub known : All (λ a. (r : MetaInfo) × (lookup a.i roots ≡ some r) × Describes log a.i a.j r) xs
    pub outside : (i : ℕ) → (i ≤ lo) ⊎ (hi < i) → lookup i roots ≡ lookup i m

  collect_cons :
      (c : Cache) (e : Entry) (a : Addr) (rest : List Addr) (m : Map MetaInfo) (meta : MetaInfo)
      (roots : Map MetaInfo)
      → root_meta c e a ≡ ok meta
      → collect_roots c e rest (insert a.i meta m) ≡ ok roots
      → collect_roots c e (a ∷ rest) m ≡ ok roots
  unfolding collect_roots
  collect_cons c e a rest m meta roots p q = rw (p, q) refl

  pub collect-Collected :
      (c : Cache) (e : Entry) (k lo hi : ℕ) (xs : List Addr) (m : Map MetaInfo)
      → Tiles k lo hi xs
      → All (Resolves c e) xs
      → Collected c e lo hi xs m
  collect-Collected c e k lo hi [] m t r = record {
    roots = m;
    collects = unfold collect_roots in refl;
    known = tt;
    outside = λ i o. refl;
  }
  collect-Collected c e k lo hi (a ∷ rest) m t r =
      let (meta, resolved, d) = r.0 in
      let later = collect-Collected c e a.j a.i hi rest (insert a.i meta m) t.3 r.1 in
      let here : lookup a.i later.roots ≡ some meta =
        later.outside a.i (inl (le_refl a.i))
        ∙ lookup-insert a.i a.i meta m
        ∙ rw ((==_iff a.i a.i).1 refl) refl in
      record {
        roots = later.roots;
        collects = collect_cons c e a rest m meta later.roots resolved later.collects;
        known = ((meta, here, d), later.known);
        outside =
            λ i o. later.outside i (wider i o) ∙ lookup-insert a.i i meta m ∙ rw (other i o) refl;
      }
    where
      bounds : (a.i ≤ hi) × (hi < a.i + 2 ^ a.j)
      bounds = Tiles-bounds a.j a.i hi rest t.3

      above : lo < a.i
      above = omega (arith, t.2, two_pow_pos a.j)

      wider : (i : ℕ) → (i ≤ lo) ⊎ (hi < i) → (i ≤ a.i) ⊎ (hi < i)
      wider i (inl h) = inl (omega (arith, above))
      wider i (inr h) = inr h

      other : (i : ℕ) → (i ≤ lo) ⊎ (hi < i) → (a.i == i) ≡ false
      other i (inl h) = ground (arith, above)
      other i (inr h) = ground (arith, bounds)
