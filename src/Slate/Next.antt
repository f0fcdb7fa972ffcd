-- ===== src/Slate/Next.antt =====
-- The entry of the next generation, and the cache that an append leaves.
use mathlib.Core.List.{reverse, reverse-append}
use mathlib.Core.Path.{subst}
use stratified_hash_tree.Prelude.{
  ℕ, zero, suc, ◌^◌, ◌<◌, ◌≡◌, refl, sym, ap, ◌∙◌, none, some, List, [], ◌∷◌, ◌++◌, map, All, arith,
  ok, inl, inr, ◌==◌, ==_iff, Bool-cases, if◌then◌else◌,
}
use stratified_hash_tree.Prelude.Map.{Map, lookup, insert, lookup-insert}
use stratified_hash_tree.Prelude.Words.{add64, add64_of_lt}
use stratified_hash_tree.Formula.Tree.{root_of}
use stratified_hash_tree.Formula.Roots.{pbst_roots}
use stratified_hash_tree.Formula.Roots.Tiling.{pbst_roots-Tiles}
use stratified_hash_tree.Formula.Model
use stratified_hash_tree.Formula.Model.{inodes, new}
use stratified_hash_tree.Formula.Model.Chain.{falling, inodes-eq-falling, inodes-Climbs}
use stratified_hash_tree.Formula.Model.Over.{IsOver, falling-IsOver}
use stratified_hash_tree.Formula.Model.Lefts.{lefts-eq-pbst_roots}
use stratified_hash_tree.Hashing.{Hasher}
use stratified_hash_tree.Entry.{MetaInfo, INode, Entry, root}
use stratified_hash_tree.Cache.{
  Cache, revision, last_entry, root_of_cache, collect_roots, migrate_cache, migrate,
}
use stratified_hash_tree.Slate.{next_index, new_leaf, build_inodes, new_entry}
use stratified_hash_tree.Slate.Spec.{at_leaf, Log, Describes, IsEntry, Knows, IsCurrent}
use stratified_hash_tree.Slate.Build.{Built, build-Built}
use stratified_hash_tree.Slate.Carry.{All-Carried, new_tree-Has}
use stratified_hash_tree.Slate.Roots.{NewEntry, All-Resolves, Collected, collect-Collected}

All-of_map :
    {A B : Type 0} (P : B → Type 0) (f : A → B) (xs : List A)
    → All P (map f xs)
    → All (λ x. P (f x)) xs
All-of_map P f [] p = tt
All-of_map P f (x ∷ xs) p = (p.0, All-of_map P f xs p.1)

All-append : {A : Type 0} (P : A → Type 0) (xs ys : List A) → All P xs → All P ys → All P (xs ++ ys)
All-append P [] ys p q = q
All-append P (x ∷ xs) ys p q = (p.0, All-append P xs ys p.1 q)

All-reverse : {A : Type 0} (P : A → Type 0) (xs : List A) → All P xs → All P (reverse xs)
All-reverse P [] p = tt
All-reverse P (x ∷ xs) p =
    rw (reverse-append (x ∷ []) xs)
      (All-append P (reverse xs) (x ∷ []) (All-reverse P xs p.1) (p.0, tt))

some_injective : {A : Type 0} {x y : A} → some x ≡ some y → x ≡ y
some_injective e = cc

module _ ⦃H : Hasher⦄ (log : Log) where
  next_index_of_zero : (c : Cache) → last_entry c ≡ none → next_index c ≡ 1
  unfolding next_index root_of_cache
  next_index_of_zero c e = rw (next_index, root_of_cache, e) refl

  next_index_of_entry :
      (c : Cache) (e : Entry) → last_entry c ≡ some e → next_index c ≡ add64 (root e).address.i 1
  unfolding next_index root_of_cache
  next_index_of_entry c e h = rw (next_index, root_of_cache, h) refl

  -- The index of the next entry is the next generation.
  next_index-eq-suc :
      (n : ℕ) (c : Cache) → IsCurrent log n c → suc n < 2 ^ 64 → next_index c ≡ suc n
  next_index-eq-suc zero c current h = next_index_of_zero c (current.no_entry refl)
  next_index-eq-suc (suc n) c current h =
      let (e, last, d) = current.has_last (omega arith) in
      next_index_of_entry c e last
      ∙ ap (λ (i : ℕ). add64 i 1) d.top.index
      ∙ add64_of_lt (suc n) 1 (omega arith)
      ∙ omega arith

  lefts_known :
      (n : ℕ) (c : Cache)
      → IsCurrent log n c
      → suc n < 2 ^ 64
      → All (λ x. Knows log c x.left) (inodes (new (suc n)))
  lefts_known n c current h = rw (inodes-eq-falling (suc n)) (
      All-reverse (λ (x : Model.INode). Knows log c x.left) (falling (suc n))
        (All-of_map (Knows log c) (λ (x : Model.INode). x.left) (falling (suc n))
          (rw (lefts-eq-pbst_roots n h) current.knows)))

  nodes-IsOver : (n : ℕ) → suc n < 2 ^ 64 → All (IsOver (suc n)) (inodes (new (suc n)))
  nodes-IsOver n h =
      rw (inodes-eq-falling (suc n))
        (All-reverse (IsOver (suc n)) (falling (suc n)) (falling-IsOver (suc n) (omega arith) h))

  new_leaf-Describes :
      (n : ℕ) → Describes log n 0 (new_leaf n (log.position n) (log.payload n)).meta
  unfolding new_leaf
  new_leaf-Describes n = record {
    index = refl;
    height = refl;
    stored_at = refl;
    hash_of = at_leaf refl;
  }

  abbrev entry_of : ℕ → List INode → Entry
  entry_of n nodes = record { enode = new_leaf n (log.position n) (log.payload n); inodes = nodes }

  Built-NewEntry :
      (n : ℕ) (c : Cache)
      (b : Built log c n 0
        (root_of n).1
        (new_leaf n (log.position n) (log.payload n)).meta.hash
        (inodes (new n)))
      → NewEntry log n (entry_of n b.nodes)
  unfolding root new_leaf
  Built-NewEntry n c b = record {
    is_entry = record {
      value = refl;
      leaf = new_leaf-Describes n;
      links = b.links;
      top = b.top_root _ (new_leaf-Describes n);
    };
    finds = b.finds;
  }

  -- What `append` stores: the leaf of the value and the nodes of its generation.
  pub record Entered (n : ℕ) (c : Cache) : Type 0 where
    pub entry : Entry
    pub enters : new_entry c (log.position n) (log.payload n) ≡ ok entry
    pub is_new : NewEntry log n entry

  new_entry_step :
      (n : ℕ) (c : Cache) (nodes : List INode)
      → next_index c ≡ n
      → build_inodes c
          (log.position n)
          (new_leaf n (log.position n) (log.payload n)).meta.hash
          (inodes (new n))
        ≡ ok nodes
      → new_entry c (log.position n) (log.payload n) ≡ ok (entry_of n nodes)
  unfolding new_entry
  new_entry_step n c nodes next built = rw (new_entry, next, built) refl

  pub new_entry-Entered :
      (n : ℕ) (c : Cache) → IsCurrent log n c → suc n < 2 ^ 64 → Entered (suc n) c
  new_entry-Entered n c current h =
      let b =
        build-Built log c (suc n) 0 (root_of (suc n)).1
          (new_leaf (suc n) (log.position (suc n)) (log.payload (suc n))).meta.hash
          (inodes (new (suc n))) (inodes-Climbs (suc n) (omega arith) h) (lefts_known n c current h)
          (nodes-IsOver n h) (new_leaf-Describes (suc n)).hash_of in
      record {
        entry = entry_of (suc n) b.nodes;
        enters = new_entry_step (suc n) c b.nodes (next_index-eq-suc n c current h) b.builds;
        is_new = Built-NewEntry (suc n) c b;
      }

  pub roots-Collected :
      (n : ℕ) (c : Cache) (e : Entry)
      → IsCurrent log n c
      → NewEntry log (suc n) e
      → suc n < 2 ^ 64
      → Collected log c e 0 (suc n) (pbst_roots (suc n)) []
  roots-Collected n c e current entry h =
      let tiles = pbst_roots-Tiles (suc n) h in
      collect-Collected log c e 64 0 (suc n) (pbst_roots (suc n)) [] tiles (
        All-Resolves log (suc n) c e entry (current.nothing_later (suc n) (omega arith))
          (pbst_roots (suc n))
          (All-Carried (Knows log c) 64 64 0 n (pbst_roots (suc n)) (pbst_roots n) tiles
            (pbst_roots-Tiles n (omega arith)) current.knows)
          (new_tree-Has (suc n) h))

  abbrev pub next_cache : ℕ → Entry → Map MetaInfo → Cache
  next_cache n e roots = record {
    level = 0;
    model = some (new n);
    cache = insert e.enode.meta.address.i e [];
    pbst_roots = roots;
  }

  pub migrate_step :
      (n : ℕ) (c : Cache) (e : Entry) (roots : Map MetaInfo)
      → c.level ≡ 0
      → collect_roots c e (pbst_roots n) [] ≡ ok roots
      → migrate c e (new n) ≡ ok (next_cache n e roots)
  unfolding migrate new migrate_cache
  migrate_step n c e roots level collects = rw (migrate, collects, level) refl

  pub next_cache-IsCurrent :
      (n : ℕ) (c : Cache) (e : Entry)
      → NewEntry log (suc n) e
      → (k : Collected log c e 0 (suc n) (pbst_roots (suc n)) [])
      → IsCurrent log (suc n) (next_cache (suc n) e k.roots)
  unfolding revision last_entry new lookup
  next_cache-IsCurrent n c e entry k = record {
    at_level = refl;
    at_revision = refl;
    knows = k.known;
    nothing_later = λ i lt. k.outside i (inr lt);
    no_entry = λ z. absurd (omega arith);
    has_last = λ pos. (
      e,
      lookup-insert e.enode.meta.address.i (suc n) e []
          ∙ rw ((==_iff e.enode.meta.address.i (suc n)).1 entry.is_entry.leaf.index) refl,
      entry.is_entry,
    );
    cached =
        λ i x found. only_entry i x (sym (lookup-insert e.enode.meta.address.i i e []) ∙ found);
  }
    where
      only_entry :
          (i : ℕ) (x : Entry)
          → (if e.enode.meta.address.i == i then some e else none) ≡ some x
          → IsEntry log i x
      only_entry i x found = elim (Bool-cases (e.enode.meta.address.i == i)) [
        | inl here ↦
            let same : some e ≡ some x = (rw here at found) in
            subst (IsEntry log i) (some_injective same) (
              subst (λ (k : ℕ). IsEntry log k e)
                (sym entry.is_entry.leaf.index ∙ (==_iff _ _).0 here) entry.is_entry)
        | inr other ↦ absurd (let none_some : none ≡ some x = (rw other at found) in cc)
      ]
