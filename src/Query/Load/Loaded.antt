-- ===== src/Query/Load/Loaded.antt =====
-- What the loops of `Cache::load` gather: the entries at the addresses, and the nodes in them.
use mathlib.Core.Path.{subst}
use stratified_hash_tree.Prelude.{
  ℕ, zero, suc, ◌%◌, ◌^◌, ◌≤◌, ◌<◌, ◌≡◌, ◌≢◌, refl, sym, ◌∙◌, inl, inr, ◌==◌, ==_iff, Bool-cases,
  true, false, some, List, [], ◌∷◌, All, ok, arith, ◌>>=◌,
}
use stratified_hash_tree.Prelude.Map.{Map, lookup, insert, lookup-insert}
use stratified_hash_tree.Hashing.{Hasher}
use stratified_hash_tree.Entry.{Address, MetaInfo, INode, Entry, meta, inode, find_inode}
use stratified_hash_tree.Storage.{Storage}
use stratified_hash_tree.Slate.Spec.{Log, Describes, Linked, IsEntry}
use stratified_hash_tree.Query.{read_entry_with_index_check}
use stratified_hash_tree.Query.Load.{load_each, collect_metas}
use stratified_hash_tree.Query.Descent.{joined}
use stratified_hash_tree.Query.Places.{no_jump}
use stratified_hash_tree.Formula.Tree.{root_of}

abbrev pub Present : Map Entry → ℕ → Type 0
Present table i = (e : Entry) × (lookup i table ≡ some e)

insert-Present :
    (key i : ℕ) (x : Entry) (table : Map Entry) → Present table i → Present (insert key x table) i
insert-Present key i x table p = elim (Bool-cases (key == i)) [
  | inl same ↦ (x, lookup-insert key i x table ∙ rw same refl)
  | inr other ↦ (p.0, lookup-insert key i x table ∙ rw other p.1)
]

pub insert-Present_here :
    (key : ℕ) (x : Entry) (table : Map Entry) → Present (insert key x table) key
insert-Present_here key x table =
    let same : (key == key) ≡ true = (==_iff key key).1 refl in
    (x, lookup-insert key key x table ∙ rw same refl)

module _ (S : Storage) ⦃H : Hasher⦄ (log : Log) where
  -- Every entry of the map is the one of its index.
  abbrev pub AreOwn : Map Entry → Type 0
  AreOwn table = (i : ℕ) (e : Entry) → lookup i table ≡ some e → IsEntry log i e

  pub insert-AreOwn :
      (i : ℕ) (x : Entry) (table : Map Entry)
      → IsEntry log i x
      → AreOwn table
      → AreOwn (insert i x table)
  insert-AreOwn key x table entry own i e found = elim (Bool-cases (key == i)) [
    | inl same ↦
        let here : some x ≡ some e = sym (lookup-insert key i x table ∙ rw same refl) ∙ found in
        let at : key ≡ i = (==_iff key i).0 same in
        let is : x ≡ e = (cc) in
        subst (λ (y : Entry). IsEntry log i y) is (subst (λ (k : ℕ). IsEntry log k x) at entry)
    | inr other ↦ own i e (sym (lookup-insert key i x table ∙ rw other refl) ∙ found)
  ]

  -- An address of an entry that the reader reads.
  abbrev pub Reads : S.Reader → Address → Type 0
  Reads r a = (e : Entry) × (S.read r a.position ≡ ok e) × IsEntry log a.i e

  -- The map after the loop: nothing is lost, and the entries of the addresses are there.
  pub record Loaded (r : S.Reader) (addrs : List Address) (table : Map Entry) : Type 0 where
    pub entries : Map Entry
    pub loads : load_each S r (λ below c. ok c) addrs table ≡ ok entries
    pub own : AreOwn entries
    pub keeps : (i : ℕ) → Present table i → Present entries i
    pub there : All (λ a. Present entries a.i) addrs

  load_each_step :
      (r : S.Reader) (a : Address) (rest : List Address) (table : Map Entry) (e : Entry)
      → S.read r a.position ≡ ok e
      → e.enode.meta.address.i ≡ a.i
      → load_each S r (λ below c. ok c) (a ∷ rest) table
        ≡ load_each S r (λ below c. ok c) rest (insert e.enode.meta.address.i e table)
  unfolding load_each read_entry_with_index_check
  load_each_step r a rest table e found index =
      let same : (e.enode.meta.address.i == a.i) ≡ true = (==_iff _ _).1 index in
      rw (load_each, found, same) refl

  pub load_each-Loaded :
      (r : S.Reader) (addrs : List Address) (table : Map Entry)
      → All (Reads r) addrs
      → AreOwn table
      → Loaded r addrs table
  load_each-Loaded r [] table reads own = record {
    entries = table;
    loads = unfold load_each in refl;
    own = own;
    keeps = λ i p. p;
    there = tt;
  }
  load_each-Loaded r (a ∷ rest) table reads own =
      let (e, found, entry) = reads.0 in
      let key : e.enode.meta.address.i ≡ a.i = entry.leaf.index in
      let is_entry : IsEntry log e.enode.meta.address.i e =
        subst (λ (i : ℕ). IsEntry log i e) (sym key) entry in
      let next =
        load_each-Loaded r rest (insert e.enode.meta.address.i e table) reads.1
          (insert-AreOwn e.enode.meta.address.i e table is_entry own) in
      record {
        entries = next.entries;
        loads = load_each_step r a rest table e found key ∙ next.loads;
        own = next.own;
        keeps = λ i p. next.keeps i (insert-Present e.enode.meta.address.i i e table p);
        there = (
          subst (Present next.entries) key (
              next.keeps e.enode.meta.address.i
                (insert-Present_here e.enode.meta.address.i e table)),
          next.there,
        );
      }

module _ ⦃H : Hasher⦄ (log : Log) where
  find_here :
      (t : ℕ) (x : INode) (xs : List INode)
      → (x.meta.address.j == t) ≡ true
      → find_inode t (x ∷ xs) ≡ some x
  unfolding find_inode
  find_here t x xs same = rw same refl

  find_later :
      (t : ℕ) (x : INode) (xs : List INode)
      → (x.meta.address.j == t) ≡ false
      → find_inode t (x ∷ xs) ≡ find_inode t xs
  unfolding find_inode
  find_later t x xs other = rw other refl

  find_inode-Linked :
      (m j top t : ℕ) (xs : List INode)
      → m < 2 ^ 64
      → Linked log m j top xs
      → m % 2 ^ t ≡ 0
      → j < t
      → t ≤ top
      → (x : INode) × (find_inode t xs ≡ some x) × Describes log m t x.meta
  find_inode-Linked m j top t [] room links multiple low le = absurd (omega (arith, links))
  find_inode-Linked m j top t (x ∷ xs) room links multiple low le =
      let high = no_jump log m j t x low multiple (joined log m j top x xs room links) in
      elim (Bool-cases (x.meta.address.j == t)) [
        | inl same ↦ (
          x,
          find_here t x xs same,
          subst (λ (h : ℕ). Describes log m h x.meta) ((==_iff _ _).0 same) links.0,
        )
        | inr other ↦
            let (y, found, describes) =
              find_inode-Linked m x.meta.address.j top t xs room links.6 multiple (ground arith)
                le in
            (y, find_later t x xs other ∙ found, describes)
      ]

  -- An entry has every perfect tree that ends at it.
  pub meta-Describes :
      (m t : ℕ) (e : Entry)
      → m < 2 ^ 64
      → IsEntry log m e
      → m % 2 ^ t ≡ 0
      → t ≤ (root_of m).1
      → (x : MetaInfo) × (meta e t ≡ some x) × Describes log m t x
  unfolding meta inode
  meta-Describes m zero e room entry multiple le = (e.enode.meta, refl, entry.leaf)
  meta-Describes m (suc t) e room entry multiple le =
      let (x, found, describes) =
        find_inode-Linked m 0 (root_of m).1 (suc t) e.inodes room entry.links multiple (omega arith)
          le in
      let inner : (suc t == 0) ≡ false = ground arith in
      (x.meta, rw (meta, inode, inner, found) refl, describes)

  -- What the last loop can look up.
  abbrev pub Known : Map Entry → Address → Type 0
  Known entries a =
      (e : Entry) × (m : MetaInfo) × (lookup a.i entries ≡ some e)
      × (meta e a.j ≡ some m)
      × Describes log a.i a.j m

  -- Where the indices rise, each address finds its node in the map of the roots.
  abbrev pub Rising : List Address → Type 0
  Rising [] = Unit
  Rising (a ∷ rest) = All (λ b. a.i < b.i) rest × Rising rest

  abbrev pub Rooted : Map MetaInfo → Address → Type 0
  Rooted roots a = (m : MetaInfo) × (lookup a.i roots ≡ some m) × Describes log a.i a.j m

  All-away : (i : ℕ) (rest : List Address) → All (λ b. i < b.i) rest → All (λ b. b.i ≢ i) rest
  All-away i [] all = tt
  All-away i (b ∷ rest) all = (λ e. omega (arith, all.0, e), All-away i rest all.1)

  -- The map of the roots after the loop.
  pub record Collected (entries : Map Entry) (addrs : List Address) (table : Map MetaInfo)
      : Type 0 where
    pub roots : Map MetaInfo
    pub collects : collect_metas entries addrs table ≡ ok roots
    pub keeps : (i : ℕ) → All (λ a. a.i ≢ i) addrs → lookup i roots ≡ lookup i table
    pub rooted : Rising addrs → All (Rooted roots) addrs

  collect_step :
      (entries : Map Entry) (a : Address) (rest : List Address) (table : Map MetaInfo) (e : Entry)
      (m : MetaInfo)
      → lookup a.i entries ≡ some e
      → meta e a.j ≡ some m
      → collect_metas entries (a ∷ rest) table ≡ collect_metas entries rest (insert a.i m table)
  unfolding collect_metas
  collect_step entries a rest table e m found has = rw (collect_metas, found, ◌>>=◌, has) refl

  pub collect-Collected :
      (entries : Map Entry) (addrs : List Address) (table : Map MetaInfo)
      → All (Known entries) addrs
      → Collected entries addrs table
  collect-Collected entries [] table known = record {
    roots = table;
    collects = unfold collect_metas in refl;
    keeps = λ i away. refl;
    rooted = λ rising. tt;
  }
  collect-Collected entries (a ∷ rest) table known =
      let (e, m, found, has, describes) = known.0 in
      let next = collect-Collected entries rest (insert a.i m table) known.1 in
      let same : (a.i == a.i) ≡ true = (==_iff a.i a.i).1 refl in
      record {
        roots = next.roots;
        collects = collect_step entries a rest table e m found has ∙ next.collects;
        keeps = λ i away.
            next.keeps i away.1
            ∙ lookup-insert a.i i m table
            ∙ (let other : (a.i == i) ≡ false = ground (arith, away.0) in rw other refl);
        rooted = λ rising. (
          (
            m,
            next.keeps a.i (All-away a.i rest rising.0)
                ∙ lookup-insert a.i a.i m table
                ∙ rw same refl,
            describes,
          ),
          next.rooted rising.1,
        );
      }
