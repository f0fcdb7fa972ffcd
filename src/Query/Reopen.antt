-- ===== src/Query/Reopen.antt =====
-- A slate that is opened on a storage, and one that is truncated, follow the log; a snapshot is
-- current.
use mathlib.Core.Path.{subst}
use native.Mathlib.Decide.{dec_le}
use stratified_hash_tree.Prelude.{
  ℕ, zero, suc, ◌^◌, ◌<◌, ◌≤◌, ◌≡◌, refl, sym, ap, ◌∙◌, Bool, true, Option, some, List, [], ◌∷◌,
  ◌++◌, Result, ok, err, panic, ◌>>=◌, arith,
}
use stratified_hash_tree.Error.{Error}
use stratified_hash_tree.Hashing.{Hasher}
use stratified_hash_tree.Entry.{Entry}
use stratified_hash_tree.Cache.{Cache, empty}
use stratified_hash_tree.Storage.{Storage}
use stratified_hash_tree.Storage.Laws.{position_of, newest, Lawful}
use stratified_hash_tree.Slate.{Slate}
use stratified_hash_tree.Slate.Spec.{Log, IsEntry, IsCurrent}
use stratified_hash_tree.Slate.Run.{AreEntries, AreEntries-at, empty-IsCurrent, Follows}
use stratified_hash_tree.Query.Load.{
  load, load_entry, snapshot_at, load_latest, load_metadata, with_cache_level, find_entry, reload,
  truncate,
}
use stratified_hash_tree.Query.Load.Current.{load-IsCurrent}
use stratified_hash_tree.Query.Served.{Follows-Opens, Follows-Finds}

-- The entry of an index in a stack, what is above and what is below it.
record Split ⦃H : Hasher⦄ (log : Log) (i : ℕ) (es : List Entry) : Type 0 where
  above : List Entry
  here : Entry
  below : List Entry
  stack : es ≡ above ++ (here ∷ below)
  is_entry : IsEntry log (suc i) here
  are_entries : AreEntries log i below

AreEntries-Split :
    ⦃H : Hasher⦄ (log : Log) (n i : ℕ) (es : List Entry)
    → i < n
    → AreEntries log n es
    → Split log i es
AreEntries-Split log zero i es lt are = absurd (omega arith)
AreEntries-Split log (suc n) i [] lt are = absurd are
AreEntries-Split log (suc n) i (e ∷ es) lt are = elim (dec_le n i) [
  | yes last ↦
      let same : n ≡ i = omega arith in
      record {
        above = [];
        here = e;
        below = es;
        stack = refl;
        is_entry = subst (λ (k : ℕ). IsEntry log (suc k) e) same are.0;
        are_entries = subst (λ (k : ℕ). AreEntries log k es) same are.1;
      }
  | no before ↦
      let rest = AreEntries-Split log n i es (omega arith) are.1 in
      record {
        above = e ∷ rest.above;
        here = rest.here;
        below = rest.below;
        stack = ap (λ (l : List Entry). e ∷ l) rest.stack;
        is_entry = rest.is_entry;
        are_entries = rest.are_entries;
      }
]

module _ (S : Storage) (L : Lawful S) ⦃H : Hasher⦄ (log : Log) where
  -- What `load_metadata` makes of a storage that holds the entries of generation `n`.
  record Metadata (n : ℕ) (st : S.State) (es : List Entry) (p : ℕ) : Type 0 where
    cache : Cache
    storage : S.State
    loads : load_metadata S st 0 ≡ (ok (cache, p), storage)
    holds : L.Holds storage es p
    current : IsCurrent log n cache

  metadata_step :
      (st st' : S.State) (latest : Option Entry) (p : ℕ) (c : Cache)
      → S.last st ≡ (ok (latest, p), st')
      → load_latest S st' 0 latest ≡ ok c
      → load_metadata S st 0 ≡ (ok (c, p), st')
  unfolding load_metadata
  metadata_step st st' latest p c last loads =
      ap
        (λ (x : Result Error (Option Entry × ℕ) × S.State).
          ((x.0 >>= λ found. (load_latest S x.1 0 found.0 >>= λ cache. ok (cache, found.1))), x.1))
        last
      ∙ ap (λ (w : Result Error Cache). ((w >>= λ cache. ok (cache, p)), st')) loads

  newest_loads :
      (n : ℕ) (st : S.State) (es : List Entry) (p : ℕ)
      → n < 2 ^ 64
      → L.Holds st es p
      → AreEntries log n es
      → (c : Cache) × (load_latest S st 0 (newest es) ≡ ok c) × IsCurrent log n c
  unfolding load_latest
  newest_loads zero st [] p room holds are = (empty 0, refl, empty-IsCurrent log)
  newest_loads zero st (e ∷ es) p room holds are = absurd are
  newest_loads (suc n) st [] p room holds are = absurd are
  newest_loads (suc n) st (e ∷ es) p room holds are =
      let (r, opens, reads, scans) = L.read_lem st (e ∷ es) p holds in
      load-IsCurrent S log (suc n) room (omega arith) r
        (λ i pos le.
          (let (x, found, entry) =
              AreEntries-at log (λ x. S.read r (position_of x) ≡ ok x) (suc n) (e ∷ es) are reads i
                pos le in
            (x, ap (S.read r) (sym entry.leaf.stored_at) ∙ found, entry)))
        st e opens are.0

  metadata_lem :
      (n : ℕ) (st : S.State) (es : List Entry) (p : ℕ)
      → n < 2 ^ 64
      → L.Holds st es p
      → AreEntries log n es
      → Metadata n st es p
  metadata_lem n st es p room holds are =
      let (st', last, kept) = L.last_lem st es p holds in
      let (c, loads, current) = newest_loads n st' es p room kept are in
      record {
        cache = c;
        storage = st';
        loads = metadata_step st st' (newest es) p c last loads;
        holds = kept;
        current = current;
      }

  with_cache_level_step :
      (st st' : S.State) (c : Cache) (p : ℕ)
      → load_metadata S st 0 ≡ (ok (c, p), st')
      → with_cache_level S st 0 ≡ ok (record { position = p; storage = st'; cache = c })
  unfolding with_cache_level
  with_cache_level_step st st' c p loads =
      ap
        (λ (x : Result Error (Cache × ℕ) × S.State).
          (x.0 >>= λ found. ok (record { position = found.1; storage = x.1; cache = found.0 })))
        loads

  -- A lawful storage that holds the entries of a log from generation 1 to `n`, below 2 ^ 64, opens
  -- as a slate that follows the log at generation `n`.
  pub with_cache_level-Follows :
      (n : ℕ) (st : S.State) (es : List Entry)
      → n < 2 ^ 64
      → L.Holds st es (log.position (suc n))
      → AreEntries log n es
      → (s : Slate S) × (with_cache_level S st 0 ≡ ok s) × Follows S L log n s
  with_cache_level-Follows n st es room holds are =
      let m = metadata_lem n st es (log.position (suc n)) room holds are in
      (
        record { position = log.position (suc n); storage = m.storage; cache = m.cache },
        with_cache_level_step st m.storage m.cache (log.position (suc n)) m.loads,
        record {
          current = m.current;
          next_position = refl;
          entries = es;
          holds = m.holds;
          are_entries = are;
        },
      )

  -- What `reload` makes of the metadata.
  abbrev reloaded : Slate S → Result Error (Cache × ℕ) × S.State → Result Error Bool × Slate S
  reloaded s x = elim x.0 [
    | ok found ↦ (ok true, record { position = found.1; storage = x.1; cache = found.0 })
    | err e ↦ (err e, record s { storage = x.1 })
    | panic ↦ (panic, record s { storage = x.1 })
  ]

  reload_step :
      (s : Slate S) (p : ℕ) (st st' : S.State) (c : Cache)
      → s.cache.level ≡ 0
      → load_metadata S st 0 ≡ (ok (c, p), st')
      → reload S s (ok true, st) ≡ (ok true, record { position = p; storage = st'; cache = c })
  unfolding reload
  reload_step s p st st' c level loads =
      ap (λ (l : ℕ). reloaded s (load_metadata S st l)) level ∙ ap (reloaded s) loads

  truncate_step :
      (fuel i p : ℕ) (s : Slate S) (e : Entry) (st st' : S.State) (c : Cache)
      → find_entry S fuel s i ≡ ok (some e)
      → S.truncate s.storage e.enode.meta.address.position ≡ (ok true, st)
      → s.cache.level ≡ 0
      → load_metadata S st 0 ≡ (ok (c, p), st')
      → truncate S fuel s i ≡ (ok true, record { position = p; storage = st'; cache = c })
  unfolding truncate
  truncate_step fuel i p s e st st' c found drops level loads =
      rw (truncate, found, drops) (reload_step s p st st' c level loads)

  -- On a slate that follows a log at generation `n`, below 2 ^ 64, over a lawful storage, with fuel
  -- for `n` steps: `truncate` at an index from 1 to `n` returns true and leaves a slate that
  -- follows the log at the generation before that index.
  pub truncate-Follows :
      (n i : ℕ) (s : Slate S)
      → n < 2 ^ 64
      → Follows S L log n s
      → i < n
      → (s' : Slate S) × (truncate S n s (suc i) ≡ (ok true, s')) × Follows S L log i s'
  truncate-Follows n i s room f lt =
      let finds = (Follows-Finds S L log n (suc i) s room f (omega arith) (omega arith)).finds in
      let (e, found, entry) = finds in
      let split = AreEntries-Split log n i f.entries lt f.are_entries in
      let at : position_of e ≡ position_of split.here =
        entry.leaf.stored_at ∙ sym split.is_entry.leaf.stored_at in
      let (st, drops, holds) =
        L.truncate_lem s.storage split.above split.below split.here s.position
          (subst (λ (l : List Entry). L.Holds s.storage l s.position) split.stack f.holds) in
      let next : L.Holds st split.below (log.position (suc i)) =
        subst (L.Holds st split.below) split.is_entry.leaf.stored_at holds in
      let m =
        metadata_lem i st split.below (log.position (suc i)) (omega arith) next split.are_entries in
      (
        record { position = log.position (suc i); storage = m.storage; cache = m.cache },
        truncate_step n (suc i) (log.position (suc i)) s e st m.storage m.cache found
            (ap (S.truncate s.storage) at ∙ drops) f.current.at_level m.loads,
        record {
          current = m.current;
          next_position = refl;
          entries = split.below;
          holds = m.holds;
          are_entries = split.are_entries;
        },
      )

  snapshot_step :
      (fuel i : ℕ) (s : Slate S) (e : Entry) (c : Cache)
      → load_entry S fuel s i ≡ ok e
      → s.cache.level ≡ 0
      → load S s.storage 0 e ≡ ok c
      → snapshot_at S fuel s i ≡ ok c
  unfolding snapshot_at
  snapshot_step fuel i s e c found level loads =
      rw (snapshot_at, found) (ap (λ (l : ℕ). load S s.storage l e) level ∙ loads)

  -- On a slate that follows a log at generation `n`, below 2 ^ 64, over a lawful storage, with fuel
  -- for `n` steps: the cache of `snapshot_at` a generation from 1 to `n` is current at that
  -- generation.
  pub snapshot_at-IsCurrent :
      (n i : ℕ) (s : Slate S)
      → n < 2 ^ 64
      → Follows S L log n s
      → 0 < i
      → i ≤ n
      → (c : Cache) × (snapshot_at S n s i ≡ ok c) × IsCurrent log i c
  snapshot_at-IsCurrent n i s room f pos le =
      let o = Follows-Opens S L log n s f in
      let finds = Follows-Finds S L log n i s room f pos le in
      let (c, loads, current) =
        load-IsCurrent S log i (omega arith) pos o.cursor
          (λ k low high. o.serves.reads k low (omega arith)) s.storage finds.found o.opens
          finds.is_entry in
      (c, snapshot_step n i s finds.found c finds.loads f.current.at_level loads, current)
