-- ===== src/Query/Load.antt =====
-- src/lib.rs and src/cache.rs: what is read from a storage to build a cache, and the operations of
-- `Slate` that do so.
pub mod Loaded
pub mod Tiled
pub mod Current
use mathlib.Core.List.{reverse}
use stratified_hash_tree.Prelude.{
  ℕ, zero, suc, ◌==◌, Bool, true, false, ◌||◌, Option, none, some, List, [], ◌∷◌, Result, ok, err,
  panic, ◌>>=◌, unwrap, ltb, if◌then◌else◌, map,
}
use stratified_hash_tree.Prelude.Map.{Map, lookup, insert}
use stratified_hash_tree.Error.{Error, internal_state_inconsistency, invalid_argument}
use stratified_hash_tree.Formula.Tree.{is_pbst}
use stratified_hash_tree.Formula.Model.{new}
use stratified_hash_tree.Entry.{Address, MetaInfo, INode, Entry, meta}
use stratified_hash_tree.Cache.{Cache, empty, entry, revision}
use stratified_hash_tree.Storage.{Storage}
use stratified_hash_tree.Slate.{Slate}
use stratified_hash_tree.Query.{Query, read_entry_with_index_check, holder, find_left, read_entry}

-- The loop of `load` over the inodes from the root down: the left subnodes of the joining nodes,
-- and then the highest node of a perfect tree, or the leaf.
unfoldable pub pbst_root_addrs : Address → List INode → List Address
pbst_root_addrs leaf [] = leaf ∷ []
pbst_root_addrs leaf (x ∷ xs) =
    if is_pbst x.meta.address.i x.meta.address.j
    then x.meta.address ∷ []
    else (x.left ∷ pbst_root_addrs leaf xs)

abbrev pub left_addrs : List INode → List Address
left_addrs inodes = map (λ x. x.left) inodes

-- The roots, each looked up in the entry that holds it; an entry that is not there is a panic.
unfoldable pub collect_metas : Map Entry → List Address → Map MetaInfo → Result Error (Map MetaInfo)
unfolding meta
collect_metas entries [] roots = ok roots
collect_metas entries (a ∷ rest) roots = do
  e ← unwrap (lookup a.i entries)
  m ← unwrap (meta e a.j)
  collect_metas entries rest (insert a.i m roots)

module _ (S : Storage) where
  -- The loop of `load_with_level`, with what it does on the level below.
  unfoldable pub load_each :
      S.Reader
      → (List Address → Map Entry → Result Error (Map Entry))
      → List Address
      → Map Entry
      → Result Error (Map Entry)
  unfolding read_entry_with_index_check
  load_each r deeper [] cache = ok cache
  load_each r deeper (a ∷ rest) cache = do
    e ← read_entry_with_index_check S r a.position a.i
    reached ← deeper (left_addrs e.inodes) (insert e.enode.meta.address.i e cache)
    load_each r deeper rest reached

  -- Level 0 does as level 1 does: it reads the entries of the addresses only.
  unfoldable pub load_with_level :
      S.Reader → ℕ → List Address → Map Entry → Result Error (Map Entry)
  unfolding load_each
  load_with_level r zero addrs cache = load_each r (λ below c. ok c) addrs cache
  load_with_level r (suc zero) addrs cache = load_each r (λ below c. ok c) addrs cache
  load_with_level r (suc (suc level)) addrs cache =
      load_each r (load_with_level r (suc level)) addrs cache

  -- `Cache::load`: on level 0 the entries one step away are read for the roots, but not kept.
  unfoldable pub load : S.State → ℕ → Entry → Result Error Cache
  unfolding load_with_level pbst_root_addrs collect_metas
  load storage level last_entry = do
    r ← S.reader storage
    let own = insert last_entry.enode.meta.address.i last_entry []
    let level1_addrs = left_addrs last_entry.inodes
    entries ← load_with_level r level level1_addrs own
    pbst_roots ←
        collect_metas entries
          (pbst_root_addrs last_entry.enode.meta.address (reverse last_entry.inodes)) []
    ok (record {
      level = level;
      model = some (new last_entry.enode.meta.address.i);
      cache = if level == 0 then own else entries;
      pbst_roots = pbst_roots;
    })

  -- `load` on the latest entry, if there is one.
  unfoldable pub load_latest : S.State → ℕ → Option Entry → Result Error Cache
  unfolding load
  load_latest storage level none = ok (empty level)
  load_latest storage level (some e) = load storage level e

  unfoldable pub load_metadata : S.State → ℕ → Result Error (Cache × ℕ) × S.State
  unfolding load_latest
  load_metadata storage level =
      let (latest, storage') = S.last storage in
      (do found ← latest; cache ← load_latest storage' level found.0; ok (cache, found.1), storage')

  unfoldable pub with_cache_level : S.State → ℕ → Result Error (Slate S)
  unfolding load_metadata
  with_cache_level storage level =
      let (loaded, storage') = load_metadata storage level in
      do found ← loaded; ok (record { position = found.1; storage = storage'; cache = found.0 })

  -- The loop of `load_entry` from the last entry to the entry `i`.
  unfoldable pub seek_entry : ℕ → Query S → Entry → ℕ → Result Error Entry
  unfolding find_left holder
  seek_entry zero q e i = panic
  seek_entry (suc fuel) q e i = elim (e.enode.meta.address.i == i) [
    | true ↦ ok e
    | false ↦ elim (find_left i e.inodes) [
      | none ↦ err internal_state_inconsistency
      | some x ↦ do below ← holder S q x.left; seek_entry fuel q below i
    ]
  ]

  unfoldable pub load_entry : ℕ → Slate S → ℕ → Result Error Entry
  unfolding seek_entry
  load_entry fuel s i =
      if i == 0 || ltb (revision s.cache) i then err invalid_argument else elim (entry s.cache i) [
        | some e ↦ ok e
        | none ↦ do
          last ← unwrap (entry s.cache (revision s.cache))
          r ← S.reader s.storage
          seek_entry fuel (record { cursor = r; cache = s.cache }) last i
      ]

  -- `snapshot_at`: the cache of the snapshot.
  unfoldable pub snapshot_at : ℕ → Slate S → ℕ → Result Error Cache
  unfolding load_entry load
  snapshot_at fuel s revision = do e ← load_entry fuel s revision; load s.storage s.cache.level e

  -- `truncate` once the storage has dropped the entries: the cache is loaded anew.
  unfoldable pub reload : Slate S → Result Error Bool × S.State → Result Error Bool × Slate S
  unfolding load_metadata
  reload s (err e, storage) = (err e, record s { storage = storage })
  reload s (panic, storage) = (panic, record s { storage = storage })
  reload s (ok dropped, storage) =
      let (loaded, storage') = load_metadata storage s.cache.level in
      elim loaded [
        | ok found ↦ (ok true, record { position = found.1; storage = storage'; cache = found.0 })
        | err e ↦ (err e, record s { storage = storage' })
        | panic ↦ (panic, record s { storage = storage' })
      ]

  unfoldable pub find_entry : ℕ → Slate S → ℕ → Result Error (Option Entry)
  unfolding read_entry
  find_entry fuel s i = do
    r ← S.reader s.storage
    read_entry S fuel (record { cursor = r; cache = s.cache }) i

  unfoldable pub truncate : ℕ → Slate S → ℕ → Result Error Bool × Slate S
  unfolding reload find_entry
  truncate fuel s i = elim (find_entry fuel s i) [
    | ok none ↦ (ok false, s)
    | ok (some e) ↦ reload s (S.truncate s.storage e.enode.meta.address.position)
    | err e ↦ (err e, s)
    | panic ↦ (panic, s)
  ]
