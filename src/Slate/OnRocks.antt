-- ===== src/Slate/OnRocks.antt =====
-- Appends to an empty slate over a `RocksDBStorage` with a database that is a dictionary.
use stratified_hash_tree.Prelude.{
  ℕ, suc, ◌^◌, ◌≤◌, ◌<◌, ◌≡◌, refl, none, ok, Bool, List, [], arith, length,
}
use stratified_hash_tree.Hashing.{Hasher}
use stratified_hash_tree.Cache.{empty}
use stratified_hash_tree.Serialize.{LittleEndian}
use stratified_hash_tree.Storage.Rocks.{Database, new, key, rocks_storage}
use stratified_hash_tree.Storage.Rocks.Keys.{create_key}
use stratified_hash_tree.Storage.Rocks.Dictionary.{Dictionary}
use stratified_hash_tree.Storage.Rocks.Filed.{RocksHolds}
use stratified_hash_tree.Storage.Rocks.Lawful.{last_step, rocks-Lawful}
use stratified_hash_tree.Slate.{max_payload_size, Slate}
use stratified_hash_tree.Slate.Spec.{Log}
use stratified_hash_tree.Slate.Sizes.{IsEntry-Holdable}
use stratified_hash_tree.Slate.Run.{empty-IsCurrent, Follows, IsStorable, Run, Run-exists}
use stratified_hash_tree.Query.Load.{with_cache_level, load_metadata, load_latest}
use stratified_hash_tree.Query.Served.{Finds, Run-Finds}

module _ ⦃H : Hasher⦄ ⦃B : LittleEndian⦄ ⦃D : Database⦄ ⦃L : Dictionary⦄ (payload : ℕ → List ℕ)
    (db : D.State) (prefix : List ℕ) (hashing : Bool) where
  -- The entry of each index has the index as its position.
  abbrev pub rocks_log : Log
  rocks_log = record { payload = payload; position = λ i. i }

  -- What `with_cache_level` makes of a database without keys of the storage.
  abbrev pub rocks_slate : Slate rocks_storage
  rocks_slate = record { position = 1; storage = new db prefix hashing; cache = empty 0 }

  module _ (fresh : (i : ℕ) → i < 2 ^ 64 → L.contents db (create_key i hashing prefix) ≡ none) where
    pub new-RocksHolds : RocksHolds (new db prefix hashing) [] 1
    unfolding new key
    new-RocksHolds = record {
      own = refl;
      next_position = refl;
      in_range = omega arith;
      mark = fresh 0 (omega arith);
      filed = tt;
      nothing_later = λ i pos room. fresh i room;
    }

    rocks_slate_opens : with_cache_level rocks_storage (new db prefix hashing) 0 ≡ ok rocks_slate
    unfolding with_cache_level load_metadata load_latest
    rocks_slate_opens = rw (last_step (new db prefix hashing) [] 1 new-RocksHolds) refl

    rocks_slate-Follows : Follows rocks_storage rocks-Lawful rocks_log 0 rocks_slate
    rocks_slate-Follows = record {
      current = empty-IsCurrent rocks_log;
      next_position = refl;
      entries = [];
      holds = new-RocksHolds;
      are_entries = tt;
    }

    module _ (small_hash : H.size ≤ 64) (n : ℕ) (in_range : suc n < 2 ^ 63)
        (small : (i : ℕ) → length (payload i) ≤ max_payload_size) where
      rocks_log-IsStorable : IsStorable rocks_storage rocks-Lawful rocks_log n
      rocks_log-IsStorable = record {
        small = small;
        fits = λ i e lt entry. (
          (IsEntry-Holdable rocks_log (suc i) (omega (arith, in_range))
              (λ k le. omega (arith, in_range)) e (omega arith) (small (suc i)) entry).storable,
          omega (arith, in_range),
        );
        paces = λ i e lt entry. refl;
      }

      -- With digests of at most 64 bytes: over a database that is a dictionary and has none of the
      -- keys of the storage, whichever their prefix and with or without hashing, an empty slate
      -- opens, and `n` values of a size allowed can be appended to it one after the other, if
      -- `n + 1` is below 2 ^ 63. The entry of each index from 1 to `n` is then found by
      -- `load_entry` and by the look-up of `truncate`.
      pub rocks_slate-Finds :
          (with_cache_level rocks_storage (new db prefix hashing) 0 ≡ ok rocks_slate)
          × (s : Slate rocks_storage) × Run rocks_storage rocks-Lawful rocks_log rocks_slate n s
          × ((t : ℕ) → 0 < t → t ≤ n → Finds rocks_storage rocks-Lawful rocks_log n s t)
      rocks_slate-Finds =
          let (s, run) =
            Run-exists rocks_storage rocks-Lawful rocks_log n (omega arith) rocks_log-IsStorable
              rocks_slate rocks_slate-Follows n (omega arith) in
          (
            rocks_slate_opens,
            s,
            run,
            λ t pos le.
                Run-Finds rocks_storage rocks-Lawful rocks_log n t rocks_slate s (omega arith)
                  rocks_log-IsStorable rocks_slate-Follows run pos le,
          )
