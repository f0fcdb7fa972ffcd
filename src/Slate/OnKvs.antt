-- ===== src/Slate/OnKvs.antt =====
-- A run of appends to an empty slate over `MemKVS`.
use stratified_hash_tree.Prelude.{
  ℕ, suc, ◌^◌, ◌≤◌, ◌<◌, ◌≡◌, refl, sym, ap, ◌∙◌, List, [], arith, ok, length,
}
use stratified_hash_tree.Entry.{Entry}
use stratified_hash_tree.Hashing.{Hasher}
use stratified_hash_tree.Cache.{empty}
use stratified_hash_tree.Storage.Kvs.{kvs_storage, read}
use stratified_hash_tree.Storage.Kvs.Lawful.{kvs-Lawful, empty-KvsHolds, read-Filed}
use stratified_hash_tree.Storage.Laws.{position_of}
use stratified_hash_tree.Slate.{max_payload_size, Slate}
use stratified_hash_tree.Slate.Spec.{Log, IsEntry, IsCurrent}
use stratified_hash_tree.Slate.Run.{
  AreEntries-at, empty-IsCurrent, Follows, IsStorable, Run, Run-Follows, Run-exists,
}

-- What `with_cache_level` makes of an empty `MemKVS`.
abbrev pub opened : Slate kvs_storage
opened = record { position = 1; storage = []; cache = empty 0 }

-- The entry of each index is stored under the index.
abbrev pub kvs_log : (ℕ → List ℕ) → Log
kvs_log payload = record { payload = payload; position = λ i. i }

module _ ⦃H : Hasher⦄ (payload : ℕ → List ℕ) where
  pub opened-Follows : Follows kvs_storage kvs-Lawful (kvs_log payload) 0 opened
  opened-Follows = record {
    current = empty-IsCurrent (kvs_log payload);
    next_position = refl;
    entries = [];
    holds = empty-KvsHolds;
    are_entries = tt;
  }

  pub kvs_log-IsStorable :
      (n : ℕ)
      → suc n < 2 ^ 63
      → ((i : ℕ) → length (payload i) ≤ max_payload_size)
      → IsStorable kvs_storage kvs-Lawful (kvs_log payload) n
  kvs_log-IsStorable n h small = record {
    small = small;
    fits = λ i e lt entry. (entry.leaf.stored_at, omega arith);
    paces = λ i e lt entry. refl;
  }

module _ ⦃H : Hasher⦄ (payload : ℕ → List ℕ) where
  -- A slate over `MemKVS` appends values of a size allowed one after the other, as many as fewer
  -- than 2 ^ 63 - 1. After `n` of them its cache is current at generation `n`, and reading any
  -- position from 1 to `n` gives the entry of that index, with the value that was appended there.
  pub Run-reads :
      (n : ℕ)
      → suc n < 2 ^ 63
      → ((i : ℕ) → length (payload i) ≤ max_payload_size)
      → (s : Slate kvs_storage) × Run kvs_storage kvs-Lawful (kvs_log payload) opened n s
        × IsCurrent (kvs_log payload) n s.cache
        × ((i : ℕ)
            → 0 < i
            → i ≤ n
            → (e : Entry) × (read s.storage i ≡ ok e) × IsEntry (kvs_log payload) i e)
  Run-reads n h small = (s, run, follows.current, reads)
    where
      storable : IsStorable kvs_storage kvs-Lawful (kvs_log payload) n
      storable = kvs_log-IsStorable payload n h small

      made : (s : Slate kvs_storage) × Run kvs_storage kvs-Lawful (kvs_log payload) opened n s
      made =
          Run-exists kvs_storage kvs-Lawful (kvs_log payload) n (omega arith) storable opened
            (opened-Follows payload) n (omega arith)

      s : Slate kvs_storage
      s = made.0

      run : Run kvs_storage kvs-Lawful (kvs_log payload) opened n s
      run = made.1

      follows : Follows kvs_storage kvs-Lawful (kvs_log payload) n s
      follows =
          Run-Follows kvs_storage kvs-Lawful (kvs_log payload) n (omega arith) storable opened
            (opened-Follows payload) n s (omega arith) run

      reads :
          (i : ℕ)
          → 0 < i
          → i ≤ n
          → (e : Entry) × (read s.storage i ≡ ok e) × IsEntry (kvs_log payload) i e
      reads i pos le =
          let (e, found, entry) =
            AreEntries-at (kvs_log payload) (λ e. read s.storage (position_of e) ≡ ok e) n
              follows.entries follows.are_entries
              (read-Filed s.storage follows.entries follows.holds.filed) i pos le in
          (e, ap (read s.storage) (sym entry.leaf.stored_at) ∙ found, entry)
