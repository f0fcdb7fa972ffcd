-- ===== src/Tests/Appends.antt =====
-- Appends to a slate over `MemKVS`, and to one whose storage refuses.
use stratified_hash_tree.Prelude.{ℕ, ◌≤◌, ◌<◌, ◌≡◌, refl, List, [], ◌∷◌, ok, err, length, arith}
use stratified_hash_tree.Error.{io}
use stratified_hash_tree.Entry.{Entry}
use stratified_hash_tree.Storage.{Storage, Visitor}
use stratified_hash_tree.Storage.Kvs.{kvs_storage, last, put, read}
use stratified_hash_tree.Storage.Kvs.Lawful.{kvs-Lawful}
use stratified_hash_tree.Slate.{max_payload_size, Slate, append}
use stratified_hash_tree.Slate.Spec.{IsEntry, IsCurrent}
use stratified_hash_tree.Slate.Append.{Appended, append-Appended, append-refused}
use stratified_hash_tree.Slate.Run.{Follows, IsStorable, Run, Run-Follows}
use stratified_hash_tree.Slate.OnKvs.{
  opened, opened-Follows, kvs_log, kvs_log-IsStorable, Run-reads,
}
use stratified_hash_tree.Query.Load.{with_cache_level, load_metadata, load_latest}
use stratified_hash_tree.Query.Served.{Finds, Run-Finds, Gets, Run-Gets}
use stratified_hash_tree.Query.Scan.{Scanned, Run-Scanned}
use stratified_hash_tree.Query.Sampled.{Samples, Run-Samples}
use stratified_hash_tree.Tests.{byte_hasher, payload}

small_payload : (i : ℕ) → length (payload i) ≤ max_payload_size
small_payload i = omega arith

-- The run begins with what `with_cache_level` makes of an empty `MemKVS`.
opened-with_cache_level : with_cache_level kvs_storage [] 0 ≡ ok opened
unfolding with_cache_level load_metadata load_latest last
opened-with_cache_level = refl

Run-reads_example :
    (s : Slate kvs_storage) × Run kvs_storage kvs-Lawful (kvs_log payload) opened 11 s
    × IsCurrent (kvs_log payload) 11 s.cache
    × ((i : ℕ)
        → 0 < i
        → i ≤ 11
        → (e : Entry) × (read s.storage i ≡ ok e) × IsEntry (kvs_log payload) i e)
Run-reads_example = Run-reads payload 11 (omega arith) small_payload

-- A run of eleven appends.
pub eleven : (s : Slate kvs_storage) × Run kvs_storage kvs-Lawful (kvs_log payload) opened 11 s
eleven = let (s, run, current, reads) = Run-reads payload 11 (omega arith) small_payload in (s, run)

storable : IsStorable kvs_storage kvs-Lawful (kvs_log payload) 20
storable = kvs_log-IsStorable payload 20 (omega arith) small_payload

pub eleven-Follows : Follows kvs_storage kvs-Lawful (kvs_log payload) 11 eleven.0
eleven-Follows =
    Run-Follows kvs_storage kvs-Lawful (kvs_log payload) 20 (omega arith) storable opened
      (opened-Follows payload) 11 eleven.0 (omega arith) eleven.1

Run-Follows_example : Follows kvs_storage kvs-Lawful (kvs_log payload) 11 eleven.0
Run-Follows_example =
    Run-Follows kvs_storage kvs-Lawful (kvs_log payload) 20 (omega arith) storable opened
      (opened-Follows payload) 11 eleven.0 (omega arith) eleven.1

append_example : Appended kvs_storage (kvs_log payload) 12 eleven.0
append_example =
    append-Appended kvs_storage (kvs_log payload) 11 eleven.0 eleven-Follows.current
      eleven-Follows.next_position (omega arith) (small_payload 12)
      (λ e entry. unfold put in (_, _, refl))

Run-Finds_example : Finds kvs_storage kvs-Lawful (kvs_log payload) 11 eleven.0 6
Run-Finds_example =
    Run-Finds kvs_storage kvs-Lawful (kvs_log payload) 11 6 opened eleven.0 (omega arith)
      (kvs_log-IsStorable payload 11 (omega arith) small_payload) (opened-Follows payload) eleven.1
      (omega arith) (omega arith)

Run-Gets_example : Gets kvs_storage kvs-Lawful (kvs_log payload) 11 eleven.0 6
Run-Gets_example =
    Run-Gets kvs_storage kvs-Lawful (kvs_log payload) 11 6 opened eleven.0 (omega arith)
      (kvs_log-IsStorable payload 11 (omega arith) small_payload) (opened-Follows payload) eleven.1

Run-Samples_example : Samples kvs_storage kvs-Lawful (kvs_log payload) 11 eleven.0 6
Run-Samples_example =
    Run-Samples kvs_storage kvs-Lawful (kvs_log payload) 11 6 opened eleven.0 (omega arith)
      (kvs_log-IsStorable payload 11 (omega arith) small_payload) (opened-Follows payload) eleven.1

-- The callback writes down the indices, the last one first.
abbrev note : Visitor ℕ (List ℕ)
note e seen = (ok tt, e.enode.meta.address.i ∷ seen)

Run-Scanned_example : Scanned kvs_storage kvs-Lawful (kvs_log payload) note [] 11 30 4 eleven.0
Run-Scanned_example =
    Run-Scanned kvs_storage kvs-Lawful (kvs_log payload) note [] 11 30 4 opened eleven.0
      (omega arith) (kvs_log-IsStorable payload 11 (omega arith) small_payload)
      (opened-Follows payload) eleven.1

-- A storage that refuses every entry.
abbrev full_storage : Storage
full_storage = record {
  State = ℕ;
  Reader = ℕ;
  first = λ s. (err io, s);
  last = λ s. (err io, s);
  put = λ s position entry. (err io, s);
  truncate = λ s position. (err io, s);
  reader = λ s. err io;
  read = λ s position. err io;
  scan = λ s position count visit c. (err io, c);
}

full : Slate full_storage
full = record { position = 12; storage = 0; cache = eleven.0.cache }

full-IsCurrent : IsCurrent (kvs_log payload) 11 full.cache
unfolding full
full-IsCurrent = eleven-Follows.current

append-refused_example :
    append full_storage full (payload 12) ≡ (err io, record full { storage = full.storage })
append-refused_example =
    append-refused full_storage (kvs_log payload) 11 full io full.storage full-IsCurrent
      (unfold full in refl) (omega arith) (small_payload 12) (λ e entry. refl)
