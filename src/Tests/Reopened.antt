-- ===== src/Tests/Reopened.antt =====
-- A slate over `MemKVS` is opened again and truncated, also at an index that is not there.
use mathlib.Core.Path.{subst}
use stratified_hash_tree.Prelude.{◌≡◌, true, false, none, ok, err, arith}
use stratified_hash_tree.Error.{invalid_argument}
use stratified_hash_tree.Storage.Kvs.{kvs_storage}
use stratified_hash_tree.Storage.Kvs.Lawful.{kvs-Lawful}
use stratified_hash_tree.Slate.{Slate}
use stratified_hash_tree.Cache.{Cache}
use stratified_hash_tree.Slate.Spec.{IsCurrent}
use stratified_hash_tree.Slate.Run.{Follows}
use stratified_hash_tree.Slate.OnKvs.{kvs_log}
use stratified_hash_tree.Query.Load.{snapshot_at, with_cache_level, find_entry, truncate}
use stratified_hash_tree.Query.Absent.{truncate_outside}
use stratified_hash_tree.Query.Reopen.{
  snapshot_at-IsCurrent, with_cache_level-Follows, truncate-Follows,
}
use stratified_hash_tree.Tests.{byte_hasher, payload}
use stratified_hash_tree.Tests.Appends.{eleven, eleven-Follows}

eleven-holds : kvs-Lawful.Holds eleven.0.storage eleven-Follows.entries 12
eleven-holds =
    subst (kvs-Lawful.Holds eleven.0.storage eleven-Follows.entries) eleven-Follows.next_position
      eleven-Follows.holds

with_cache_level-Follows_example :
    (s : Slate kvs_storage) × (with_cache_level kvs_storage eleven.0.storage 0 ≡ ok s)
    × Follows kvs_storage kvs-Lawful (kvs_log payload) 11 s
with_cache_level-Follows_example =
    with_cache_level-Follows kvs_storage kvs-Lawful (kvs_log payload) 11 eleven.0.storage
      eleven-Follows.entries (omega arith) eleven-holds eleven-Follows.are_entries

truncate-Follows_example :
    (s : Slate kvs_storage) × (truncate kvs_storage 11 eleven.0 6 ≡ (ok true, s))
    × Follows kvs_storage kvs-Lawful (kvs_log payload) 5 s
truncate-Follows_example =
    truncate-Follows kvs_storage kvs-Lawful (kvs_log payload) 11 5 eleven.0 (omega arith)
      eleven-Follows (omega arith)

snapshot_at-IsCurrent_example :
    (c : Cache) × (snapshot_at kvs_storage 11 eleven.0 7 ≡ ok c) × IsCurrent (kvs_log payload) 7 c
snapshot_at-IsCurrent_example =
    snapshot_at-IsCurrent kvs_storage kvs-Lawful (kvs_log payload) 11 7 eleven.0 (omega arith)
      eleven-Follows (omega arith) (omega arith)

truncate_outside_example :
    (find_entry kvs_storage 1 eleven.0 12 ≡ ok none)
    × (truncate kvs_storage 1 eleven.0 12 ≡ (ok false, eleven.0))
    × (snapshot_at kvs_storage 1 eleven.0 12 ≡ err invalid_argument)
truncate_outside_example =
    truncate_outside kvs_storage kvs-Lawful (kvs_log payload) 11 0 12 eleven.0 (omega arith)
      eleven-Follows (λ pos. omega arith)
