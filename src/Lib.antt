-- ===== src/Lib.antt =====
-- A model of Slate, the stratified hash tree: an append-only list whose n-th generation is a binary
-- hash tree over its first n values, kept on a storage as one entry for each value, with the nodes
-- that its generation added.
--
-- Parts, and the files that model them:
-- - src/formula.rs, the shape of the trees: Formula (Arith: powers and logarithms; Tree: nodes and
--   their ranges; Roots: the perfect trees of a generation; Model: `Model`, the nodes that join them).
--   The children prove what the formulas compute; those of Roots.Limits go from the first and the last
--   entry at each distance (Nearest, Farthest, Joined) and the fold over the roots (Filled, Folded) to
--   the ranges (Windows, Extremes, Bounds).
-- - src/lib.rs: Hashing (`Hash`, `Value`, `Node`, `ValuesWithBranches`), Entry (`Entry` and its
--   nodes), Slate (`Slate::append`; its children go from the nodes of a generation to the whole
--   append), Sample (`StratumSample`), Query (`Query`: walks, `get`, `get_sample`, `read_entry`,
--   `scan`) and
--   Query.Load (opening, `truncate`, `snapshot_at`).
-- - src/cache.rs: Cache, and Query.Load for `Cache::load`.
--   Query.Load's children and Query.Reopen are about opening and truncating, Query.Descent,
--   Query.Entries and Query.Served about finding entries, Query.Absent about
--   looking for those that are not there, Query.Places to Query.Get about `get`,
--   Query.Gather to Query.Sampled about `get_sample`, Query.Scan about `scan`; Query.Snapshot has the
--   snapshots of a slate.
-- - src/storage.rs: Storage, the interface as a record of operations on a state, and Storage.Laws, what
--   the tree relies on in it: a stack of entries, each read at its own position and
--   scanned from there on. Storage.Block,
--   `BlockStorage` and the format of its file. src/storage/memory.rs: Storage.Kvs, `MemKVS`, and
--   Storage.Device, `MemoryDevice`. src/storage/rocksdb.rs: Storage.Rocks, `RocksDBStorage`, and
--   Storage.Rocks.Keys, its keys. The storages fulfil the laws (Storage.Kvs.Lawful,
--   Storage.Block.Lawful, Storage.Rocks.Lawful). src/checksum.rs: Checksum.
-- - Slate.Run puts appends in a row over any lawful storage, Slate.OnKvs over `MemKVS`,
--   Slate.OnBlocks over a `BlockStorage` in memory, with the sizes of the entries (Slate.Sizes), and
--   Slate.OnRocks over a `RocksDBStorage`.
-- - src/serialize.rs: Serialize. src/error.rs: Error.
-- - Prelude has what the parts share: Boolean tests, lists over native numbers, `Result` with panics,
--   words with their wrap-around, bits and maps. Tests has the concrete inputs.
--
-- How the parts interact: `append` asks the cache for the next index and the roots left of the path,
-- joins them upwards by the hash function, gives the entry to the storage and has the cache migrate
-- to the new generation. A query goes down from the cached last entry and reads the others from the
-- storage by the positions in the nodes. The block storage writes an entry by its serialisation and a
-- checksum over it to a device, and finds the last one from the end of the file.
--
-- Conventions. An index is a number, and its 64-bit arithmetic wraps (Prelude.Words), as in a release
-- build, where the `debug_assert`s are gone; heights are bytes. A panic is an outcome of `Result`.
-- Maps are association lists. The hash function is the parameter `Hasher`, any function from bytes to
-- digests of one size; the byte order of numbers is the parameter `LittleEndian`, and the hash function
-- of the checksums the parameter `Highway`. The RocksDB database is the parameter `Database`, whose
-- operations can fail; where a theorem relies on one that keeps what it is given and does not fail,
-- this is the hypothesis `Dictionary`. Locks are never poisoned, and shared pointers to entries
-- are the entries, which nothing changes. A reader sees the storage as it is when it is opened.
--
-- Fuel: `pbst_roots_loop` has 64 rounds, one for each bit; `compute_hash` 65 calls, since heights are
-- at most 64 and fall; `fold_values` as many rounds as there are values; `remove_from` as many as
-- there are entries; the deletions of `RocksDBStorage::truncate` 2 ^ 64, after which the position would
-- have wrapped around. The walks of Query and Query.Load take their fuel as an argument and end in
-- `panic` without it: it bounds how deep the calls are nested, and 65 is enough for `get` and
-- `get_sample`, since the heights fall; as many rounds as there
-- are entries are enough for `read_entry`, `load_entry` and `truncate`.
--
-- Not modelled: the devices on files
-- (src/storage/file.rs), which pass on to the file system; the inspection report and the command line. `BlockStorage` is modelled on `MemoryDevice` alone. The correctness of the cache is
-- stated on cache level 0, the level of `Slate::new`.
pub mod Prelude
pub mod Formula
pub mod Error
pub mod Hashing
pub mod Entry
pub mod Cache
pub mod Storage
pub mod Slate
pub mod Serialize
pub mod Sample
pub mod Checksum
pub mod Query
pub mod Tests
