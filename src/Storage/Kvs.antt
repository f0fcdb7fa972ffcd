-- ===== src/Storage/Kvs.antt =====
-- src/storage/memory.rs: `MemKVS`, a storage that keeps the entries themselves under their
-- positions. The lock around the map is taken to be never poisoned.
pub mod Cut
pub mod Ahead
pub mod Lawful
use stratified_hash_tree.Prelude.{
  ℕ, zero, suc, Option, none, some, Bool, not, Result, ok, err, length, ◌==◌, if◌then◌else◌,
}
use stratified_hash_tree.Prelude.Words.{add64}
use stratified_hash_tree.Prelude.Map.{Map, lookup, insert, remove}
use stratified_hash_tree.Error.{Error, io}
use stratified_hash_tree.Entry.{Entry}
use stratified_hash_tree.Storage.{Storage, Visitor, called}

abbrev pub Kvs : Type 0
Kvs = Map Entry

-- Returns the last entry, as the source does.
unfoldable pub first : Kvs → Result Error (Option Entry × ℕ) × Kvs
first kvs = let n = length kvs in (ok (lookup n kvs, add64 n 1), kvs)

unfoldable pub last : Kvs → Result Error (Option Entry × ℕ) × Kvs
last kvs =
    let n = length kvs in
    if n == 0 then (ok (none, 1), kvs) else (ok (lookup n kvs, add64 n 1), kvs)

unfoldable pub put : Kvs → ℕ → Entry → Result Error ℕ × Kvs
put kvs position entry = let kvs' = insert position entry kvs in (ok (add64 (length kvs') 1), kvs')

-- `while kvs.remove(&p).is_some()`: each round takes an entry out, so their number is fuel enough.
pub remove_from : ℕ → ℕ → Kvs → ℕ × Kvs
remove_from zero p kvs = (p, kvs)
remove_from (suc fuel) p kvs = elim (lookup p kvs) [
  | none ↦ (p, kvs)
  | some _ ↦ remove_from fuel (add64 p 1) (remove p kvs)
]

unfoldable pub truncate : Kvs → ℕ → Result Error Bool × Kvs
unfolding remove_from
truncate kvs position =
    let (p, kvs') = remove_from (length kvs) position kvs in (ok (not (p == position)), kvs')

unfoldable pub reader : Kvs → Result Error Kvs
reader kvs = ok kvs

unfoldable pub read : Kvs → ℕ → Result Error Entry
read kvs position = elim (lookup position kvs) [ none ↦ err io | some entry ↦ ok entry ]

-- The loop of `scan`: so many rounds are left, the next is number `i`.
unfoldable pub scan_rounds :
    {X C : Type 0} → ℕ → ℕ → ℕ → ℕ → Kvs → Visitor X C → C → Result Error ℕ × C
scan_rounds zero i read position kvs callback c = (ok read, c)
scan_rounds (suc left) i read position kvs callback c = elim (lookup (add64 position i) kvs) [
  | some data' ↦
      called (λ c'. scan_rounds left (suc i) (add64 read 1) position kvs callback c')
        (callback data' c)
  | none ↦ (ok read, c)
]

unfoldable pub scan : {X C : Type 0} → Kvs → ℕ → ℕ → Visitor X C → C → Result Error ℕ × C
unfolding scan_rounds
scan kvs position count callback c = scan_rounds count 0 0 position kvs callback c

-- The implementation of the trait.
abbrev pub kvs_storage : Storage
kvs_storage = record {
  State = Kvs;
  Reader = Kvs;
  first = first;
  last = last;
  put = put;
  truncate = truncate;
  reader = reader;
  read = read;
  scan = scan;
}
