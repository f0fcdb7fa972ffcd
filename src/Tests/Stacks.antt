-- ===== src/Tests/Stacks.antt =====
-- Entries put into a `MemKVS` and taken out.
use stratified_hash_tree.Prelude.{ℕ, ◌≡◌, refl, [], ◌∷◌, true, ok, arith}
use stratified_hash_tree.Prelude.Map.{insert}
use stratified_hash_tree.Entry.{Entry}
use stratified_hash_tree.Slate.{address}
use stratified_hash_tree.Storage.Kvs.{Kvs, truncate}
use stratified_hash_tree.Storage.Kvs.Lawful.{
  KvsHolds, put-KvsHolds, truncate-KvsHolds, empty-KvsHolds,
}

-- A leaf of index `i`, stored under `i`.
abbrev leaf_entry : ℕ → Entry
leaf_entry i = record {
  enode = record {
    meta = record { address = address i 0 i; hash = record { value = 9 ∷ [] } };
    payload = i ∷ [];
  };
  inodes = [];
}

abbrev three_stored : Kvs
three_stored = insert 3 (leaf_entry 3) (insert 2 (leaf_entry 2) (insert 1 (leaf_entry 1) []))

three_stored-KvsHolds : KvsHolds three_stored (leaf_entry 3 ∷ leaf_entry 2 ∷ leaf_entry 1 ∷ []) 4
three_stored-KvsHolds =
    put-KvsHolds _ _ 3 (leaf_entry 3)
      (put-KvsHolds _ _ 2 (leaf_entry 2)
        (put-KvsHolds [] [] 1 (leaf_entry 1) empty-KvsHolds refl (omega arith)) refl (omega arith))
      refl (omega arith)

-- The third and the second entry are dropped.
truncate_example :
    (st' : Kvs) × (truncate three_stored 2 ≡ (ok true, st')) × KvsHolds st' (leaf_entry 1 ∷ []) 2
truncate_example =
    truncate-KvsHolds three_stored (leaf_entry 3 ∷ []) (leaf_entry 1 ∷ []) (leaf_entry 2) 4
      three_stored-KvsHolds
