-- ===== src/Tests/Blocks.antt =====
-- A small checksum, a slate on a file in memory, and files by hand.
use stratified_hash_tree.Prelude.{
  ℕ, ◌+◌, ◌%◌, ◌^◌, ◌≤◌, ◌<◌, ◌≡◌, refl, false, true, List, [], ◌∷◌, ◌++◌, ok, length, arith,
}
use stratified_hash_tree.Entry.{Entry}
use stratified_hash_tree.Slate.{max_payload_size, address, Slate}
use stratified_hash_tree.Serialize.{write_entry_to, write_inodes_to, write_inode_list}
use stratified_hash_tree.Serialize.RoundTrip
use stratified_hash_tree.Checksum.{Highway}
use stratified_hash_tree.Storage.Block.{BlockStorage, block_storage, truncate, read_data, put}
use stratified_hash_tree.Storage.Block.Cursor.{device_at}
use stratified_hash_tree.Storage.Block.Frames.{frame, frame_outcome, read_data-frame_outcome}
use stratified_hash_tree.Storage.Block.Stored.{header, size_of}
use stratified_hash_tree.Storage.Block.Boot.{Booted, boot-Booted}
use stratified_hash_tree.Storage.Block.Lawful.{
  block-Lawful, storage_of, new_storage, last-new_storage, BlockHolds, put-BlockHolds,
  truncate-BlockHolds, empty-BlockHolds,
}
use stratified_hash_tree.Slate.Run.{Run}
use stratified_hash_tree.Slate.Sizes.{entry_size_lt}
use stratified_hash_tree.Slate.OnBlocks.{block_position, block_log, new_slate, new_slate-Finds}
use stratified_hash_tree.Query.Served.{Finds}
use stratified_hash_tree.Query.Load.{with_cache_level, load_metadata, load_latest}
use stratified_hash_tree.Tests.{byte_hasher, payload}
use stratified_hash_tree.Tests.Bytes.{little_endian}

instance abbrev weak_highway : Highway
weak_highway = record { finish = λ bytes. length bytes % 256; finish_small = λ bytes. omega arith }

small_value : (i : ℕ) → length (payload i) ≤ max_payload_size
small_value i = omega arith

file_of_three : block_position payload 4 < 2 ^ 63
file_of_three = omega (
  arith,
  entry_size_lt 1 (length (payload 1)) (omega arith) (small_value 1),
  entry_size_lt 2 (length (payload 2)) (omega arith) (small_value 2),
  entry_size_lt 3 (length (payload 3)) (omega arith) (small_value 3),
)

new_slate-Finds_example :
    (s : Slate block_storage) × Run block_storage block-Lawful
      (block_log payload)
      (new_slate payload)
      3
      s
    × ((t : ℕ) → 0 < t → t ≤ 3 → Finds block_storage block-Lawful (block_log payload) 3 s t)
new_slate-Finds_example =
    new_slate-Finds payload (omega arith) 3 (omega arith) file_of_three small_value

-- A leaf whose entry stands at a position.
abbrev pub leaf_at : ℕ → Entry
leaf_at position = record {
  enode = record {
    meta = record { address = address 1 0 position; hash = record { value = 9 ∷ [] } };
    payload = 5 ∷ [];
  };
  inodes = [];
}

pub leaf_at-IsStorable : (position : ℕ) → RoundTrip.IsStorable position (leaf_at position)
leaf_at-IsStorable position = record {
  index = omega arith;
  own = refl;
  few = omega arith;
  inodes = tt;
  small = omega arith;
  hash_size = refl;
}

size-leaf_at : (position : ℕ) → size_of (leaf_at position) ≡ 15
unfolding write_entry_to write_inodes_to write_inode_list
size-leaf_at position = RoundTrip.length-write_entry (leaf_at position)

abbrev second_position : ℕ
second_position = 4 + (size_of (leaf_at 4) + 12)

two_leaves-BlockHolds :
    (st : BlockStorage) × BlockHolds st
      (leaf_at second_position ∷ leaf_at 4 ∷ [])
      (second_position + (size_of (leaf_at second_position) + 12))
two_leaves-BlockHolds =
    let (st, put, holds) =
      put-BlockHolds (storage_of []) [] 4 (leaf_at 4) empty-BlockHolds
        (leaf_at-IsStorable 4, omega (arith, size-leaf_at 4), omega (arith, size-leaf_at 4)) in
    let (st', put', holds') =
      put-BlockHolds st (leaf_at 4 ∷ []) second_position (leaf_at second_position) holds (
        leaf_at-IsStorable second_position,
        omega (arith, size-leaf_at second_position),
        omega (arith, size-leaf_at 4, size-leaf_at second_position),
      ) in
    (st', holds')

truncate-BlockHolds_example :
    (st' : BlockStorage) × (truncate two_leaves-BlockHolds.0 4 ≡ (ok true, st'))
    × BlockHolds st' [] 4
truncate-BlockHolds_example =
    truncate-BlockHolds two_leaves-BlockHolds.0 (leaf_at second_position ∷ []) [] (leaf_at 4)
      (second_position + (size_of (leaf_at second_position) + 12)) two_leaves-BlockHolds.1

boot-Booted_example : Booted false (leaf_at second_position ∷ leaf_at 4 ∷ []) 0
boot-Booted_example =
    boot-Booted false (leaf_at second_position ∷ leaf_at 4 ∷ []) 0 two_leaves-BlockHolds.1.are
      (omega (arith, two_leaves-BlockHolds.1.in_range, two_leaves-BlockHolds.1.next_position))

-- A file whose first entry has an offset that is one too small.
abbrev damaged : List ℕ
damaged = header ++ (frame (leaf_at 4) 14 3 ++ [])

length-damaged : length damaged ≡ 31
unfolding write_entry_to write_inodes_to write_inode_list
length-damaged = refl

-- A new file gets its header when the slate is opened.
new_slate-with_cache_level : with_cache_level block_storage new_storage 0 ≡ ok (new_slate payload)
unfolding with_cache_level load_metadata load_latest
new_slate-with_cache_level = rw last-new_storage refl

frame_outcome_example :
    read_data 4 (device_at true damaged 4)
    ≡ (frame_outcome 4 (leaf_at 4) 14 3, device_at true damaged (4 + size_of (leaf_at 4) + 12))
frame_outcome_example =
    read_data-frame_outcome true damaged header [] 4 (leaf_at 4) 14 3 refl (leaf_at-IsStorable 4)
      (omega (arith, size-leaf_at 4)) (omega (arith, length-damaged)) (omega arith) (omega arith)
