-- ===== src/Serialize.antt =====
-- src/serialize.rs: an entry as bytes. A writer is the bytes that it has been given, and a reader
-- the bytes that are left. The byte order of the `byteorder` package is a parameter,
-- `LittleEndian`.
pub mod RoundTrip
use stratified_hash_tree.Prelude.{
  ℕ, zero, suc, ◌+◌, ◌-◌, ◌^◌, ◌%◌, ◌<◌, ◌≡◌, List, [], ◌∷◌, ◌++◌, Result, ok, err, panic, ◌>>=◌,
  length, take, drop, bit_and, ltb, if◌then◌else◌,
}
use stratified_hash_tree.Prelude.Words.{add8, sub8}
use stratified_hash_tree.Error.{Error, io}
use stratified_hash_tree.Formula.Arith.{index_size}
use stratified_hash_tree.Hashing.{Hasher, Hash}
use stratified_hash_tree.Entry.{Address, MetaInfo, INode, ENode, Entry}
use stratified_hash_tree.Slate.{max_payload_size, address}

-- What the code relies on: a number is written in the bytes of its width, and read back from them.
pub record LittleEndian : Type 0 where
  pub write : ℕ → ℕ → List ℕ
  pub read : ℕ → List ℕ → ℕ
  pub length-write : (width n : ℕ) → length (write width n) ≡ width
  pub read-write : (width n : ℕ) → n < 256 ^ width → read width (write width n) ≡ n

-- `read_exact`: an error when fewer bytes are left.
unfoldable pub read_exact : ℕ → List ℕ → Result Error (List ℕ × List ℕ)
read_exact n bytes = if ltb (length bytes) n then err io else ok (take n bytes, drop n bytes)

unfoldable pub read_u8 : List ℕ → Result Error (ℕ × List ℕ)
read_u8 [] = err io
read_u8 (b ∷ bytes) = ok (b, bytes)

module _ ⦃H : Hasher⦄ ⦃B : LittleEndian⦄ where
  unfoldable pub read_uint : ℕ → List ℕ → Result Error (ℕ × List ℕ)
  unfolding read_exact
  read_uint width bytes = do x ← read_exact width bytes; ok (B.read width x.0, x.1)

  -- One round of the loop over the inodes; of the first byte the lower six bits count.
  unfoldable pub read_inode : ℕ → ℕ → ℕ → List ℕ → Result Error (INode × List ℕ)
  unfolding read_u8 read_uint read_exact
  read_inode i position right_j bytes = do
    low ← read_u8 bytes
    let j = add8 (bit_and low.0 (sub8 index_size 1)) 1
    left_position ← read_uint 8 low.1
    left_i ← read_uint 8 left_position.1
    left_j ← read_u8 left_i.1
    hash ← read_exact H.size left_j.1
    ok (
      record {
        meta = record { address = address i j position; hash = record { value = hash.0 } };
        left = address left_i.0 left_j.0 left_position.0;
        right = address i right_j position;
      },
      hash.1,
    )

  unfoldable pub read_inode_list : ℕ → ℕ → ℕ → ℕ → List ℕ → Result Error (List INode × List ℕ)
  unfolding read_inode
  read_inode_list zero i position right_j bytes = ok ([], bytes)
  read_inode_list (suc count) i position right_j bytes = do
    x ← read_inode i position right_j bytes
    rest ← read_inode_list count i position x.0.meta.address.j x.1
    ok (x.0 ∷ rest.0, rest.1)

  unfoldable pub read_inodes_from : ℕ → List ℕ → Result Error ((ℕ × List INode) × List ℕ)
  unfolding read_inode_list read_uint read_u8
  read_inodes_from position bytes = do
    i ← read_uint 8 bytes
    inode_count ← read_u8 i.1
    inodes ← read_inode_list inode_count.0 i.0 position 0 inode_count.1
    ok ((i.0, inodes.0), inodes.1)

  unfoldable pub read_entry_from : ℕ → List ℕ → Result Error (Entry × List ℕ)
  unfolding read_inodes_from read_uint read_exact
  read_entry_from position bytes = do
    head ← read_inodes_from position bytes
    payload_size ← read_uint 4 head.1
    payload ← read_exact (bit_and payload_size.0 max_payload_size) payload_size.1
    hash ← read_exact H.size payload.1
    ok (
      record {
        enode = record {
          meta = record { address = address head.0.0 0 position; hash = record { value = hash.0 } };
          payload = payload.0;
        };
        inodes = head.0.1;
      },
      hash.1,
    )

  unfoldable pub write_inode : INode → List ℕ
  write_inode x =
      bit_and (sub8 x.meta.address.j 1) (sub8 index_size 1)
      ∷ (B.write 8 x.left.position ++ (B.write 8 x.left.i ++ (x.left.j ∷ x.meta.hash.value)))

  -- The loop over the inodes, and the length that it adds.
  unfoldable pub write_inode_list : List INode → ℕ × List ℕ
  unfolding write_inode
  write_inode_list [] = (0, [])
  write_inode_list (x ∷ xs) =
      let rest = write_inode_list xs in
      (1 + 8 + 8 + 1 + length x.meta.hash.value + rest.0, write_inode x ++ rest.1)

  unfoldable pub write_inodes_to : ℕ → List INode → ℕ × List ℕ
  unfolding write_inode_list
  write_inodes_to index inodes =
      let rest = write_inode_list inodes in
      (8 + 1 + rest.0, B.write 8 index ++ (length inodes % 2 ^ 8 ∷ rest.1))

  unfoldable pub write_entry_to : Entry → ℕ × List ℕ
  unfolding write_inodes_to
  write_entry_to entry =
      let head = write_inodes_to entry.enode.meta.address.i entry.inodes in
      (
        head.0 + (4 + length entry.enode.payload + length entry.enode.meta.hash.value),
        head.1
            ++ (B.write 4 (length entry.enode.payload % 2 ^ 32)
                ++ (entry.enode.payload ++ entry.enode.meta.hash.value)),
      )
