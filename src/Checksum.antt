-- ===== src/Checksum.antt =====
-- src/checksum.rs: what is written and read is measured and hashed on the way, and a delimiter with
-- both follows it. The hash function of the `highway` package is a parameter, `Highway`.
use stratified_hash_tree.Prelude.{
  ℕ, ◌+◌, ◌-◌, ◌^◌, ◌<◌, ◌==◌, not, List, [], ◌++◌, ok, err, panic, length, take, if◌then◌else◌,
}
use stratified_hash_tree.Prelude.Words.{add32, sub64}
use stratified_hash_tree.Error.{incorrect_entry_head_offset, checksum_verification_failed}
use stratified_hash_tree.Hashing.{Hasher}
use stratified_hash_tree.Entry.{Entry}
use stratified_hash_tree.Serialize.{LittleEndian, read_entry_from}
use stratified_hash_tree.Storage.Device.{
  Operation, done, fail, ◌>>=◌, ◌>>◌, start, unwrapped, seek, stream_position, read_exact, unread,
}

-- What the code relies on: the hash of the bytes passed so far is a number of 64 bits.
pub record Highway : Type 0 where
  pub finish : List ℕ → ℕ
  pub finish_small : (bytes : List ℕ) → finish bytes < 256 ^ 8

-- The hasher is the bytes that it was given.
pub record ChecksumWrite : Type 0 where
  pub output : List ℕ
  pub hasher : List ℕ
  pub offset : ℕ

pub record ChecksumRead : Type 0 where
  pub hasher : List ℕ
  pub offset : ℕ

-- The length of the delimiter, the offset and checksum that are there, and those that ought to be.
pub record Delimiter : Type 0 where
  pub length : ℕ
  pub offset : ℕ
  pub checksum : ℕ
  pub actual_offset : ℕ
  pub actual_checksum : ℕ

abbrev pub new_write : ChecksumWrite
new_write = record { output = []; hasher = []; offset = 0 }

abbrev pub new_read : ChecksumRead
new_read = record { hasher = []; offset = 0 }

unfoldable pub write : List ℕ → ChecksumWrite → ChecksumWrite
write bytes w = record {
  output = w.output ++ bytes;
  hasher = w.hasher ++ bytes;
  offset = add32 w.offset (length bytes);
}

-- What is read goes through the hasher, and is counted.
unfoldable pub pass : List ℕ → ChecksumRead → ChecksumRead
pass bytes r = record { hasher = r.hasher ++ bytes; offset = add32 r.offset (length bytes) }

unfoldable pub read : ℕ → ChecksumRead → Operation (List ℕ × ChecksumRead)
unfolding pass
read n r = do bytes ← read_exact n; done (bytes, pass bytes r)

module _ ⦃H : Hasher⦄ ⦃B : LittleEndian⦄ where
  -- `S::read` of an entry through the hasher: the bytes that it takes are passed on. Where it finds
  -- too few bytes, it has read all that are left.
  unfoldable pub read_serialized : ℕ → ChecksumRead → Operation (Entry × ChecksumRead)
  unfolding pass unread
  read_serialized position r d =
      let left = unread d in
      elim (read_entry_from position left) [
        | ok (e, rest) ↦
            let bytes = take (length left - length rest) left in
            (ok (e, pass bytes r), record d { position = d.position + length bytes })
        | err x ↦ (err x, record d { position = d.position + length left })
        | panic ↦ (panic, d)
      ]

module _ ⦃B : LittleEndian⦄ ⦃W : Highway⦄ where
  unfoldable pub write_delimiter : ChecksumWrite → ℕ × ChecksumWrite
  unfolding write
  write_delimiter w =
      let counted = write (B.write 4 w.offset) w in
      (
        12,
        record {
          output = counted.output ++ B.write 8 (W.finish counted.hasher);
          hasher = counted.hasher;
          offset = add32 counted.offset 8;
        },
      )

  unfoldable pub read_delimiter : ChecksumRead → Operation Delimiter
  unfolding read
  read_delimiter r = do
    counted ← read 4 r
    checksum ← read_exact 8
    done (record {
      length = 12;
      offset = B.read 4 counted.0;
      checksum = B.read 8 checksum;
      actual_offset = r.offset;
      actual_checksum = W.finish counted.1.hasher;
    })

  -- The bytes of the entry, read again to be printed; `unwrap` makes errors panics.
  unfoldable pub show_bytes : ℕ → Operation ℕ
  show_bytes n =
      unwrapped (do p ← stream_position; _ ← seek (start (p - n)); _ ← read_exact n; done n)

  unfoldable pub judge : Delimiter → Operation ℕ
  unfolding show_bytes
  judge x =
      if not (x.actual_offset == x.offset)
      then (show_bytes x.actual_offset
          >> fail (incorrect_entry_head_offset x.offset x.actual_offset))
      else if not (x.actual_checksum == x.checksum)
      then (do
        at ← stream_position
        let length = add32 x.offset 12
        fail (checksum_verification_failed (sub64 at length) length x.checksum x.actual_checksum))
      else done x.length

  unfoldable pub check_delimiter : ChecksumRead → Operation ℕ
  unfolding read_delimiter judge
  check_delimiter r = read_delimiter r >>= judge
