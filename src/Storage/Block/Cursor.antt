-- ===== src/Storage/Block/Cursor.antt =====
-- What the operations of a device do with its cursor.
use mathlib.Core.List.{append-nil}
use stratified_hash_tree.Prelude.{
  ℕ, ◌+◌, ◌-◌, ◌^◌, ◌%◌, ◌≤◌, ◌<◌, ◌≡◌, refl, ap, ◌∙◌, Bool, true, false, List, [], ◌++◌, ok,
  length, take, drop, take-append, drop-append, length-append, length-drop, drop-length_le, ltb,
  arith,
}
use stratified_hash_tree.Prelude.Words.{add64, sub64, add64_of_lt}
use stratified_hash_tree.Hashing.{Hasher}
use stratified_hash_tree.Entry.{Entry}
use stratified_hash_tree.Serialize.{LittleEndian, read_entry_from, write_entry_to}
use stratified_hash_tree.Serialize.RoundTrip.{IsStorable, read_entry-write_entry}
use stratified_hash_tree.Checksum.{ChecksumRead, pass, read_serialized}
use stratified_hash_tree.Storage.Device.{
  MemoryDevice, start, current, end, target, seek, stream_position, read_exact, unread, write_all,
  overwrite, zeros, truncate,
}

-- A device by its parts.
abbrev pub device_at : Bool → List ℕ → ℕ → MemoryDevice
device_at read_only buffer position = record {
  read_only = read_only;
  buffer = buffer;
  position = position;
}

module _ (ro : Bool) (buffer : List ℕ) where
  pub seek_start :
      (p q : ℕ) → seek (start q) (device_at ro buffer p) ≡ (ok q, device_at ro buffer q)
  unfolding seek target
  seek_start p q = refl

  pub seek_end :
      (p : ℕ)
      → length buffer < 2 ^ 64
      → seek (end 0) (device_at ro buffer p)
        ≡ (ok (length buffer), device_at ro buffer (length buffer))
  unfolding seek target
  seek_end p h =
      let there : add64 (length buffer) 0 ≡ length buffer =
        add64_of_lt (length buffer) 0 (omega arith) ∙ omega arith in
      ap (λ (q : ℕ). (ok q, device_at ro buffer q)) there

  pub seek_back :
      (p n : ℕ)
      → n ≤ p
      → p < 2 ^ 64
      → seek (current (sub64 0 n)) (device_at ro buffer p)
        ≡ (ok (p - n), device_at ro buffer (p - n))
  unfolding seek target add64 sub64
  seek_back p n le h =
      ap (λ (q : ℕ). (ok q, device_at ro buffer q))
        (let there : (p + (0 + 2 ^ 64 - n) % 2 ^ 64) % 2 ^ 64 ≡ p - n = omega arith in there)

  pub stream_position_lem :
      (p : ℕ) → p < 2 ^ 64 → stream_position (device_at ro buffer p) ≡ (ok p, device_at ro buffer p)
  unfolding seek stream_position target
  stream_position_lem p h =
      ap (λ (q : ℕ). (ok q, device_at ro buffer q)) (add64_of_lt p 0 (omega arith) ∙ omega arith)

  pub read_exact_within :
      (p n : ℕ)
      → p + n ≤ length buffer
      → read_exact n (device_at ro buffer p)
        ≡ (ok (take n (drop p buffer)), device_at ro buffer (p + n))
  unfolding read_exact unread
  read_exact_within p n h =
      let enough : ltb (length (drop p buffer)) n ≡ false = ground (arith, length-drop p buffer) in
      rw (read_exact, unread, enough) refl

  pub read_exact_next :
      (pre bytes rest : List ℕ) (p n : ℕ)
      → buffer ≡ pre ++ (bytes ++ rest)
      → p ≡ length pre
      → n ≡ length bytes
      → read_exact n (device_at ro buffer p) ≡ (ok bytes, device_at ro buffer (p + n))
  read_exact_next pre bytes rest p n e ep en =
      let total : length buffer ≡ length pre + (length bytes + length rest) =
        ap length e
        ∙ length-append pre (bytes ++ rest)
        ∙ ap (λ (m : ℕ). length pre + m) (length-append bytes rest) in
      let left : drop p buffer ≡ bytes ++ rest = rw (ep, e) (drop-append pre (bytes ++ rest)) in
      let taken : take n (drop p buffer) ≡ bytes = rw (left, en) (take-append bytes rest) in
      read_exact_within p n (omega (arith, total))
      ∙ ap (λ (xs : List ℕ). (ok xs, device_at ro buffer (p + n))) taken

  module _ ⦃H : Hasher⦄ ⦃B : LittleEndian⦄ where
    pub read_serialized_next :
        (pre rest : List ℕ) (position : ℕ) (e : Entry) (r : ChecksumRead)
        → buffer ≡ pre ++ ((write_entry_to e).1 ++ rest)
        → IsStorable position e
        → read_serialized position r (device_at ro buffer (length pre)) ≡ (
          ok (e, pass (write_entry_to e).1 r),
          device_at ro buffer (length pre + length (write_entry_to e).1),
        )
    unfolding read_serialized unread
    read_serialized_next pre rest position e r eb w =
        let bytes = (write_entry_to e).1 in
        let left : drop (length pre) buffer ≡ bytes ++ rest =
          rw eb (drop-append pre (bytes ++ rest)) in
        let consumed : length (drop (length pre) buffer) - length rest ≡ length bytes =
          omega (arith, ap length left, length-append bytes rest) in
        let parsed : read_entry_from position (drop (length pre) buffer) ≡ ok (e, rest) =
          ap (read_entry_from position) left ∙ read_entry-write_entry position e rest w in
        let taken : take (length (drop (length pre) buffer) - length rest)
              (drop (length pre) buffer)
            ≡ bytes =
          rw (consumed, left) (take-append bytes rest) in
        rw (read_serialized, unread, parsed, taken) refl

  pub stream_length : (pre rest : List ℕ) → buffer ≡ pre ++ rest → length pre ≤ length buffer
  stream_length pre rest e = omega (arith, ap length e, length-append pre rest)

pub write_all_end :
    (buffer bytes : List ℕ)
    → write_all bytes (device_at false buffer (length buffer))
      ≡ (ok (length bytes), device_at false (buffer ++ bytes) (length buffer + length bytes))
unfolding write_all overwrite zeros
write_all_end buffer bytes =
    ap (λ (l : List ℕ). (ok (length bytes), device_at false l (length buffer + length bytes)))
      (let kept : take (length buffer) (buffer ++ zeros (length buffer - length buffer)) ≡ buffer =
          take-append buffer _ in
        let past : drop (length buffer + length bytes) buffer ≡ [] =
          drop-length_le (length buffer + length bytes) buffer (omega arith) in
        rw (kept, past) (ap (λ (l : List ℕ). buffer ++ l) (append-nil bytes)))

pub truncate_prefix :
    (pre rest : List ℕ) (p : ℕ)
    → 0 < length rest
    → truncate (length pre) (device_at false (pre ++ rest) p)
      ≡ (ok true, device_at false pre (length pre))
unfolding truncate
truncate_prefix pre rest p h =
    let inside : ltb (length pre) (length (pre ++ rest)) ≡ true =
      ground (arith, length-append pre rest) in
    rw (truncate, inside, take-append pre rest) refl
