-- ===== src/Storage/Block/Stored.antt =====
-- The bytes of a stack of entries, and what is read back from them.
use mathlib.Core.List.{append_assoc}
use stratified_hash_tree.Prelude.{
  ℕ, ◌+◌, ◌^◌, ◌<◌, ◌≡◌, refl, ap, ◌∙◌, Bool, true, List, [], ◌∷◌, ◌++◌, All, Result, ok, length,
  ◌==◌, ==_iff, arith,
}
use stratified_hash_tree.Prelude.Words.{add32, add32_of_lt}
use stratified_hash_tree.Error.{Error}
use stratified_hash_tree.Hashing.{Hasher}
use stratified_hash_tree.Entry.{Address, Entry}
use stratified_hash_tree.Serialize.{LittleEndian, write_entry_to}
use stratified_hash_tree.Serialize.RoundTrip.{IsStorable, length-write_entry}
use stratified_hash_tree.Checksum.{Highway, write, write_delimiter}
use stratified_hash_tree.Storage.Device.{MemoryDevice}
use stratified_hash_tree.Storage.Laws.{position_of}
use stratified_hash_tree.Storage.Block.{
  storage_identifier, storage_version, write_data, read_data, read,
}
use stratified_hash_tree.Storage.Block.Cursor.{device_at, seek_start}
use stratified_hash_tree.Storage.Block.Frames.{
  frame, checksum_of, frame_outcome, length-frame, read_data-frame_outcome,
}

abbrev pub header : List ℕ
header = storage_identifier ++ (storage_version ∷ [])

module _ ⦃H : Hasher⦄ ⦃B : LittleEndian⦄ ⦃W : Highway⦄ where
  abbrev pub size_of : Entry → ℕ
  size_of e = length (write_entry_to e).1

  -- An entry with the delimiter that belongs to it.
  abbrev pub record_of : Entry → List ℕ
  record_of e = frame e (size_of e) (checksum_of e (size_of e))

  -- The file of a stack of entries, the newest first.
  abbrev pub stored : List Entry → List ℕ
  stored [] = header
  stored (e ∷ es) = stored es ++ record_of e

  -- Each entry can be held by the format, at the place where it stands.
  abbrev pub AreStored : List Entry → Type 0
  AreStored [] = Unit
  AreStored (e ∷ es) = IsStorable (length (stored es)) e × (size_of e + 12 < 2 ^ 32) × AreStored es

  pub length-record : (e : Entry) → length (record_of e) ≡ size_of e + 12
  length-record e = length-frame e (size_of e) (checksum_of e (size_of e))

  -- What `write_data` writes is the entry with its delimiter, and it returns their length.
  pub write_data-record :
      (e : Entry) → size_of e + 12 < 2 ^ 32 → write_data e ≡ (size_of e + 12, record_of e)
  unfolding write_data write write_delimiter
  write_data-record e small =
      let offset : add32 0 (size_of e) ≡ size_of e =
        add32_of_lt 0 (size_of e) (omega arith) ∙ omega arith in
      rw (offset, ← length-write_entry e)
        (ap (λ (l : List ℕ). (size_of e + 12, l))
          (append_assoc (write_entry_to e).1 (B.write 4 (size_of e))
            (B.write 8 (checksum_of e (size_of e)))))

  pub own_position : (p : ℕ) (e : Entry) → IsStorable p e → position_of e ≡ p
  own_position p e w = ap (λ (a : Address). a.position) w.own

  -- An entry that was written is read back, and the cursor is then behind its delimiter.
  pub read_data-record :
      (ro : Bool) (buffer pre rest : List ℕ) (e : Entry)
      → buffer ≡ pre ++ (record_of e ++ rest)
      → IsStorable (length pre) e
      → size_of e + 12 < 2 ^ 32
      → length buffer < 2 ^ 64
      → read_data (length pre) (device_at ro buffer (length pre))
        ≡ (ok e, device_at ro buffer (length pre + size_of e + 12))
  read_data-record ro buffer pre rest e eb w small room =
      let same : (size_of e == size_of e) ≡ true = (==_iff (size_of e) (size_of e)).1 refl in
      let sound : (checksum_of e (size_of e) == checksum_of e (size_of e)) ≡ true =
        (==_iff (checksum_of e (size_of e)) (checksum_of e (size_of e))).1 refl in
      let outcome : frame_outcome (length pre) e (size_of e) (checksum_of e (size_of e)) ≡ ok e =
        rw (same, sound) refl in
      read_data-frame_outcome ro buffer pre rest (length pre) e (size_of e)
        (checksum_of e (size_of e)) eb w small room (omega arith)
        (omega (arith, W.finish_small ((write_entry_to e).1 ++ B.write 4 (size_of e))))
      ∙ ap (λ (r : Result Error Entry). (r, device_at ro buffer (length pre + size_of e + 12)))
          outcome

  read_step :
      (ro : Bool) (buffer : List ℕ) (p q : ℕ) (e : Entry) (d : MemoryDevice)
      → read_data q (device_at ro buffer q) ≡ (ok e, d)
      → read (device_at ro buffer p) q ≡ ok e
  unfolding read
  read_step ro buffer p q e d found = rw (read, seek_start ro buffer p q, found) refl

  -- Every entry of a file is read at its own position, whatever follows.
  pub read-stored :
      (ro : Bool) (buffer rest : List ℕ) (es : List Entry) (q : ℕ)
      → buffer ≡ stored es ++ rest
      → AreStored es
      → length buffer < 2 ^ 64
      → All (λ e. read (device_at ro buffer q) (position_of e) ≡ ok e) es
  read-stored ro buffer rest [] q eb are room = tt
  read-stored ro buffer rest (e ∷ es) q eb are room =
      let at = own_position (length (stored es)) e are.0 in
      let eb' = eb ∙ append_assoc (stored es) (record_of e) rest in
      (
        ap (λ (p : ℕ). read (device_at ro buffer q) p) at
            ∙ read_step ro buffer q (length (stored es)) e _
                (read_data-record ro buffer (stored es) rest e eb' are.0 are.1 room),
        read-stored ro buffer (record_of e ++ rest) es q eb' are.2 room,
      )
