-- ===== src/Storage/Block.antt =====
-- src/storage.rs: `BlockStorage`, entries one after the other on a device, here `MemoryDevice`. A
-- file begins with an identifier and a version; each entry is followed by its length and a
-- checksum.
pub mod Cursor
pub mod Frames
pub mod Stored
pub mod Scan
pub mod Ends
pub mod Boot
pub mod Lawful
use stratified_hash_tree.Prelude.{
  ℕ, zero, suc, ◌+◌, ◌-◌, ◌/◌, ◌^◌, ◌==◌, Bool, true, false, not, Option, none, some, List, [], ◌∷◌,
  ◌++◌, Result, ok, err, panic, length, take, get_elem?, bit_and, leb, ltb, if◌then◌else◌,
}
use stratified_hash_tree.Prelude.Words.{add64, sub64, add32}
use stratified_hash_tree.Error.{
  Error, storage_is_not_for_slate, incompatible_version, damaged_storage,
}
use stratified_hash_tree.Hashing.{Hasher}
use stratified_hash_tree.Entry.{Entry}
use stratified_hash_tree.Serialize.{LittleEndian, write_entry_to}
use stratified_hash_tree.Sample.{same_bytes}
use stratified_hash_tree.Checksum.{
  Highway, ChecksumWrite, new_write, new_read, write, write_delimiter, read_serialized,
  check_delimiter,
}
use stratified_hash_tree.Storage.{Storage, Visitor, called}
use stratified_hash_tree.Storage.Device.{
  MemoryDevice, Operation, done, fail, ◌>>=◌, ◌>>◌, start, current, end, seek, stream_position,
  read_exact, write_all, clone_device,
}
use stratified_hash_tree.Storage.Device

pub record BlockStorage : Type 0 where
  pub device : MemoryDevice
  pub position : ℕ

abbrev pub storage_identifier : List ℕ
storage_identifier = 1 ∷ 243 ∷ 51 ∷ []

abbrev pub storage_version : ℕ
storage_version = 1

unfoldable pub is_version_compatible : ℕ → Bool
is_version_compatible version = leb version storage_version

-- The first four bytes of a file that has as many.
unfoldable pub check_magic : List ℕ → Operation ℕ
unfolding is_version_compatible
check_magic [] = fail storage_is_not_for_slate
check_magic (a ∷ []) = fail storage_is_not_for_slate
check_magic (a ∷ b ∷ []) = fail storage_is_not_for_slate
check_magic (a ∷ b ∷ c ∷ []) = fail storage_is_not_for_slate
check_magic (a ∷ b ∷ c ∷ version ∷ rest) =
    if not (same_bytes (a ∷ b ∷ c ∷ []) storage_identifier)
    then fail storage_is_not_for_slate
    else if not (is_version_compatible version)
    then fail (incompatible_version (version / 2 ^ 4) (bit_and version 15))
    else done version

-- The first part of `boot`, by the length of the file.
unfoldable pub check_header : ℕ → Operation ℕ
unfolding check_magic
check_header zero = write_all storage_identifier >> write_all (storage_version ∷ [])
check_header (suc zero) = fail storage_is_not_for_slate
check_header (suc (suc zero)) = fail storage_is_not_for_slate
check_header (suc (suc (suc zero))) = fail storage_is_not_for_slate
check_header (suc (suc (suc (suc n)))) = do
  _ ← seek (start 0)
  buffer ← read_exact 4
  check_magic buffer

unfoldable pub back_to_safety : ℕ → Operation ℕ
back_to_safety distance = do
  from ← stream_position
  if ltb from (3 + 1 + distance) then fail damaged_storage else seek (current (sub64 0 distance))

-- `?` in `scan`, whose callback has a state `c`.
abbrev pub succeeded :
    {A B C : Type 0}
    → (A → MemoryDevice → Result Error B × C)
    → C
    → Result Error A × MemoryDevice
    → Result Error B × C
succeeded next c (ok a, d) = next a d
succeeded next c (err e, d) = (err e, c)
succeeded next c (panic, d) = (panic, c)

module _ ⦃H : Hasher⦄ ⦃B : LittleEndian⦄ ⦃W : Highway⦄ where
  -- The length and the bytes that `write_data` writes.
  unfoldable pub write_data : Entry → ℕ × List ℕ
  unfolding write write_delimiter
  write_data e =
      let (length, bytes) = write_entry_to e in
      let (more, w) = write_delimiter (write bytes new_write) in (length + more, w.output)

  unfoldable pub read_data : ℕ → Operation Entry
  unfolding read_serialized check_delimiter
  read_data position = do x ← read_serialized position new_read; _ ← check_delimiter x.1; done x.0

  unfoldable pub read_u32 : Operation ℕ
  read_u32 = do bytes ← read_exact 4; done (B.read 4 bytes)

  -- The last entry, from the end of the file at `next_position`.
  unfoldable pub boot_last : ℕ → Operation Entry
  unfolding read_data read_u32 back_to_safety
  boot_last next_position = do
    _ ← seek (end 0)
    _ ← back_to_safety (4 + 8)
    offset ← read_u32
    _ ← back_to_safety (add32 offset 4)
    position ← stream_position
    data' ← read_data position
    reached ← stream_position
    if reached == next_position then done data' else fail damaged_storage

  unfoldable pub boot_entries : ℕ → ℕ → Operation ((Option Entry × ℕ) × (Option Entry × ℕ))
  unfolding boot_last
  boot_entries first_position next_position = do
    _ ← seek (start first_position)
    first_entry ← read_data first_position
    latest_entry ← boot_last next_position
    done ((some first_entry, first_position), (some latest_entry, next_position))

  unfoldable pub boot : Operation ((Option Entry × ℕ) × (Option Entry × ℕ))
  unfolding boot_entries check_header
  boot = do
    length ← seek (end 0)
    _ ← check_header length
    first_position ← stream_position
    next_position ← seek (end 0)
    if next_position == first_position
        then done ((none, first_position), (none, next_position))
        else boot_entries first_position next_position

  unfoldable pub booted_first :
      BlockStorage
      → Result Error ((Option Entry × ℕ) × (Option Entry × ℕ)) × MemoryDevice
      → Result Error (Option Entry × ℕ) × BlockStorage
  booted_first st (ok found, d) = (ok found.0, record st { device = d })
  booted_first st (err e, d) = (err e, record st { device = d })
  booted_first st (panic, d) = (panic, record st { device = d })

  unfoldable pub booted_last :
      BlockStorage
      → Result Error ((Option Entry × ℕ) × (Option Entry × ℕ)) × MemoryDevice
      → Result Error (Option Entry × ℕ) × BlockStorage
  booted_last st (ok found, d) = (ok found.1, record { device = d; position = found.1.1 })
  booted_last st (err e, d) = (err e, record st { device = d })
  booted_last st (panic, d) = (panic, record st { device = d })

  unfoldable pub first : BlockStorage → Result Error (Option Entry × ℕ) × BlockStorage
  unfolding boot booted_first
  first st = booted_first st (boot st.device)

  unfoldable pub last : BlockStorage → Result Error (Option Entry × ℕ) × BlockStorage
  unfolding boot booted_last
  last st = booted_last st (boot st.device)

  -- `put` once the bytes are written, or not.
  unfoldable pub flushed :
      BlockStorage → ℕ → Result Error ℕ × MemoryDevice → Result Error ℕ × BlockStorage
  flushed st length (ok written, d) =
      let position = add64 st.position length in
      (ok position, record { device = d; position = position })
  flushed st length (err e, d) = (err e, record st { device = d })
  flushed st length (panic, d) = (panic, record st { device = d })

  -- The storage with its cursor at the position.
  unfoldable pub placed : BlockStorage → ℕ → BlockStorage
  placed st position =
      if st.position == position
      then st
      else record { device = (seek (start position) st.device).1; position = position }

  unfoldable pub put : BlockStorage → ℕ → Entry → Result Error ℕ × BlockStorage
  unfolding flushed placed write_data
  put st position e =
      let at = placed st position in
      let (length, bytes) = write_data e in flushed at length (write_all bytes at.device)

  unfoldable pub truncated :
      BlockStorage → ℕ → Result Error Bool × MemoryDevice → Result Error Bool × BlockStorage
  truncated st position (ok true, d) = (ok true, record { device = d; position = position })
  truncated st position (ok false, d) = (ok false, record st { device = d })
  truncated st position (err e, d) = (err e, record st { device = d })
  truncated st position (panic, d) = (panic, record st { device = d })

  unfoldable pub truncate : BlockStorage → ℕ → Result Error Bool × BlockStorage
  unfolding truncated
  truncate st position = truncated st position (Device.truncate position st.device)

  unfoldable pub reader : BlockStorage → Result Error MemoryDevice
  reader st = ok (clone_device st.device)

  unfoldable pub read : MemoryDevice → ℕ → Result Error Entry
  unfolding read_data
  read r position = ((do _ ← seek (start position); read_data position) r).0

  -- The loop of `scan`, while the position is before `last` and so many rounds are left.
  unfoldable pub scan_rounds :
      {X C : Type 0} → ℕ → ℕ → ℕ → ℕ → Visitor X C → MemoryDevice → C → Result Error ℕ × C
  unfolding read_data
  scan_rounds zero last read position callback d c = (ok read, c)
  scan_rounds (suc left) last read position callback d c = elim (ltb position last) [
    | true ↦
        succeeded
          (λ data' d'.
            called
              (λ c'.
                succeeded
                  (λ reached d''. scan_rounds left last (add64 read 1) reached callback d'' c') c'
                  (stream_position d'))
              (callback data' c))
          c (read_data position d)
    | false ↦ (ok read, c)
  ]

  unfoldable pub scan : {X C : Type 0} → MemoryDevice → ℕ → ℕ → Visitor X C → C → Result Error ℕ × C
  unfolding scan_rounds
  scan r position count callback c =
      succeeded
        (λ last d.
          (if ltb position last
            then succeeded (λ _ d'. scan_rounds count last 0 position callback d' c) c
                (seek (start position) d)
            else (ok 0, c)))
        c (seek (end 0) r)

  abbrev pub block_storage : Storage
  block_storage = record {
    State = BlockStorage;
    Reader = MemoryDevice;
    first = first;
    last = last;
    put = put;
    truncate = truncate;
    reader = reader;
    read = read;
    scan = scan;
  }
