-- ===== src/Error.antt =====
-- src/error.rs. The texts of the messages are left out, and so are the variants of the file,
-- RocksDB and foreign errors that the modelled code does not build.
use stratified_hash_tree.Prelude.{ℕ}

pub data Error : Type 0 where
  storage_is_not_for_slate : Error
  incompatible_version : ℕ → ℕ → Error
  too_large_payload : ℕ → Error
  damaged_storage : Error
  incorrect_entry_head_offset : ℕ → ℕ → Error
  checksum_verification_failed : ℕ → ℕ → ℕ → ℕ → Error
  internal_state_inconsistency : Error
  sample_verification_failed : Error
  invalid_argument : Error
  callback : Error
  io : Error
