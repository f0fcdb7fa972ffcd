-- ===== src/Formula/Arith.antt =====
-- src/formula.rs: powers of two, remainders and logarithms of a 64-bit index. An `Index` and a
-- height `j` (a `u8`) are numbers; their wrap is in the operations of Prelude/Words.
pub mod Mod
pub mod Logs
use stratified_hash_tree.Prelude.{ℕ, ◌-◌, ◌%◌, ◌^◌, bit_and, leb, if◌then◌else◌}
use stratified_hash_tree.Prelude.Words.{sub64, shl64, leading_zeros}

abbrev pub index_size : ℕ
index_size = 64

-- i mod 2^j.
unfoldable pub i_mod_2e : ℕ → ℕ → ℕ
i_mod_2e i j = if leb 64 j then i else bit_and i (sub64 (shl64 1 j) 1)

unfoldable pub pow2e : ℕ → ℕ
pow2e j = shl64 1 j

unfoldable pub ceil_log2 : ℕ → ℕ
ceil_log2 x = (index_size - leading_zeros (sub64 x 1)) % 2 ^ 8

-- `u64::ilog2` is the index of the highest one; the source never calls it with 0, where it panics.
unfoldable pub floor_log2 : ℕ → ℕ
floor_log2 x = (63 - leading_zeros x) % 2 ^ 8
