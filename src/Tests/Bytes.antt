-- ===== src/Tests/Bytes.antt =====
-- A byte order, and an entry of two leaves as bytes.
use native.Mathlib.Nat.{pow-suc}
use stratified_hash_tree.Prelude.{
  ℕ, zero, suc, ◌+◌, ◌*◌, ◌/◌, ◌%◌, ◌^◌, ◌<◌, ◌≡◌, refl, ap, List, [], ◌∷◌, ◌++◌, ok, length, arith,
}
use stratified_hash_tree.Entry.{Entry}
use stratified_hash_tree.Slate.{address}
use stratified_hash_tree.Serialize.{LittleEndian, read_entry_from, write_entry_to}
use stratified_hash_tree.Serialize.RoundTrip.{
  IsStorable, read_entry-write_entry, length-write_entry,
}
use stratified_hash_tree.Tests.{byte_hasher}

abbrev pub low_first : ℕ → ℕ → List ℕ
low_first zero n = []
low_first (suc width) n = n % 256 ∷ low_first width (n / 256)

abbrev pub from_low : ℕ → List ℕ → ℕ
from_low zero bytes = 0
from_low (suc width) [] = 0
from_low (suc width) (b ∷ bytes) = b + 256 * from_low width bytes

pub length-low_first : (width n : ℕ) → length (low_first width n) ≡ width
length-low_first zero n = refl
length-low_first (suc width) n = ap suc (length-low_first width (n / 256))

pub from_low-low_first : (width n : ℕ) → n < 256 ^ width → from_low width (low_first width n) ≡ n
from_low-low_first zero n h = omega arith
from_low-low_first (suc width) n h =
    omega (arith, from_low-low_first width (n / 256) (omega (arith, h, pow-suc 256 width)))

instance abbrev pub little_endian : LittleEndian
little_endian = record {
  write = low_first;
  read = from_low;
  length-write = length-low_first;
  read-write = from_low-low_first;
}

-- The second entry: the node over both leaves, and the leaf.
abbrev pub second : Entry
second = record {
  enode = record {
    meta = record { address = address 2 0 77; hash = record { value = 9 ∷ [] } };
    payload = 1 ∷ 2 ∷ 3 ∷ [];
  };
  inodes =
      record {
        meta = record { address = address 2 1 77; hash = record { value = 8 ∷ [] } };
        left = address 1 0 4;
        right = address 2 0 77;
      }
      ∷ [];
}

pub second-IsStorable : IsStorable 77 second
second-IsStorable = record {
  index = omega arith;
  own = refl;
  few = omega arith;
  inodes = (
    record {
      own_i = refl;
      own_position = refl;
      low = omega arith;
      high = omega arith;
      hash_size = refl;
      left_i = omega arith;
      left_position = omega arith;
      right = refl;
    },
    tt,
  );
  small = omega arith;
  hash_size = refl;
}

read_entry_example :
    read_entry_from 77 ((write_entry_to second).1 ++ (5 ∷ 6 ∷ [])) ≡ ok (second, 5 ∷ 6 ∷ [])
read_entry_example = read_entry-write_entry 77 second (5 ∷ 6 ∷ []) second-IsStorable

length-write_entry_example : length (write_entry_to second).1 ≡ (write_entry_to second).0
length-write_entry_example = length-write_entry second
