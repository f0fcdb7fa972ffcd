-- ===== src/Tests.antt =====
-- Concrete inputs: a small hash function and byte order, and the theorems at values of theirs.
mod Trees
mod Appends
mod Bytes
mod Samples
mod Reopened
mod Stacks
mod Blocks
mod Rocks
use stratified_hash_tree.Prelude.{ℕ, zero, suc, ◌+◌, ◌*◌, ◌%◌, ◌≡◌, refl, List, [], ◌∷◌}
use stratified_hash_tree.Hashing.{Hasher}

abbrev total : List ℕ → ℕ
total [] = 0
total (x ∷ xs) = (x + 3 * total xs) % 256

-- A digest of one byte.
instance abbrev pub byte_hasher : Hasher
byte_hasher = record { size = 1; digest = λ bytes. total bytes ∷ []; length-digest = λ bytes. refl }

-- The value of index `i` is two bytes.
abbrev pub payload : ℕ → List ℕ
payload i = i % 256 ∷ 7 ∷ []
