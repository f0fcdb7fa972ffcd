-- ===== src/Tests/Rocks.antt =====
-- A database that is a dictionary, and a slate on it.
use stratified_hash_tree.Prelude.{
  ℕ, ◌≤◌, ◌<◌, ◌≡◌, ◌≢◌, refl, ap, ◌∙◌, sym, Option, none, some, Bool, true, false, List, [], ◌∷◌,
  ok, length, ◌==◌, ==_iff, if◌then◌else◌, arith,
}
use stratified_hash_tree.Slate.{max_payload_size, Slate}
use stratified_hash_tree.Slate.Run.{Run}
use stratified_hash_tree.Slate.OnRocks.{new-RocksHolds, rocks_log, rocks_slate, rocks_slate-Finds}
use stratified_hash_tree.Query.Served.{Finds}
use stratified_hash_tree.Query.Load.{with_cache_level}
use stratified_hash_tree.Tests.{byte_hasher, payload}
use stratified_hash_tree.Tests.Bytes.{little_endian}
use stratified_hash_tree.Storage.Rocks.{Database, RocksDbStorage, truncate, new, rocks_storage}
use stratified_hash_tree.Storage.Rocks.Lawful.{put-RocksHolds, truncate-RocksHolds, rocks-Lawful}
use stratified_hash_tree.Storage.Rocks.Filed.{RocksHolds}
use stratified_hash_tree.Tests.Blocks.{leaf_at, leaf_at-IsStorable}
use stratified_hash_tree.Storage.Rocks.Keys.{create_key, create_key_ne}
use stratified_hash_tree.Storage.Rocks.Dictionary.{Dictionary}

abbrev pub same_bytes : List ℕ → List ℕ → Bool
same_bytes [] [] = true
same_bytes [] (y ∷ ys) = false
same_bytes (x ∷ xs) [] = false
same_bytes (x ∷ xs) (y ∷ ys) = if x == y then same_bytes xs ys else false

pub same_bytes_self : (k : List ℕ) → same_bytes k k ≡ true
same_bytes_self [] = refl
same_bytes_self (x ∷ xs) = rw ((==_iff x x).1 refl) (same_bytes_self xs)

pub same_bytes-eq : (k other : List ℕ) → same_bytes k other ≡ true → k ≡ other
same_bytes-eq [] [] e = refl
same_bytes-eq [] (y ∷ ys) e = absurd (ground arith)
same_bytes-eq (x ∷ xs) [] e = absurd (ground arith)
same_bytes-eq (x ∷ xs) (y ∷ ys) e = ground (arith, same_bytes-eq xs ys)

pub same_bytes_other : (k other : List ℕ) → k ≢ other → same_bytes k other ≡ false
same_bytes_other k other ne = ground (arith, same_bytes-eq k other)

abbrev pub Table : Type 0
Table = List (List ℕ × List ℕ)

abbrev pub look : Table → List ℕ → Option (List ℕ)
look [] k = none
look ((key, value) ∷ rest) k = if same_bytes key k then some value else look rest k

abbrev pub without : Table → List ℕ → Table
without [] k = []
without ((key, value) ∷ rest) k =
    let others = without rest k in if same_bytes key k then others else (key, value) ∷ others

same_bytes_left :
    (key k other : List ℕ) → same_bytes key k ≡ true → same_bytes key other ≡ same_bytes k other
same_bytes_left key k other e = ap (λ (l : List ℕ). same_bytes l other) (same_bytes-eq key k e)

same_bytes_right :
    (key k other : List ℕ) → same_bytes k other ≡ true → same_bytes key other ≡ same_bytes key k
same_bytes_right key k other e = ap (same_bytes key) (sym (same_bytes-eq k other e))

pub look-without :
    (t : Table) (k other : List ℕ)
    → look (without t k) other ≡ (if same_bytes k other then none else look t other)
look-without [] k other = ground arith
look-without ((key, value) ∷ rest) k other =
    ground
      (arith, look-without rest k other, same_bytes_left key k other, same_bytes_right key k other)

instance abbrev pub table_database : Database
table_database = record {
  State = Table;
  get = λ t k. ok (look t k);
  put = λ t k value. (ok tt, (k, value) ∷ without t k);
  delete = λ t k. (ok tt, without t k);
}

pub look_put :
    (t : Table) (k value : List ℕ)
    → (look ((k, value) ∷ without t k) k ≡ some value)
      × ((other : List ℕ) → k ≢ other → look ((k, value) ∷ without t k) other ≡ look t other)
look_put t k value = (
  rw (same_bytes_self k) refl,
  λ other ne.
      (let apart = same_bytes_other k other ne in
        rw apart (look-without t k other ∙ rw apart refl)),
)

pub look_delete :
    (t : Table) (k : List ℕ)
    → (look (without t k) k ≡ none)
      × ((other : List ℕ) → k ≢ other → look (without t k) other ≡ look t other)
look_delete t k = (
  look-without t k k ∙ rw (same_bytes_self k) refl,
  λ other ne. look-without t k other ∙ rw (same_bytes_other k other ne) refl,
)

instance abbrev pub table_dictionary : Dictionary
table_dictionary = record {
  contents = look;
  get_lem = λ t k. refl;
  put_lem =
      λ t k value. (let put = look_put t k value in ((k, value) ∷ without t k, refl, put.0, put.1));
  delete_lem = λ t k. (let deleted = look_delete t k in (without t k, refl, deleted.0, deleted.1));
}

-- The prefix of the keys.
abbrev prefix : List ℕ
prefix = 0x74 ∷ 0x2f ∷ []

small_value : (i : ℕ) → length (payload i) ≤ max_payload_size
small_value i = omega arith

rocks_slate-Finds_example :
    (with_cache_level rocks_storage (new [] prefix true) 0
      ≡ ok (rocks_slate payload [] prefix true))
    × (s : Slate rocks_storage) × Run rocks_storage rocks-Lawful
        (rocks_log payload [] prefix true)
        (rocks_slate payload [] prefix true)
        5
        s
    × ((t : ℕ)
        → 0 < t
        → t ≤ 5
        → Finds rocks_storage rocks-Lawful (rocks_log payload [] prefix true) 5 s t)
rocks_slate-Finds_example =
    rocks_slate-Finds payload [] prefix true (λ i room. refl) (omega arith) 5 (omega arith)
      small_value

scrambled_two :
    create_key 2 true prefix ≡ 0x74 ∷ 0x2f ∷ 219 ∷ 210 ∷ 56 ∷ 151 ∷ 58 ∷ 43 ∷ 20 ∷ 138 ∷ []
unfolding create_key
scrambled_two = refl

create_key_ne_example : create_key 1 true prefix ≢ create_key 2 true prefix
create_key_ne_example = create_key_ne true prefix 1 2 (omega arith) (omega arith) (omega arith)

two_leaves-RocksHolds : (st : RocksDbStorage) × RocksHolds st (leaf_at 2 ∷ leaf_at 1 ∷ []) 3
two_leaves-RocksHolds =
    let (st, put, holds) =
      put-RocksHolds (new [] prefix true) [] 1 (leaf_at 1)
        (new-RocksHolds payload [] prefix true (λ i room. refl)) (leaf_at-IsStorable 1)
        (omega arith) in
    let (st', put', holds') =
      put-RocksHolds st (leaf_at 1 ∷ []) 2 (leaf_at 2) holds (leaf_at-IsStorable 2) (omega arith) in
    (st', holds')

-- The second leaf is dropped.
truncate-RocksHolds_example :
    (st' : RocksDbStorage) × (truncate two_leaves-RocksHolds.0 2 ≡ (ok true, st'))
    × RocksHolds st' (leaf_at 1 ∷ []) 2
truncate-RocksHolds_example =
    truncate-RocksHolds two_leaves-RocksHolds.0 [] (leaf_at 1 ∷ []) (leaf_at 2) 3
      two_leaves-RocksHolds.1
