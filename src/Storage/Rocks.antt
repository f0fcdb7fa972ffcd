-- ===== src/Storage/Rocks.antt =====
-- src/storage/rocksdb.rs: `RocksDBStorage`, a storage that keeps the bytes of each entry in a
-- key-value database, under a key made from its position, and the next position under the key
-- of 0. The database, of the package `rocksdb`, is a parameter, `Database`. The lock around it is
-- taken to be never poisoned. The capacities of the buffers and the texts of the messages are
-- left out.
pub mod Keys
pub mod Dictionary
pub mod Deleted
pub mod Metadata
pub mod Filed
pub mod Scan
pub mod Lawful
use stratified_hash_tree.Prelude.{
  ℕ, zero, suc, Option, none, some, Bool, true, false, List, Result, ok, err, panic, ◌>>=◌, length,
  take, ltb, ◌==◌, if◌then◌else◌,
}
use stratified_hash_tree.Prelude.Words.{u64_mod, add64, sub64}
use stratified_hash_tree.Error.{Error, io}
use stratified_hash_tree.Hashing.{Hasher}
use stratified_hash_tree.Entry.{Entry}
use stratified_hash_tree.Serialize.{LittleEndian, read_entry_from, write_entry_to}
use stratified_hash_tree.Storage.{Storage, Visitor, called}
use stratified_hash_tree.Storage.Device.{zeros, overwrite}
use stratified_hash_tree.Storage.Rocks.Keys.{create_key}

-- `DB`: its operations, which can fail. Those that change it pass it on.
pub record Database : Type 1 where
  pub State : Type 0
  pub get : State → List ℕ → Result Error (Option (List ℕ))
  pub put : State → List ℕ → List ℕ → Result Error Unit × State
  pub delete : State → List ℕ → Result Error Unit × State

-- `?` after an operation that changes the database.
abbrev pub proceed :
    {G A B : Type 0} → (A → G → Result Error B × G) → Result Error A × G → Result Error B × G
proceed next (ok a, guard) = next a guard
proceed next (err e, guard) = (err e, guard)
proceed next (panic, guard) = (panic, guard)

-- The same after one that only looks into it.
abbrev pub proceed_with :
    {G A B : Type 0} → Result Error A → (A → G → Result Error B × G) → G → Result Error B × G
proceed_with looked next guard = proceed next (looked, guard)

abbrev pub key_not_found : {A : Type 0} → Result Error A
key_not_found = err io

module _ ⦃D : Database⦄ where
  pub record RocksDbStorage : Type 0 where
    pub db : D.State
    pub key_prefix : List ℕ
    pub key_hashing : Bool
    pub key_for_metadata : List ℕ

  pub record RocksDbReader : Type 0 where
    pub db : D.State
    pub key_prefix : List ℕ
    pub key_hashing : Bool

  unfoldable pub new : D.State → List ℕ → Bool → RocksDbStorage
  unfolding create_key
  new db key_prefix key_hashing = record {
    db = db;
    key_prefix = key_prefix;
    key_hashing = key_hashing;
    key_for_metadata = create_key 0 key_hashing key_prefix;
  }

  unfoldable pub key : RocksDbStorage → ℕ → List ℕ
  unfolding create_key
  key st i = create_key i st.key_hashing st.key_prefix

  -- The storage once its database has changed.
  abbrev pub with_db :
      {A : Type 0} → RocksDbStorage → Result Error A × D.State → Result Error A × RocksDbStorage
  with_db st (result, guard) = (result, record st { db = guard })

module _ ⦃B : LittleEndian⦄ ⦃D : Database⦄ where
  unfoldable pub get_metadata : RocksDbStorage → D.State → Result Error (Option ℕ)
  get_metadata st guard = do
    found ← D.get guard st.key_for_metadata
    elim found [
      | some value ↦ if ltb (length value) 8 then panic else ok (some (B.read 8 (take 8 value)))
      | none ↦ ok none
    ]

  -- Only the first eight bytes of the old value are written over.
  unfoldable pub set_metadata : RocksDbStorage → ℕ → D.State → Result Error Unit × D.State
  unfolding zeros overwrite
  set_metadata st next_position guard =
      if next_position == 1
      then D.delete guard st.key_for_metadata
      else proceed_with (D.get guard st.key_for_metadata)
          (λ found guard'.
            (let metadata : List ℕ = elim found [ some value ↦ value | none ↦ zeros 8 ] in
              D.put guard' st.key_for_metadata (overwrite 0 (B.write 8 next_position) metadata)))
          guard

  -- The loop of `truncate`, for so many rounds.
  unfoldable pub delete_from : ℕ → RocksDbStorage → ℕ → D.State → Result Error Unit × D.State
  unfolding key
  delete_from zero st p guard = (ok tt, guard)
  delete_from (suc fuel) st p guard = elim (D.get guard (key st p)) [
    | ok (some value) ↦
        proceed (λ _ guard'. delete_from fuel st (add64 p 1) guard') (D.delete guard (key st p))
    | ok none ↦ (ok tt, guard)
    | err e ↦ (err e, guard)
    | panic ↦ (panic, guard)
  ]

  -- `truncate`, with so many rounds of its loop at most.
  unfoldable pub truncate_within : ℕ → RocksDbStorage → ℕ → Result Error Bool × RocksDbStorage
  unfolding get_metadata set_metadata delete_from
  truncate_within rounds st position = with_db st (
      proceed_with (get_metadata st st.db)
        (λ metadata guard. elim metadata [
          | some next_position ↦
              if ltb position next_position
              then proceed (λ _ guard'. (ok true, guard'))
                  (proceed (λ _ guard'. set_metadata st position guard')
                    (delete_from rounds st position guard))
              else (ok false, guard)
          | none ↦ (ok false, guard)
        ])
        st.db)

  -- After 2 ^ 64 rounds the position would be the first one again, whose key is gone.
  unfoldable pub truncate : RocksDbStorage → ℕ → Result Error Bool × RocksDbStorage
  unfolding truncate_within
  truncate st position = truncate_within u64_mod st position

module _ ⦃H : Hasher⦄ ⦃B : LittleEndian⦄ ⦃D : Database⦄ where
  unfoldable pub first : RocksDbStorage → Result Error (Option Entry × ℕ) × RocksDbStorage
  unfolding key read_entry_from
  first st = (
    (do
      found ← D.get st.db (key st 1)
      elim found [
        | some value ↦ do entry ← read_entry_from 1 value; ok (some entry.0, 1)
        | none ↦ ok (none, 1)
      ]),
    st,
  )

  unfoldable pub last : RocksDbStorage → Result Error (Option Entry × ℕ) × RocksDbStorage
  unfolding key get_metadata read_entry_from
  last st = (
    (do
      metadata ← get_metadata st st.db
      elim metadata [
        | some next_position ↦ do
          let position = sub64 next_position 1
          found ← D.get st.db (key st position)
          elim found [
            | some value ↦ do
              entry ← read_entry_from position value
              ok (some entry.0, next_position)
            | none ↦ key_not_found
          ]
        | none ↦ ok (none, 1)
      ]),
    st,
  )

  unfoldable pub put : RocksDbStorage → ℕ → Entry → Result Error ℕ × RocksDbStorage
  unfolding key set_metadata write_entry_to
  put st position entry = with_db st (
      proceed (λ _ guard. (ok (add64 position 1), guard))
        (proceed (λ _ guard. set_metadata st (add64 position 1) guard)
          (D.put st.db (key st position) (write_entry_to entry).1)))

  unfoldable pub reader : RocksDbStorage → Result Error RocksDbReader
  reader st = ok (record { db = st.db; key_prefix = st.key_prefix; key_hashing = st.key_hashing })

  unfoldable pub read : RocksDbReader → ℕ → Result Error Entry
  unfolding create_key read_entry_from
  read r position = do
    found ← D.get r.db (create_key position r.key_hashing r.key_prefix)
    elim found [
      | some value ↦ do entry ← read_entry_from position value; ok entry.0
      | none ↦ key_not_found
    ]

  -- The loop of `scan`, with so many rounds left.
  unfoldable pub scan_rounds :
      {X C : Type 0} → ℕ → ℕ → ℕ → RocksDbReader → Visitor X C → C → Result Error ℕ × C
  unfolding create_key read_entry_from
  scan_rounds zero read position r callback c = (ok read, c)
  scan_rounds (suc left) read position r callback c =
      elim (D.get r.db (create_key position r.key_hashing r.key_prefix)) [
        | ok (some value) ↦ elim (read_entry_from position value) [
          | ok x ↦
              called (λ c'. scan_rounds left (add64 read 1) (add64 position 1) r callback c')
                (callback x.0 c)
          | err e ↦ (err e, c)
          | panic ↦ (panic, c)
        ]
        | ok none ↦ (ok read, c)
        | err e ↦ (err e, c)
        | panic ↦ (panic, c)
      ]

  unfoldable pub scan :
      {X C : Type 0} → RocksDbReader → ℕ → ℕ → Visitor X C → C → Result Error ℕ × C
  unfolding scan_rounds
  scan r position count callback c = scan_rounds count 0 position r callback c

  abbrev pub rocks_storage : Storage
  rocks_storage = record {
    State = RocksDbStorage;
    Reader = RocksDbReader;
    first = first;
    last = last;
    put = put;
    truncate = truncate;
    reader = reader;
    read = read;
    scan = scan;
  }
