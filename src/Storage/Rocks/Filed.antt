-- ===== src/Storage/Rocks/Filed.antt =====
-- How a stack of entries is kept in a dictionary, and what is read of it.
use mathlib.Core.List.{append-nil}
use native.Mathlib.Decide.{dec_le}
use stratified_hash_tree.Prelude.{
  ℕ, suc, ◌^◌, ◌≤◌, ◌<◌, ◌≡◌, refl, sym, ap, ◌∙◌, none, some, List, [], ◌∷◌, ◌++◌, All, arith, ok,
  length,
}
use stratified_hash_tree.Hashing.{Hasher}
use stratified_hash_tree.Entry.{Address, Entry}
use stratified_hash_tree.Serialize.{LittleEndian, read_entry_from, write_entry_to}
use stratified_hash_tree.Serialize.RoundTrip.{IsStorable, read_entry-write_entry}
use stratified_hash_tree.Storage.Laws.{position_of}
use stratified_hash_tree.Storage.Rocks.{Database, RocksDbStorage, RocksDbReader, key, last, read}
use stratified_hash_tree.Storage.Rocks.Dictionary.{Dictionary}
use stratified_hash_tree.Storage.Rocks.Deleted.{at}
use stratified_hash_tree.Storage.Rocks.Metadata.{marked}

module _ ⦃H : Hasher⦄ ⦃B : LittleEndian⦄ where
  -- The bytes that are read back as this entry.
  abbrev pub bytes_of : Entry → List ℕ
  bytes_of e = (write_entry_to e).1

  pub read-bytes_of :
      (p : ℕ) (e : Entry) → IsStorable p e → read_entry_from p (bytes_of e) ≡ ok (e, [])
  read-bytes_of p e w =
      ap (read_entry_from p) (sym (append-nil (bytes_of e))) ∙ read_entry-write_entry p e [] w

  pub own_position : (p : ℕ) (e : Entry) → IsStorable p e → position_of e ≡ p
  own_position p e w = ap (λ (a : Address). a.position) w.own

module _ ⦃H : Hasher⦄ ⦃B : LittleEndian⦄ ⦃D : Database⦄ ⦃L : Dictionary⦄ where
  -- The bytes of each entry stand under its own position, which count down to 1.
  abbrev pub Filed : RocksDbStorage → D.State → List Entry → Type 0
  Filed st g [] = Unit
  Filed st g (e ∷ es) =
      IsStorable (suc (length es)) e
      × (at st g (suc (length es)) ≡ some (bytes_of e))
      × Filed st g es

  pub record RocksHolds (st : RocksDbStorage) (es : List Entry) (p : ℕ) : Type 0 where
    pub own : st.key_for_metadata ≡ key st 0
    pub next_position : p ≡ suc (length es)
    pub in_range : p < 2 ^ 63
    pub mark : at st st.db 0 ≡ marked p
    pub filed : Filed st st.db es
    pub nothing_later : (i : ℕ) → length es < i → i < 2 ^ 64 → at st st.db i ≡ none

  -- A database that agrees on the positions of the entries still has them.
  pub Filed-agree :
      (st : RocksDbStorage) (g g' : D.State) (es : List Entry)
      → ((i : ℕ) → 0 < i → i ≤ length es → at st g' i ≡ at st g i)
      → Filed st g es
      → Filed st g' es
  Filed-agree st g g' [] agree filed = tt
  Filed-agree st g g' (e ∷ es) agree filed = (
    filed.0,
    agree (suc (length es)) (omega arith) (omega arith) ∙ filed.1,
    Filed-agree st g g' es (λ i pos le. agree i pos (omega arith)) filed.2,
  )

  abbrev pub reader_of : RocksDbStorage → RocksDbReader
  reader_of st = record { db = st.db; key_prefix = st.key_prefix; key_hashing = st.key_hashing }

  read_step :
      (st : RocksDbStorage) (p : ℕ) (e : Entry)
      → IsStorable p e
      → at st st.db p ≡ some (bytes_of e)
      → read (reader_of st) p ≡ ok e
  unfolding read key
  read_step st p e storable found =
      rw (read, L.get_lem st.db (key st p), found, read-bytes_of p e storable) refl

  pub read-Filed :
      (st : RocksDbStorage) (es : List Entry)
      → Filed st st.db es
      → All (λ e. read (reader_of st) (position_of e) ≡ ok e) es
  read-Filed st [] filed = tt
  read-Filed st (e ∷ es) filed = (
    ap (read (reader_of st)) (own_position (suc (length es)) e filed.0)
        ∙ read_step st (suc (length es)) e filed.0 filed.1,
    read-Filed st es filed.2,
  )

  pub Filed-present :
      (st : RocksDbStorage) (g : D.State) (es : List Entry)
      → Filed st g es
      → (i : ℕ) → 0 < i
      → i ≤ length es
      → (bytes : List ℕ) × (at st g i ≡ some bytes)
  Filed-present st g [] filed i pos le = absurd (omega arith)
  Filed-present st g (e ∷ es) filed i pos le = elim (dec_le i (length es)) [
    | yes before ↦ Filed-present st g es filed.2 i pos before
    | no last ↦
        let here : i ≡ suc (length es) = omega arith in (bytes_of e, ap (at st g) here ∙ filed.1)
  ]

  pub Filed-append :
      (st : RocksDbStorage) (g : D.State) (xs es : List Entry)
      → Filed st g (xs ++ es)
      → Filed st g es
  Filed-append st g [] es filed = filed
  Filed-append st g (x ∷ xs) es filed = Filed-append st g xs es filed.2
