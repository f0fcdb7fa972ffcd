-- ===== src/Storage/Rocks/Scan.antt =====
-- `scan` of a `RocksDBStorage` over a dictionary.
use mathlib.Core.Path.{subst}
use stratified_hash_tree.Prelude.{
  ℕ, zero, suc, ◌+◌, ◌^◌, ◌<◌, ◌≡◌, refl, sym, ap, ap₂, ◌∙◌, none, some, List, [], ◌∷◌, length,
  take, arith,
}
use stratified_hash_tree.Prelude.Words.{add64, add64_of_lt}
use stratified_hash_tree.Hashing.{Hasher}
use stratified_hash_tree.Entry.{Entry}
use stratified_hash_tree.Serialize.{LittleEndian}
use stratified_hash_tree.Serialize.RoundTrip.{IsStorable}
use stratified_hash_tree.Storage.{Visitor, called}
use stratified_hash_tree.Storage.Laws.{position_of, pile, length-pile, visit, called_agree, Scans}
use stratified_hash_tree.Storage.Rocks.{
  Database, RocksDbStorage, key, scan, scan_rounds, rocks_storage,
}
use stratified_hash_tree.Storage.Rocks.Dictionary.{Dictionary}
use stratified_hash_tree.Storage.Rocks.Deleted.{at}
use stratified_hash_tree.Storage.Rocks.Filed.{
  bytes_of, read-bytes_of, own_position, Filed, RocksHolds, reader_of,
}

module _ ⦃H : Hasher⦄ ⦃B : LittleEndian⦄ ⦃D : Database⦄ ⦃L : Dictionary⦄ where
  -- From the position on, these entries stand one after the other, and then there is none.
  abbrev pub Ahead : RocksDbStorage → ℕ → List Entry → Type 0
  Ahead st k [] = at st st.db k ≡ none
  Ahead st k (e ∷ es) = IsStorable k e × (at st st.db k ≡ some (bytes_of e)) × Ahead st (suc k) es

  module _ {X C : Type 0} (st : RocksDbStorage) (callback : Visitor X C) where
    scan_rounds_last :
        (left read k : ℕ) (c : C)
        → at st st.db k ≡ none
        → scan_rounds (suc left) read k (reader_of st) callback c ≡ visit read [] callback c
    unfolding scan_rounds visit key
    scan_rounds_last left read k c absent =
        rw (scan_rounds, L.get_lem st.db (key st k), absent) refl

    scan_rounds_step :
        (left read k : ℕ) (e : Entry) (c : C)
        → IsStorable k e
        → at st st.db k ≡ some (bytes_of e)
        → scan_rounds (suc left) read k (reader_of st) callback c
          ≡ called
              (λ c'. scan_rounds left (add64 read 1) (add64 k 1) (reader_of st) callback c')
              (callback e c)
    unfolding scan_rounds key
    scan_rounds_step left read k e c storable found =
        rw (scan_rounds, L.get_lem st.db (key st k), found, read-bytes_of k e storable) refl

    scan_rounds-visit :
        (left read k : ℕ) (es : List Entry) (c : C)
        → k + length es < 2 ^ 63
        → read + length es < 2 ^ 63
        → Ahead st k es
        → scan_rounds left read k (reader_of st) callback c ≡ visit read (take left es) callback c
    unfolding scan_rounds visit
    scan_rounds-visit zero read k es c room fits ahead = refl
    scan_rounds-visit (suc left) read k [] c room fits ahead = scan_rounds_last left read k c ahead
    scan_rounds-visit (suc left) read k (e ∷ es) c room fits ahead =
        let next : add64 k 1 ≡ suc k = add64_of_lt k 1 (omega arith) ∙ omega arith in
        let more : add64 read 1 ≡ suc read = add64_of_lt read 1 (omega arith) ∙ omega arith in
        scan_rounds_step left read k e c ahead.0 ahead.1
        ∙ called_agree _ _ (callback e c) (λ c'.
          ap₂ (λ (n m : ℕ). scan_rounds left n m (reader_of st) callback c') more next
          ∙ scan_rounds-visit left (suc read) (suc k) es c' (omega arith) (omega arith) ahead.2)

  Filed-pile :
      (st : RocksDbStorage) (later es : List Entry)
      → Filed st st.db (pile later es)
      → Filed st st.db es
  Filed-pile st [] es filed = filed
  Filed-pile st (e ∷ later) es filed = (Filed-pile st later (e ∷ es) filed).2

  -- The later entries of a stack stand behind the earlier ones.
  Filed-Ahead :
      (st : RocksDbStorage) (later es : List Entry)
      → length (pile later es) < 2 ^ 63
      → Filed st st.db (pile later es)
      → ((i : ℕ) → length (pile later es) < i → i < 2 ^ 64 → at st st.db i ≡ none)
      → Ahead st (suc (length es)) later
  Filed-Ahead st [] es room filed absent = absent (suc (length es)) (omega arith) (omega arith)
  Filed-Ahead st (e ∷ later) es room filed absent =
      let here = Filed-pile st later (e ∷ es) filed in
      (here.0, here.1, Filed-Ahead st later (e ∷ es) room filed absent)

  scan-Ahead :
      {X C : Type 0} (st : RocksDbStorage) (k count : ℕ) (es : List Entry) (callback : Visitor X C)
      (c : C)
      → k + length es < 2 ^ 63
      → Ahead st k es
      → scan (reader_of st) k count callback c ≡ visit 0 (take count es) callback c
  unfolding scan
  scan-Ahead st k count es callback c room ahead =
      scan_rounds-visit st callback count 0 k es c room (omega arith) ahead

  pub scan-RocksHolds :
      (st : RocksDbStorage) (es : List Entry) (p : ℕ)
      → RocksHolds st es p
      → Scans rocks_storage (reader_of st) es
  scan-RocksHolds st es p h later earlier e whole X C count callback c =
      let filed = subst (Filed st st.db) whole h.filed in
      let total = ap length whole ∙ length-pile later (e ∷ earlier) in
      let here : position_of e ≡ suc (length earlier) =
        own_position (suc (length earlier)) e (Filed-pile st later (e ∷ earlier) filed).0 in
      scan-Ahead st (position_of e) count (e ∷ later) callback c
        (omega (arith, here, total, h.next_position, h.in_range))
        (subst (λ (k : ℕ). Ahead st k (e ∷ later)) (sym here)
          (Filed-Ahead st (e ∷ later) earlier
            (omega (arith, ap length whole, h.next_position, h.in_range)) filed
            (λ i lt room. h.nothing_later i (omega (arith, ap length whole)) room)))
