-- ===== src/Storage/Rocks/Metadata.antt =====
-- The next position, as it is kept under the key of 0.
use mathlib.Core.List.{append-nil}
use stratified_hash_tree.Prelude.{
  ℕ, ◌+◌, ◌^◌, ◌≤◌, ◌<◌, ◌≡◌, refl, ap, ◌∙◌, Option, none, some, true, false, ok, List, length,
  take, take-length_le, drop-length_le, ltb, ◌==◌, if◌then◌else◌, Bool-cases, inl, inr, arith,
}
use stratified_hash_tree.Serialize.{LittleEndian}
use stratified_hash_tree.Storage.Device.{zeros, overwrite}
use stratified_hash_tree.Storage.Rocks.{Database, RocksDbStorage, key, get_metadata, set_metadata}
use stratified_hash_tree.Storage.Rocks.Dictionary.{Dictionary}
use stratified_hash_tree.Storage.Rocks.Deleted.{key_ne, at}

overwrite_all :
    (bytes buffer : List ℕ) → length buffer ≤ length bytes → overwrite 0 bytes buffer ≡ bytes
unfolding overwrite
overwrite_all bytes buffer le =
    rw (overwrite, drop-length_le (0 + length bytes) buffer (omega arith)) (append-nil bytes)

module _ ⦃B : LittleEndian⦄ where
  -- What stands for a next position: nothing while there is no entry.
  abbrev pub marked : ℕ → Option (List ℕ)
  marked p = if p == 1 then none else some (B.write 8 p)

module _ ⦃B : LittleEndian⦄ ⦃D : Database⦄ ⦃L : Dictionary⦄ (st : RocksDbStorage) (g : D.State)
    (p : ℕ) (own : st.key_for_metadata ≡ key st 0) (mark : at st g 0 ≡ marked p) where
  found_mark : D.get g st.key_for_metadata ≡ ok (marked p)
  found_mark = ap (D.get g) own ∙ L.get_lem g (key st 0) ∙ ap ok mark

  pub get_metadata-none : (p == 1) ≡ true → get_metadata st g ≡ ok none
  unfolding get_metadata
  get_metadata-none one = rw (get_metadata, found_mark, one) refl

  pub get_metadata-some : (p == 1) ≡ false → p < 2 ^ 64 → get_metadata st g ≡ ok (some p)
  unfolding get_metadata
  get_metadata-some more room =
      let long : ltb (length (B.write 8 p)) 8 ≡ false = ground (arith, B.length-write 8 p) in
      let all : take 8 (B.write 8 p) ≡ B.write 8 p =
        take-length_le 8 (B.write 8 p) (omega (arith, B.length-write 8 p)) in
      let small : p < 256 ^ 8 = room in
      rw (get_metadata, found_mark, more, long, all, B.read-write 8 p small) refl

  -- Whatever stood there has at most eight bytes, and all of them are written over.
  set_metadata_put :
      (next : ℕ)
      → (next == 1) ≡ false
      → set_metadata st next g ≡ D.put g st.key_for_metadata (B.write 8 next)
  unfolding set_metadata zeros
  set_metadata_put next more = elim (Bool-cases (p == 1)) [
    | inl one ↦
        let over : overwrite 0 (B.write 8 next) (zeros 8) ≡ B.write 8 next =
          overwrite_all (B.write 8 next) (zeros 8) (omega (arith, B.length-write 8 next)) in
        rw (set_metadata, more, found_mark, one, over) refl
    | inr old ↦
        let over : overwrite 0 (B.write 8 next) (B.write 8 p) ≡ B.write 8 next =
          overwrite_all (B.write 8 next) (B.write 8 p)
            (omega (arith, B.length-write 8 next, B.length-write 8 p)) in
        rw (set_metadata, more, found_mark, old, over) refl
  ]

  set_metadata_delete :
      (next : ℕ) → (next == 1) ≡ true → set_metadata st next g ≡ D.delete g st.key_for_metadata
  unfolding set_metadata
  set_metadata_delete next one = rw (set_metadata, one) refl

  pub set_metadata_step :
      (next : ℕ)
      → (g' : D.State) × (set_metadata st next g ≡ (ok tt, g'))
        × (at st g' 0 ≡ marked next)
        × ((i : ℕ) → 0 < i → i < 2 ^ 64 → at st g' i ≡ at st g i)
  set_metadata_step next = elim (Bool-cases (next == 1)) [
    | inl one ↦
        let (g', deleted, gone, others) = L.delete_lem g (key st 0) in
        (
          g',
          set_metadata_delete next one ∙ ap (D.delete g) own ∙ deleted,
          rw one gone,
          λ i pos lt. others (key st i) (key_ne st 0 i (omega arith) lt (omega arith)),
        )
    | inr more ↦
        let (g', written, there, others) = L.put_lem g (key st 0) (B.write 8 next) in
        (
          g',
          set_metadata_put next more
              ∙ ap (λ (k : List ℕ). D.put g k (B.write 8 next)) own
              ∙ written,
          rw more there,
          λ i pos lt. others (key st i) (key_ne st 0 i (omega arith) lt (omega arith)),
        )
  ]
