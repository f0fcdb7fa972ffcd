-- ===== src/Storage/Rocks/Deleted.antt =====
-- The loop of `truncate` over a dictionary.
use native.Mathlib.Decide.{dec_le}
use stratified_hash_tree.Prelude.{
  ℕ, zero, suc, ◌+◌, ◌^◌, ◌≤◌, ◌<◌, ◌≡◌, ◌≢◌, refl, ap, ◌∙◌, Option, none, some, ok, List, arith,
}
use stratified_hash_tree.Prelude.Words.{add64, add64_of_lt}
use stratified_hash_tree.Serialize.{LittleEndian}
use stratified_hash_tree.Storage.Rocks.{Database, RocksDbStorage, key, delete_from}
use stratified_hash_tree.Storage.Rocks.Keys.{create_key_ne}
use stratified_hash_tree.Storage.Rocks.Dictionary.{Dictionary}

module _ ⦃D : Database⦄ where
  -- Different positions have different keys.
  pub key_ne :
      (st : RocksDbStorage) (i j : ℕ) → i < 2 ^ 64 → j < 2 ^ 64 → i ≢ j → key st i ≢ key st j
  unfolding key
  key_ne st i j hi hj ne = create_key_ne st.key_hashing st.key_prefix i j hi hj ne

module _ ⦃B : LittleEndian⦄ ⦃D : Database⦄ ⦃L : Dictionary⦄ where
  -- What stands under the key of an index.
  abbrev pub at : RocksDbStorage → D.State → ℕ → Option (List ℕ)
  at st g i = L.contents g (key st i)

  -- What is left when the `d` keys from `p` on are deleted.
  pub record Deleted (fuel p d : ℕ) (st : RocksDbStorage) (g : D.State) : Type 0 where
    pub rest : D.State
    pub deletes : delete_from fuel st p g ≡ (ok tt, rest)
    pub below : (i : ℕ) → i < p → at st rest i ≡ at st g i
    pub above : (i : ℕ) → p ≤ i → i < 2 ^ 64 → at st rest i ≡ none

  delete_from_done :
      (fuel p : ℕ) (st : RocksDbStorage) (g : D.State)
      → at st g p ≡ none
      → delete_from fuel st p g ≡ (ok tt, g)
  unfolding delete_from
  delete_from_done zero p st g absent = refl
  delete_from_done (suc fuel) p st g absent = rw (delete_from, L.get_lem g (key st p), absent) refl

  delete_from_step :
      (fuel p : ℕ) (value : List ℕ) (st : RocksDbStorage) (g g' : D.State)
      → at st g p ≡ some value
      → D.delete g (key st p) ≡ (ok tt, g')
      → delete_from (suc fuel) st p g ≡ delete_from fuel st (add64 p 1) g'
  unfolding delete_from
  delete_from_step fuel p value st g g' found deleted =
      rw (delete_from, L.get_lem g (key st p), found, deleted) refl

  pub delete_from-Deleted :
      (fuel d p : ℕ) (st : RocksDbStorage) (g : D.State)
      → d ≤ fuel
      → p + d < 2 ^ 63
      → ((i : ℕ) → p ≤ i → i < p + d → (value : List ℕ) × (at st g i ≡ some value))
      → ((i : ℕ) → p + d ≤ i → i < 2 ^ 64 → at st g i ≡ none)
      → Deleted fuel p d st g
  delete_from-Deleted fuel zero p st g hf room present absent = record {
    rest = g;
    deletes = delete_from_done fuel p st g (absent p (omega arith) (omega arith));
    below = λ i lt. refl;
    above = λ i le lt. absent i (omega arith) lt;
  }
  delete_from-Deleted zero (suc d) p st g hf room present absent = absurd (omega arith)
  delete_from-Deleted (suc fuel) (suc d) p st g hf room present absent =
      let (value, found) = present p (omega arith) (omega arith) in
      let (g', deleted, gone, others) = L.delete_lem g (key st p) in
      let away : (i : ℕ) → i < 2 ^ 64 → p ≢ i → at st g' i ≡ at st g i =
        λ i lt ne. others (key st i) (key_ne st p i (omega arith) lt ne) in
      let next : add64 p 1 ≡ suc p = add64_of_lt p 1 (omega arith) ∙ omega arith in
      let inner : Deleted fuel (suc p) d st g' =
        delete_from-Deleted fuel d (suc p) st g' (omega arith) (omega arith)
          (λ i le lt.
            (let (w, there) = present i (omega arith) (omega arith) in
              (w, away i (omega arith) (omega arith) ∙ there)))
          (λ i le lt. away i lt (omega arith) ∙ absent i (omega arith) lt) in
      record {
        rest = inner.rest;
        deletes =
            delete_from_step fuel p value st g g' found deleted
            ∙ ap (λ (n : ℕ). delete_from fuel st n g') next
            ∙ inner.deletes;
        below = λ i lt. inner.below i (omega arith) ∙ away i (omega arith) (omega arith);
        above = λ i le lt. elim (dec_le (suc p) i) [
          | yes after ↦ inner.above i after lt
          | no here ↦
              let same : i ≡ p = omega arith in
              inner.below i (omega arith) ∙ ap (at st g') same ∙ gone
        ];
      }
