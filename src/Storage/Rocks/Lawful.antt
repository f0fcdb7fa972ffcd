-- ===== src/Storage/Rocks/Lawful.antt =====
-- `RocksDBStorage` over a dictionary is a lawful storage: the entry of number `k` stands under the
-- key of `k`, and the key of 0 has the next position.
use mathlib.Core.Path.{subst}
use stratified_hash_tree.Prelude.{
  ℕ, suc, ◌+◌, ◌^◌, ◌≤◌, ◌<◌, ◌≡◌, ◌≢◌, refl, sym, ap, ◌∙◌, some, true, false, List, [], ◌∷◌, ◌++◌,
  arith, ok, ◌==◌, length, length-append, lt→ltb,
}
use stratified_hash_tree.Prelude.Words.{u64_mod, add64, sub64, add64_of_lt, sub64_of_le}
use stratified_hash_tree.Hashing.{Hasher}
use stratified_hash_tree.Entry.{Entry}
use stratified_hash_tree.Serialize.{LittleEndian}
use stratified_hash_tree.Serialize.RoundTrip.{IsStorable}
use stratified_hash_tree.Storage.Laws.{position_of, newest, Lawful}
use stratified_hash_tree.Storage.Rocks.{
  Database, RocksDbStorage, key, set_metadata, delete_from, get_metadata, put, last, truncate,
  reader, truncate_within, rocks_storage,
}
use stratified_hash_tree.Storage.Rocks.Dictionary.{Dictionary}
use stratified_hash_tree.Storage.Rocks.Deleted.{key_ne, at, Deleted, delete_from-Deleted}
use stratified_hash_tree.Storage.Rocks.Metadata.{
  marked, get_metadata-none, get_metadata-some, set_metadata_step,
}
use stratified_hash_tree.Storage.Rocks.Filed.{
  bytes_of, read-bytes_of, own_position, Filed, RocksHolds, Filed-agree, reader_of, read-Filed,
  Filed-present, Filed-append,
}
use stratified_hash_tree.Storage.Rocks.Scan.{scan-RocksHolds}

module _ ⦃H : Hasher⦄ ⦃B : LittleEndian⦄ ⦃D : Database⦄ ⦃L : Dictionary⦄ where
  put_calls :
      (st : RocksDbStorage) (p : ℕ) (e : Entry) (g g' : D.State)
      → D.put st.db (key st p) (bytes_of e) ≡ (ok tt, g)
      → set_metadata st (add64 p 1) g ≡ (ok tt, g')
      → put st p e ≡ (ok (add64 p 1), record st { db = g' })
  unfolding put
  put_calls st p e g g' wrote marks = rw (put, wrote, marks) refl

  pub put-RocksHolds :
      (st : RocksDbStorage) (es : List Entry) (p : ℕ) (e : Entry)
      → RocksHolds st es p
      → IsStorable p e
      → suc p < 2 ^ 63
      → (st' : RocksDbStorage) × (put st p e ≡ (ok (suc p), st')) × RocksHolds st' (e ∷ es) (suc p)
  unfolding key
  put-RocksHolds st es p e h storable room =
      let at_end = h.next_position in
      let (g, wrote, there, others) = L.put_lem st.db (key st p) (bytes_of e) in
      let (g', marks, mark, kept) =
        set_metadata_step st g p h.own
          (others (key st 0) (key_ne st p 0 (omega arith) (omega arith) (omega arith)) ∙ h.mark)
          (suc p) in
      let next : add64 p 1 ≡ suc p = add64_of_lt p 1 (omega arith) ∙ omega arith in
      let away : (i : ℕ) → 0 < i → i < 2 ^ 64 → p ≢ i → at st g' i ≡ at st st.db i =
        λ i pos lt ne. kept i pos lt ∙ others (key st i) (key_ne st p i (omega arith) lt ne) in
      (
        record st { db = g' },
        put_calls st p e g g' wrote (ap (λ (n : ℕ). set_metadata st n g) next ∙ marks)
            ∙ ap (λ (n : ℕ). (ok n, record st { db = g' })) next,
        record {
          own = h.own;
          next_position = ap suc at_end;
          in_range = room;
          mark = mark;
          filed = (
            subst (λ (q : ℕ). IsStorable q e) at_end storable,
            ap (at st g') (sym at_end) ∙ kept p (omega arith) (omega arith) ∙ there,
            Filed-agree st st.db g' es (λ i pos le. away i pos (omega arith) (omega arith)) h.filed,
          );
          nothing_later = λ i lt room'.
              away i (omega arith) room' (omega arith) ∙ h.nothing_later i (omega arith) room';
        },
      )

  pub reader_step : (st : RocksDbStorage) → reader st ≡ ok (reader_of st)
  unfolding reader
  reader_step st = refl

  pub last_step :
      (st : RocksDbStorage) (es : List Entry) (p : ℕ)
      → RocksHolds st es p
      → last st ≡ (ok (newest es, p), st)
  unfolding last
  last_step st [] p h =
      let one : (p == 1) ≡ true = ground (arith, h.next_position) in
      rw (last, get_metadata-none st st.db p h.own h.mark one, h.next_position) refl
  last_step st (e ∷ es) p h =
      let more : (p == 1) ≡ false = ground (arith, h.next_position) in
      let before : sub64 p 1 ≡ suc (length es) =
        sub64_of_le p 1 (omega (arith, h.next_position)) (omega (arith, h.in_range))
        ∙ omega (arith, h.next_position) in
      rw
        (
          last,
          get_metadata-some st st.db p h.own h.mark more (omega (arith, h.in_range)),
          before,
          L.get_lem st.db (key st (suc (length es))),
          h.filed.1,
          before,
          read-bytes_of (suc (length es)) e h.filed.0,
        )
        refl

  truncate_calls :
      (rounds : ℕ) (st : RocksDbStorage) (p q : ℕ) (g g' : D.State)
      → get_metadata st st.db ≡ ok (some p)
      → q < p
      → delete_from rounds st q st.db ≡ (ok tt, g)
      → set_metadata st q g ≡ (ok tt, g')
      → truncate_within rounds st q ≡ (ok true, record st { db = g' })
  unfolding truncate_within
  truncate_calls rounds st p q g g' found lt deletes marks =
      rw (truncate_within, found, lt→ltb q p lt, deletes, marks) refl

  truncate_rounds : (st : RocksDbStorage) (q : ℕ) → truncate st q ≡ truncate_within u64_mod st q
  unfolding truncate
  truncate_rounds st q = refl

  -- From a state that holds a stack of entries, `truncate` to the position of one of them returns
  -- true and leaves a state that holds those below it, the next position being that one.
  pub truncate-RocksHolds :
      (st : RocksDbStorage) (dropped es : List Entry) (e : Entry) (p : ℕ)
      → RocksHolds st (dropped ++ (e ∷ es)) p
      → (st' : RocksDbStorage) × (truncate st (position_of e) ≡ (ok true, st'))
        × RocksHolds st' es (position_of e)
  unfolding key
  truncate-RocksHolds st dropped es e p h =
      let filed : Filed st st.db (e ∷ es) = Filed-append st st.db dropped (e ∷ es) h.filed in
      let q = suc (length es) in
      let here : position_of e ≡ q = own_position q e filed.0 in
      let total : length (dropped ++ (e ∷ es)) ≡ length dropped + q =
        length-append dropped (e ∷ es) in
      let end : p ≡ suc (length dropped + q) = h.next_position ∙ ap suc total in
      let more : (p == 1) ≡ false = ground (arith, end) in
      let deleted : Deleted u64_mod q (suc (length dropped)) st st.db =
        delete_from-Deleted u64_mod (suc (length dropped)) q st st.db
          (omega (arith, end, h.in_range)) (omega (arith, end, h.in_range))
          (λ i le lt.
            Filed-present st st.db (dropped ++ (e ∷ es)) h.filed i (omega arith)
              (omega (arith, total)))
          (λ i le lt. h.nothing_later i (omega (arith, total)) lt) in
      let (g', marks, mark, kept) =
        set_metadata_step st deleted.rest p h.own (deleted.below 0 (omega arith) ∙ h.mark) q in
      let agree : (i : ℕ) → 0 < i → i ≤ length es → at st g' i ≡ at st st.db i =
        λ i pos le. kept i pos (omega (arith, end, h.in_range)) ∙ deleted.below i (omega arith) in
      (
        record st { db = g' },
        ap (truncate st) here
            ∙ truncate_rounds st q
            ∙ truncate_calls u64_mod st p q deleted.rest g'
                (get_metadata-some st st.db p h.own h.mark more (omega (arith, h.in_range)))
                (omega (arith, end)) deleted.deletes marks,
        record {
          own = h.own;
          next_position = here;
          in_range = omega (arith, here, end, h.in_range);
          mark = mark ∙ ap marked (sym here);
          filed = Filed-agree st st.db g' es agree filed.2;
          nothing_later =
              λ i lt room. kept i (omega arith) room ∙ deleted.above i (omega arith) room;
        },
      )

  -- An entry fits at its own position, while fewer than 2 ^ 63 are stored.
  abbrev pub RocksFits : ℕ → Entry → Type 0
  RocksFits p e = IsStorable p e × (suc p < 2 ^ 63)

  abbrev pub rocks-Lawful : Lawful rocks_storage
  rocks-Lawful = record {
    Holds = RocksHolds;
    Fits = RocksFits;
    next = λ p e. suc p;
    put_lem = λ st es p e h f. put-RocksHolds st es p e h f.0 f.1;
    read_lem = λ st es p h.
        (reader_of st, reader_step st, read-Filed st es h.filed, scan-RocksHolds st es p h);
    last_lem = λ st es p h. (st, last_step st es p h, h);
    truncate_lem = truncate-RocksHolds;
  }
