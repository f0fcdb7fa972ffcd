-- ===== src/Storage/Block/Lawful.antt =====
-- `BlockStorage` on a `MemoryDevice` is a lawful storage.
use mathlib.Core.List.{append_assoc, append-nil}
use mathlib.Core.Path.{subst}
use stratified_hash_tree.Prelude.{
  ℕ, ◌+◌, ◌^◌, ◌<◌, ◌≡◌, refl, sym, ap, ◌∙◌, true, false, none, List, [], ◌∷◌, ◌++◌, All, ok,
  length, length-append, ◌==◌, ==_iff, arith,
}
use stratified_hash_tree.Prelude.Words.{add64, add64_of_lt}
use stratified_hash_tree.Hashing.{Hasher}
use stratified_hash_tree.Entry.{Entry}
use stratified_hash_tree.Serialize.{LittleEndian}
use stratified_hash_tree.Serialize.RoundTrip.{IsStorable}
use stratified_hash_tree.Checksum.{Highway}
use stratified_hash_tree.Storage.Laws.{position_of, newest, Scans, Lawful}
use stratified_hash_tree.Storage.Block.Scan.{scan-stored}
use stratified_hash_tree.Storage.Device.{MemoryDevice, clone_device, write_all}
use stratified_hash_tree.Storage.Block.{
  BlockStorage, block_storage, booted_last, last, flushed, placed, put, truncated, truncate, reader,
  read, write_data,
}
use stratified_hash_tree.Storage.Block.Cursor.{device_at, write_all_end, truncate_prefix}
use stratified_hash_tree.Storage.Block.Stored.{
  size_of, record_of, stored, AreStored, length-record, write_data-record, own_position,
  read-stored,
}
use stratified_hash_tree.Storage.Block.Boot.{boot-Booted, boot-empty}

module _ ⦃H : Hasher⦄ ⦃B : LittleEndian⦄ ⦃W : Highway⦄ where
  -- The storage of a stack of entries, at the end of its file.
  abbrev pub storage_of : List Entry → BlockStorage
  storage_of es = record {
    device = device_at false (stored es) (length (stored es));
    position = length (stored es);
  }

  pub record BlockHolds (st : BlockStorage) (es : List Entry) (p : ℕ) : Type 0 where
    pub is : st ≡ storage_of es
    pub next_position : p ≡ length (stored es)
    pub in_range : p < 2 ^ 63
    pub are : AreStored es

  -- The entry can be held by the format at this position, and the file stays below 2 ^ 63 bytes.
  abbrev pub BlockFits : ℕ → Entry → Type 0
  BlockFits p e = IsStorable p e × (size_of e + 12 < 2 ^ 32) × (p + (size_of e + 12) < 2 ^ 63)

  placed_here : (es : List Entry) → placed (storage_of es) (length (stored es)) ≡ storage_of es
  unfolding placed
  placed_here es =
      let same : (length (stored es) == length (stored es)) ≡ true = (==_iff _ _).1 refl in
      rw (placed, same) refl

  put_parts :
      (st : BlockStorage) (p : ℕ) (e : Entry)
      → put st p e
        ≡ flushed (placed st p) (write_data e).0 (write_all (write_data e).1 (placed st p).device)
  unfolding put
  put_parts st p e = refl

  flushed_ok :
      (st : BlockStorage) (n m : ℕ) (d : MemoryDevice)
      → flushed st n (ok m, d)
        ≡ (ok (add64 st.position n), record { device = d; position = add64 st.position n })
  unfolding flushed
  flushed_ok st n m d = refl

  put_step :
      (es : List Entry) (e : Entry)
      → size_of e + 12 < 2 ^ 32
      → length (stored es) + (size_of e + 12) < 2 ^ 63
      → put (storage_of es) (length (stored es)) e
        ≡ (ok (length (stored es) + (size_of e + 12)), storage_of (e ∷ es))
  put_step es e small room =
      let end : length (stored es) + (size_of e + 12) ≡ length (stored (e ∷ es)) =
        ap (λ (n : ℕ). length (stored es) + n) (sym (length-record e))
        ∙ sym (length-append (stored es) (record_of e)) in
      let moved : add64 (length (stored es)) (size_of e + 12)
          ≡ length (stored es) + (size_of e + 12) =
        add64_of_lt (length (stored es)) (size_of e + 12) (omega arith) in
      let old = length (stored es) in
      let n = size_of e + 12 in
      put_parts (storage_of es) old e
      ∙ ap
          (λ (st : BlockStorage).
            flushed st (write_data e).0 (write_all (write_data e).1 st.device))
          (placed_here es)
      ∙ ap (λ (w : ℕ × List ℕ). flushed (storage_of es) w.0 (write_all w.1 (storage_of es).device))
          (write_data-record e small)
      ∙ ap (flushed (storage_of es) n) (write_all_end (stored es) (record_of e))
      ∙ flushed_ok (storage_of es) n (length (record_of e))
          (device_at false (stored (e ∷ es)) (old + length (record_of e)))
      ∙ rw (moved, length-record e)
          (ap
            (λ (m : ℕ).
              (ok (old + n), record { device = device_at false (stored (e ∷ es)) m; position = m }))
            end)

  pub put-BlockHolds :
      (st : BlockStorage) (es : List Entry) (p : ℕ) (e : Entry)
      → BlockHolds st es p
      → BlockFits p e
      → (st' : BlockStorage) × (put st p e ≡ (ok (p + (size_of e + 12)), st'))
        × BlockHolds st' (e ∷ es) (p + (size_of e + 12))
  put-BlockHolds st es p e h fits =
      let at = h.next_position in
      (
        storage_of (e ∷ es),
        rw (at, h.is) (put_step es e fits.1 (omega (arith, fits.2, at))),
        record {
          is = refl;
          next_position =
              omega (arith, at, length-append (stored es) (record_of e), length-record e);
          in_range = fits.2;
          are = (subst (λ (q : ℕ). IsStorable q e) at fits.0, fits.1, h.are);
        },
      )

  pub read-BlockHolds :
      (st : BlockStorage) (es : List Entry) (p : ℕ)
      → BlockHolds st es p
      → All (λ e. read (clone_device st.device) (position_of e) ≡ ok e) es
  unfolding clone_device
  read-BlockHolds st es p h = rw (h.is) (
      read-stored true (stored es) [] es 0 (sym (append-nil (stored es))) h.are
        (omega (arith, h.in_range, h.next_position)))

  pub scan-BlockHolds :
      (st : BlockStorage) (es : List Entry) (p : ℕ)
      → BlockHolds st es p
      → Scans block_storage (clone_device st.device) es
  unfolding clone_device
  scan-BlockHolds st es p h =
      rw (h.is) (scan-stored true 0 es h.are (omega (arith, h.in_range, h.next_position)))

  last_step :
      (es : List Entry)
      → AreStored es
      → length (stored es) < 2 ^ 63
      → last (storage_of es) ≡ (ok (newest es, length (stored es)), storage_of es)
  unfolding last booted_last
  last_step es are room =
      let booted = boot-Booted false es (length (stored es)) are (omega arith) in
      rw (last, booted.boots) refl

  pub last-BlockHolds :
      (st : BlockStorage) (es : List Entry) (p : ℕ)
      → BlockHolds st es p
      → (st' : BlockStorage) × (last st ≡ (ok (newest es, p), st')) × BlockHolds st' es p
  last-BlockHolds st es p h = (
    storage_of es,
    rw (h.is, h.next_position) (last_step es h.are (omega (arith, h.in_range, h.next_position))),
    record { is = refl; next_position = h.next_position; in_range = h.in_range; are = h.are },
  )

  stored-append :
      (dropped es : List Entry) → (rest : List ℕ) × (stored (dropped ++ es) ≡ stored es ++ rest)
  stored-append [] es = ([], sym (append-nil (stored es)))
  stored-append (d ∷ dropped) es =
      let (rest, eq) = stored-append dropped es in
      (
        rest ++ record_of d,
        ap (λ (l : List ℕ). l ++ record_of d) eq ∙ append_assoc (stored es) rest (record_of d),
      )

  AreStored-append : (dropped es : List Entry) → AreStored (dropped ++ es) → AreStored es
  AreStored-append [] es are = are
  AreStored-append (d ∷ dropped) es are = AreStored-append dropped es are.2

  truncate_step :
      (es : List Entry) (e : Entry) (rest : List ℕ) (st : BlockStorage) (q : ℕ)
      → st.device ≡ device_at false (stored es ++ (record_of e ++ rest)) q
      → truncate st (length (stored es)) ≡ (ok true, storage_of es)
  unfolding truncate truncated
  truncate_step es e rest st q eq =
      let longer : 0 < length (record_of e ++ rest) =
        omega (arith, length-append (record_of e) rest, length-record e) in
      rw (truncate, eq, truncate_prefix (stored es) (record_of e ++ rest) q longer) refl

  -- From a file that holds a stack of entries, `truncate` to the position of one of them returns
  -- true and leaves the file of those below it, the next position being that one.
  pub truncate-BlockHolds :
      (st : BlockStorage) (dropped es : List Entry) (e : Entry) (p : ℕ)
      → BlockHolds st (dropped ++ (e ∷ es)) p
      → (st' : BlockStorage) × (truncate st (position_of e) ≡ (ok true, st'))
        × BlockHolds st' es (position_of e)
  truncate-BlockHolds st dropped es e p h =
      let are = AreStored-append dropped (e ∷ es) h.are in
      let at = own_position (length (stored es)) e are.0 in
      let (rest, eq) = stored-append dropped (e ∷ es) in
      let whole : stored (dropped ++ (e ∷ es)) ≡ stored es ++ (record_of e ++ rest) =
        eq ∙ append_assoc (stored es) (record_of e) rest in
      let end = length (stored (dropped ++ (e ∷ es))) in
      let device : st.device ≡ device_at false (stored es ++ (record_of e ++ rest)) end =
        ap (λ (s : BlockStorage). s.device) h.is
        ∙ ap (λ (l : List ℕ). device_at false l end) whole in
      (
        storage_of es,
        ap (truncate st) at ∙ truncate_step es e rest st end device,
        record {
          is = refl;
          next_position = at;
          in_range = omega (
            arith,
            at,
            h.in_range,
            h.next_position,
            ap length whole,
            length-append (stored es) (record_of e ++ rest),
          );
          are = are.2;
        },
      )

  pub reader_step : (st : BlockStorage) → reader st ≡ ok (clone_device st.device)
  unfolding reader
  reader_step st = refl

  abbrev pub block-Lawful : Lawful block_storage
  block-Lawful = record {
    Holds = BlockHolds;
    Fits = BlockFits;
    next = λ p e. p + (size_of e + 12);
    put_lem = put-BlockHolds;
    read_lem = λ st es p h. (
      clone_device st.device,
      reader_step st,
      read-BlockHolds st es p h,
      scan-BlockHolds st es p h,
    );
    last_lem = last-BlockHolds;
    truncate_lem = truncate-BlockHolds;
  }

  -- A new storage on an empty device, once `last` has written the header.
  abbrev pub new_storage : BlockStorage
  new_storage = record { device = device_at false [] 0; position = 0 }

  pub last-new_storage : last new_storage ≡ (ok (none, 4), storage_of [])
  unfolding last booted_last
  last-new_storage = rw (last, boot-empty 0) refl

  pub empty-BlockHolds : BlockHolds (storage_of []) [] 4
  empty-BlockHolds = record { is = refl; next_position = refl; in_range = omega arith; are = tt }
