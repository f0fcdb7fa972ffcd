-- ===== src/Storage/Block/Scan.antt =====
-- `Reader::scan` over the file of a stack of entries.
use mathlib.Core.List.{append_assoc, append-nil}
use mathlib.Core.Path.{subst}
use stratified_hash_tree.Prelude.{
  ℕ, zero, suc, ◌+◌, ◌^◌, ◌≤◌, ◌<◌, ◌≡◌, refl, sym, ap, ◌∙◌, Bool, true, false, List, [], ◌∷◌, ◌++◌,
  ok, length, length-append, take, ltb, lt→ltb, arith,
}
use stratified_hash_tree.Prelude.Words.{add64, add64_of_lt}
use stratified_hash_tree.Hashing.{Hasher}
use stratified_hash_tree.Entry.{Entry}
use stratified_hash_tree.Serialize.{LittleEndian}
use stratified_hash_tree.Checksum.{Highway}
use stratified_hash_tree.Storage.{Visitor, called}
use stratified_hash_tree.Storage.Laws.{position_of, pile, length-pile, visit, called_agree, Scans}
use stratified_hash_tree.Storage.Device.{MemoryDevice, seek, stream_position, target}
use stratified_hash_tree.Storage.Block.{read_data, scan, scan_rounds, block_storage}
use stratified_hash_tree.Storage.Block.Cursor.{device_at, seek_start, seek_end}
use stratified_hash_tree.Storage.Block.Stored.{
  size_of, record_of, stored, AreStored, length-record, own_position, read_data-record,
}

module _ ⦃H : Hasher⦄ ⦃B : LittleEndian⦄ ⦃W : Highway⦄ where
  stored-pile :
      (later es : List Entry) → (rest : List ℕ) × (stored (pile later es) ≡ stored es ++ rest)
  stored-pile [] es = ([], sym (append-nil (stored es)))
  stored-pile (e ∷ later) es =
      let (rest, eq) = stored-pile later (e ∷ es) in
      (record_of e ++ rest, eq ∙ append_assoc (stored es) (record_of e) rest)

  AreStored-pile : (later es : List Entry) → AreStored (pile later es) → AreStored es
  AreStored-pile [] es are = are
  AreStored-pile (e ∷ later) es are = (AreStored-pile later (e ∷ es) are).2

  module _ {X C : Type 0} (ro : Bool) (buffer : List ℕ) (callback : Visitor X C) where
    scan_rounds_last :
        (left read p : ℕ) (d : MemoryDevice) (c : C)
        → ltb p (length buffer) ≡ false
        → scan_rounds (suc left) (length buffer) read p callback d c ≡ visit read [] callback c
    unfolding scan_rounds visit
    scan_rounds_last left read p d c done = rw (scan_rounds, done) refl

    reached :
        (p : ℕ)
        → p < 2 ^ 64
        → stream_position (device_at ro buffer p) ≡ (ok p, device_at ro buffer p)
    unfolding stream_position seek target
    reached p room =
        let same : add64 p 0 ≡ p = add64_of_lt p 0 (omega arith) ∙ omega arith in
        ap (λ (q : ℕ). (ok q, device_at ro buffer q)) same

    scan_rounds_step :
        (left read p q : ℕ) (e : Entry) (c : C)
        → ltb p (length buffer) ≡ true
        → read_data p (device_at ro buffer p) ≡ (ok e, device_at ro buffer q)
        → q < 2 ^ 64
        → scan_rounds (suc left) (length buffer) read p callback (device_at ro buffer p) c
          ≡ called
              (λ c'.
                scan_rounds left
                  (length buffer)
                  (add64 read 1)
                  q
                  callback
                  (device_at ro buffer q)
                  c')
              (callback e c)
    unfolding scan_rounds
    scan_rounds_step left read p q e c before found room =
        rw (scan_rounds, before, found, reached q room) refl

    scan_rounds-visit :
        (left read : ℕ) (later es : List Entry) (c : C)
        → buffer ≡ stored (pile later es)
        → AreStored (pile later es)
        → length buffer < 2 ^ 63
        → read + length later < 2 ^ 63
        → scan_rounds left
            (length buffer)
            read
            (length (stored es))
            callback
            (device_at ro buffer (length (stored es)))
            c
          ≡ visit read (take left later) callback c
    unfolding scan_rounds visit
    scan_rounds-visit zero read later es c eb are room fits = refl
    scan_rounds-visit (suc left) read [] es c eb are room fits =
        scan_rounds_last left read (length (stored es)) (device_at ro buffer (length (stored es))) c
          (ground (arith, ap length eb))
    scan_rounds-visit (suc left) read (e ∷ later) es c eb are room fits =
        let (rest, eq) = stored-pile later (e ∷ es) in
        let split : buffer ≡ stored es ++ (record_of e ++ rest) =
          eb ∙ eq ∙ append_assoc (stored es) (record_of e) rest in
        let own = AreStored-pile later (e ∷ es) are in
        let total : length buffer ≡ length (stored es) + (size_of e + 12 + length rest) =
          ap length split
          ∙ omega (
            arith,
            length-append (stored es) (record_of e ++ rest),
            length-append (record_of e) rest,
            length-record e,
          ) in
        let next : length (stored es) + size_of e + 12 ≡ length (stored (e ∷ es)) =
          omega (arith, length-append (stored es) (record_of e), length-record e) in
        let more : add64 read 1 ≡ suc read = add64_of_lt read 1 (omega arith) ∙ omega arith in
        scan_rounds_step left read (length (stored es)) (length (stored es) + size_of e + 12) e c
          (lt→ltb _ _ (omega (arith, total)))
          (read_data-record ro buffer (stored es) rest e split own.0 own.1 (omega arith))
          (omega (arith, total))
        ∙ called_agree _ _ (callback e c) (λ c'.
          ap
            (λ (n : ℕ).
              scan_rounds left (length buffer) n (length (stored es) + size_of e + 12) callback
                (device_at ro buffer (length (stored es) + size_of e + 12)) c')
            more
          ∙ ap
              (λ (q : ℕ).
                scan_rounds left (length buffer) (suc read) q callback (device_at ro buffer q) c')
              next
          ∙ scan_rounds-visit left (suc read) later (e ∷ es) c' eb are room (omega arith))

  length-le_stored : (es : List Entry) → length es ≤ length (stored es)
  length-le_stored [] = omega arith
  length-le_stored (e ∷ es) =
      omega (arith, length-le_stored es, length-append (stored es) (record_of e), length-record e)

  scan_starts :
      {X C : Type 0} (ro : Bool) (buffer : List ℕ) (p q count : ℕ) (callback : Visitor X C) (c : C)
      → length buffer < 2 ^ 64
      → ltb q (length buffer) ≡ true
      → scan (device_at ro buffer p) q count callback c
        ≡ scan_rounds count (length buffer) 0 q callback (device_at ro buffer q) c
  unfolding scan
  scan_starts ro buffer p q count callback c room before =
      rw (scan, seek_end ro buffer p room, before, seek_start ro buffer (length buffer) q) refl

  -- From the position of an entry on, `scan` gives the callback the entries of the file from there.
  pub scan-stored :
      (ro : Bool) (p : ℕ) (es : List Entry)
      → AreStored es
      → length (stored es) < 2 ^ 63
      → Scans block_storage (device_at ro (stored es) p) es
  scan-stored ro p es are room later earlier e whole X C count callback c =
      let are' = subst AreStored whole are in
      let own = AreStored-pile later (e ∷ earlier) are' in
      let here : length (stored earlier) ≡ position_of e =
        sym (own_position (length (stored earlier)) e own.0) in
      let (rest, eq) = stored-pile later (e ∷ earlier) in
      let buffer = stored es in
      let before : length (stored earlier) < length buffer = omega (
        arith,
        ap (λ (l : List Entry). length (stored l)) whole ∙ ap length eq,
        length-append (stored (e ∷ earlier)) rest,
        length-append (stored earlier) (record_of e),
        length-record e,
      ) in
      let few = length-le_stored es in
      subst
        (λ (q : ℕ).
          scan (device_at ro buffer p) q count callback c
          ≡ visit 0 (take count (e ∷ later)) callback c)
        here
        (scan_starts ro buffer p (length (stored earlier)) count callback c (omega arith)
            (lt→ltb _ _ before)
          ∙ scan_rounds-visit ro buffer callback count 0 (e ∷ later) earlier c (ap stored whole)
              are' room (omega (arith, ap length whole, length-pile later (e ∷ earlier), few)))
