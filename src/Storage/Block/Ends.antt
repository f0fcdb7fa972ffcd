-- ===== src/Storage/Block/Ends.antt =====
-- From the end of a file `boot` goes back to its last entry.
use mathlib.Core.List.{append_assoc, append-nil}
use stratified_hash_tree.Prelude.{
  ℕ, ◌+◌, ◌-◌, ◌^◌, ◌≤◌, ◌<◌, ◌≡◌, refl, sym, ap, ◌∙◌, Bool, true, false, List, [], ◌∷◌, ◌++◌, ok,
  length, length-append, ltb, ◌==◌, ==_iff, arith,
}
use stratified_hash_tree.Prelude.Words.{add32_of_lt}
use stratified_hash_tree.Hashing.{Hasher}
use stratified_hash_tree.Entry.{Entry}
use stratified_hash_tree.Serialize.{LittleEndian, write_entry_to}
use stratified_hash_tree.Checksum.{Highway}
use stratified_hash_tree.Storage.Block.{back_to_safety, read_u32, boot_last}
use stratified_hash_tree.Storage.Block.Cursor.{
  device_at, seek_end, seek_back, stream_position_lem, read_exact_next,
}
use stratified_hash_tree.Storage.Block.Frames.{checksum_of}
use stratified_hash_tree.Storage.Block.Stored.{
  header, size_of, record_of, stored, AreStored, length-record, read_data-record,
}

back_to_safety_lem :
    (ro : Bool) (buffer : List ℕ) (p n : ℕ)
    → 4 + n ≤ p
    → p < 2 ^ 64
    → back_to_safety n (device_at ro buffer p) ≡ (ok (p - n), device_at ro buffer (p - n))
unfolding back_to_safety
back_to_safety_lem ro buffer p n room h =
    let safe : ltb p (3 + 1 + n) ≡ false = ground arith in
    rw (back_to_safety, stream_position_lem ro buffer p h, safe)
      (seek_back ro buffer p n (omega arith) h)

module _ ⦃H : Hasher⦄ ⦃B : LittleEndian⦄ ⦃W : Highway⦄ where
  read_u32_next :
      (ro : Bool) (buffer pre rest : List ℕ) (p n : ℕ)
      → buffer ≡ pre ++ (B.write 4 n ++ rest)
      → p ≡ length pre
      → n < 2 ^ 32
      → read_u32 (device_at ro buffer p) ≡ (ok n, device_at ro buffer (p + 4))
  unfolding read_u32
  read_u32_next ro buffer pre rest p n eb ep small =
      rw
        (
          read_u32,
          read_exact_next ro buffer pre (B.write 4 n) rest p 4 eb ep (sym (B.length-write 4 n)),
          B.read-write 4 n (omega arith),
        )
        refl

  -- The header, and what stands behind it.
  pub stored-header : (es : List Entry) → (rest : List ℕ) × (stored es ≡ header ++ rest)
  stored-header [] = ([], refl)
  stored-header (e ∷ es) =
      let (rest, eq) = stored-header es in
      (
        rest ++ record_of e,
        ap (λ (l : List ℕ). l ++ record_of e) eq ∙ append_assoc header rest (record_of e),
      )

  -- From the end of a file its last entry is found.
  pub boot_last_lem :
      (ro : Bool) (e : Entry) (es : List Entry) (p : ℕ)
      → AreStored (e ∷ es)
      → length (stored (e ∷ es)) < 2 ^ 64
      → boot_last (length (stored (e ∷ es))) (device_at ro (stored (e ∷ es)) p)
        ≡ (ok e, device_at ro (stored (e ∷ es)) (length (stored (e ∷ es))))
  unfolding boot_last
  boot_last_lem ro e es p are room =
      rw
        (
          boot_last,
          seek_end ro buffer p room,
          back_to_safety_lem ro buffer all 12 (omega (arith, total, front)) room,
          read_u32_next ro buffer (stored es ++ (write_entry_to e).1) checksum (all - 12)
              (size_of e) here
              (omega (arith, total, length-append (stored es) (write_entry_to e).1))
              (omega (arith, are.1)),
          add32_of_lt (size_of e) 4 (omega (arith, are.1)),
          back_to_safety_lem ro buffer (all - 12 + 4) (size_of e + 4) (omega (arith, total, front))
              (omega arith),
          stream_position_lem ro buffer (all - 12 + 4 - (size_of e + 4)) (omega arith),
          from,
          read_data-record ro buffer (stored es) [] e
              (ap (λ (l : List ℕ). stored es ++ l) (sym (append-nil (record_of e)))) are.0 are.1
              room,
          stream_position_lem ro buffer (length (stored es) + size_of e + 12)
              (omega (arith, total)),
          end,
        )
        (ap (λ (q : ℕ). (ok e, device_at ro (stored (e ∷ es)) q)) reaches)
    where
      buffer : List ℕ
      buffer = stored (e ∷ es)

      all : ℕ
      all = length buffer

      checksum : List ℕ
      checksum = B.write 8 (checksum_of e (size_of e))

      total : length (stored es ++ record_of e) ≡ length (stored es) + (size_of e + 12)
      total =
          length-append (stored es) (record_of e)
          ∙ ap (λ (n : ℕ). length (stored es) + n) (length-record e)

      front : 4 ≤ length (stored es)
      front =
          let (rest, eq) = stored-header es in
          omega (arith, ap length eq, length-append header rest)

      here : buffer ≡ (stored es ++ (write_entry_to e).1) ++ (B.write 4 (size_of e) ++ checksum)
      here = sym (append_assoc (stored es) (write_entry_to e).1 (B.write 4 (size_of e) ++ checksum))

      from : length (stored (e ∷ es)) - 12 + 4 - (size_of e + 4) ≡ length (stored es)
      from = omega (arith, total)

      reaches : length (stored es) + size_of e + 12 ≡ length (stored (e ∷ es))
      reaches = omega (arith, total)

      end : (length (stored es) + size_of e + 12 == length (stored (e ∷ es))) ≡ true
      end = (==_iff _ _).1 reaches

  pub length-stored : (es : List Entry) → 4 ≤ length (stored es)
  length-stored es =
      let (rest, eq) = stored-header es in omega (arith, ap length eq, length-append header rest)
