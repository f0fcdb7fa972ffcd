-- ===== src/Storage/Block/Frames.antt =====
-- Reading an entry and its delimiter: what is accepted, and which error there is otherwise.
use mathlib.Core.List.{append_assoc}
use stratified_hash_tree.Prelude.{
  ℕ, ◌+◌, ◌-◌, ◌^◌, ◌≤◌, ◌<◌, ◌≡◌, refl, sym, ap, ◌∙◌, Bool, not, List, ◌++◌, Result, ok, err,
  length, length-append, ◌==◌, ==_iff, Bool-cases, inl, inr, if◌then◌else◌, arith,
}
use stratified_hash_tree.Prelude.Words.{add32, add32_of_lt, sub64, sub64_of_le}
use stratified_hash_tree.Error.{Error, incorrect_entry_head_offset, checksum_verification_failed}
use stratified_hash_tree.Hashing.{Hasher}
use stratified_hash_tree.Entry.{Entry}
use stratified_hash_tree.Serialize.{LittleEndian, write_entry_to}
use stratified_hash_tree.Serialize.RoundTrip.{IsStorable}
use stratified_hash_tree.Checksum.{
  Highway, ChecksumRead, Delimiter, new_read, pass, read, read_delimiter, show_bytes, judge,
  check_delimiter, read_serialized,
}
use stratified_hash_tree.Storage.Device.{MemoryDevice, proceed}
use stratified_hash_tree.Storage.Block.{read_data}
use stratified_hash_tree.Storage.Block.Cursor.{
  device_at, seek_start, stream_position_lem, read_exact_next, read_exact_within,
  read_serialized_next,
}

-- Appending on the left of an equation between concatenations.
pub behind :
    (buffer pre bytes rest : List ℕ)
    → buffer ≡ pre ++ (bytes ++ rest)
    → buffer ≡ (pre ++ bytes) ++ rest
behind buffer pre bytes rest e = e ∙ sym (append_assoc pre bytes rest)

module _ ⦃B : LittleEndian⦄ ⦃W : Highway⦄ where
  -- The delimiter as it is read, after the bytes that `r` has passed.
  abbrev pub delimiter_of : ChecksumRead → ℕ → ℕ → Delimiter
  delimiter_of r offset checksum = record {
    length = 12;
    offset = offset;
    checksum = checksum;
    actual_offset = r.offset;
    actual_checksum = W.finish (r.hasher ++ B.write 4 offset);
  }

  read_delimiter_next :
      (ro : Bool) (buffer pre rest : List ℕ) (p offset checksum : ℕ) (r : ChecksumRead)
      → buffer ≡ pre ++ (B.write 4 offset ++ (B.write 8 checksum ++ rest))
      → p ≡ length pre
      → offset < 2 ^ 32
      → checksum < 2 ^ 64
      → read_delimiter r (device_at ro buffer p)
        ≡ (ok (delimiter_of r offset checksum), device_at ro buffer (p + 4 + 8))
  unfolding read_delimiter read pass
  read_delimiter_next ro buffer pre rest p offset checksum r e ep ho hc =
      let first =
        read_exact_next ro buffer pre (B.write 4 offset) (B.write 8 checksum ++ rest) p 4 e ep
          (sym (B.length-write 4 offset)) in
      let second =
        read_exact_next ro buffer (pre ++ B.write 4 offset) (B.write 8 checksum) rest (p + 4) 8
          (behind buffer pre (B.write 4 offset) (B.write 8 checksum ++ rest) e)
          (omega (arith, ep, length-append pre (B.write 4 offset), B.length-write 4 offset))
          (sym (B.length-write 8 checksum)) in
      rw
        (
          read_delimiter,
          read,
          first,
          second,
          B.read-write 4 offset (omega arith),
          B.read-write 8 checksum (omega arith),
        )
        refl

  -- The outcome of `check_delimiter` behind a delimiter.
  abbrev pub judged : ℕ → Delimiter → Result Error ℕ
  judged p x =
      if not (x.actual_offset == x.offset)
      then err (incorrect_entry_head_offset x.offset x.actual_offset)
      else if not (x.actual_checksum == x.checksum)
      then err (
          checksum_verification_failed (p - (x.offset + 12)) (x.offset + 12) x.checksum
            x.actual_checksum)
      else ok x.length

  module _ (ro : Bool) (buffer : List ℕ) (p : ℕ) (in_range : p < 2 ^ 64) where
    show_bytes_lem :
        (n : ℕ)
        → n ≤ p
        → p ≤ length buffer
        → show_bytes n (device_at ro buffer p) ≡ (ok n, device_at ro buffer p)
    unfolding show_bytes
    show_bytes_lem n le inside =
        rw
          (
            show_bytes,
            stream_position_lem ro buffer p in_range,
            seek_start ro buffer p (p - n),
            read_exact_within ro buffer (p - n) n (omega arith),
          )
          (ap (λ (q : ℕ). (ok n, device_at ro buffer q))
            (let back : p - n + n ≡ p = omega arith in back))

    judge_lem :
        (x : Delimiter)
        → x.actual_offset + 12 ≤ p
        → x.actual_offset + 12 < 2 ^ 32
        → p ≤ length buffer
        → judge x (device_at ro buffer p) ≡ (judged p x, device_at ro buffer p)
    unfolding judge
    judge_lem x le small inside = elim (Bool-cases (x.actual_offset == x.offset)) [
      | inr wrong ↦ rw (judge, wrong, show_bytes_lem x.actual_offset (omega arith) inside) refl
      | inl right ↦ elim (Bool-cases (x.actual_checksum == x.checksum)) [
        | inl sound ↦ rw (judge, right, sound) refl
        | inr unsound ↦
            let same : x.actual_offset ≡ x.offset = (==_iff _ _).0 right in
            let length_is : add32 x.offset 12 ≡ x.offset + 12 =
              add32_of_lt x.offset 12 (omega (arith, same)) in
            let from : sub64 p (x.offset + 12) ≡ p - (x.offset + 12) =
              sub64_of_le p (x.offset + 12) (omega (arith, same)) in_range in
            rw (judge, right, unsound, stream_position_lem ro buffer p in_range, length_is, from)
              refl
      ]
    ]

module _ ⦃H : Hasher⦄ ⦃B : LittleEndian⦄ ⦃W : Highway⦄ where
  -- An entry with some delimiter.
  abbrev pub frame : Entry → ℕ → ℕ → List ℕ
  frame e offset checksum = (write_entry_to e).1 ++ (B.write 4 offset ++ B.write 8 checksum)

  -- The checksum that ought to stand behind an entry and an offset.
  abbrev pub checksum_of : Entry → ℕ → ℕ
  checksum_of e offset = W.finish ((write_entry_to e).1 ++ B.write 4 offset)

  -- What is read from a frame at a position.
  abbrev pub frame_outcome : ℕ → Entry → ℕ → ℕ → Result Error Entry
  frame_outcome position e offset checksum =
      let size = length (write_entry_to e).1 in
      if not (size == offset)
      then err (incorrect_entry_head_offset offset size)
      else if not (checksum_of e offset == checksum)
      then err (checksum_verification_failed position (offset + 12) checksum (checksum_of e offset))
      else ok e

  read_data_step :
      (position : ℕ) (e : Entry) (r : ChecksumRead) (d d' d'' : MemoryDevice) (res : Result Error ℕ)
      → read_serialized position new_read d ≡ (ok (e, r), d')
      → check_delimiter r d' ≡ (res, d'')
      → read_data position d ≡ proceed (λ _ d. (ok e, d)) (res, d'')
  unfolding read_data
  read_data_step position e r d d' d'' res parsed checked = rw (read_data, parsed, checked) refl

  check_delimiter_step :
      (r : ChecksumRead) (x : Delimiter) (d d' : MemoryDevice)
      → read_delimiter r d ≡ (ok x, d')
      → check_delimiter r d ≡ judge x d'
  unfolding check_delimiter
  check_delimiter_step r x d d' found = rw (check_delimiter, found) refl

  frame-append :
      (e : Entry) (offset checksum : ℕ) (buffer pre rest : List ℕ)
      → buffer ≡ pre ++ (frame e offset checksum ++ rest)
      → buffer ≡ pre ++ ((write_entry_to e).1 ++ (B.write 4 offset ++ (B.write 8 checksum ++ rest)))
  frame-append e offset checksum buffer pre rest eb =
      let bytes = (write_entry_to e).1 in
      eb
      ∙ ap (λ (l : List ℕ). pre ++ l)
          (append_assoc bytes (B.write 4 offset ++ B.write 8 checksum) rest
            ∙ ap (λ (l : List ℕ). bytes ++ l)
                (append_assoc (B.write 4 offset) (B.write 8 checksum) rest))

  pub length-frame :
      (e : Entry) (offset checksum : ℕ)
      → length (frame e offset checksum) ≡ length (write_entry_to e).1 + 12
  length-frame e offset checksum = omega (
    arith,
    length-append (write_entry_to e).1 (B.write 4 offset ++ B.write 8 checksum),
    length-append (B.write 4 offset) (B.write 8 checksum),
    B.length-write 4 offset,
    B.length-write 8 checksum,
  )

  outcome_lem :
      (p position : ℕ) (e : Entry) (offset checksum : ℕ) (d : MemoryDevice)
      → p ≡ position + length (write_entry_to e).1 + 12
      → proceed {B = Entry}
          (λ _ d. (ok e, d))
          (
            judged p (record {
              length = 12;
              offset = offset;
              checksum = checksum;
              actual_offset = length (write_entry_to e).1;
              actual_checksum = checksum_of e offset;
            }),
            d,
          )
        ≡ (frame_outcome position e offset checksum, d)
  outcome_lem p position e offset checksum d ep =
      elim (Bool-cases (length (write_entry_to e).1 == offset)) [
        | inr wrong ↦ rw wrong refl
        | inl right ↦ elim (Bool-cases (checksum_of e offset == checksum)) [
          | inl sound ↦ rw (right, sound) refl
          | inr unsound ↦
              let same : length (write_entry_to e).1 ≡ offset = (==_iff _ _).0 right in
              let from : p - (offset + 12) ≡ position = omega (arith, same) in
              rw (right, unsound, from) refl
        ]
      ]

  -- From a position at which an entry that the format can hold stands, with whatever offset and
  -- checksum behind it, `read_data` returns the entry if the offset is the length of the entry and
  -- the checksum that of its bytes and the offset; it is an error of the offset or else of the
  -- checksum otherwise, with the values found and computed. In every case the cursor is left behind
  -- the delimiter.
  pub read_data-frame_outcome :
      (ro : Bool) (buffer pre rest : List ℕ) (position : ℕ) (e : Entry) (offset checksum : ℕ)
      → buffer ≡ pre ++ (frame e offset checksum ++ rest)
      → IsStorable position e
      → length (write_entry_to e).1 + 12 < 2 ^ 32
      → length buffer < 2 ^ 64
      → offset < 2 ^ 32
      → checksum < 2 ^ 64
      → read_data position (device_at ro buffer (length pre)) ≡ (
        frame_outcome (length pre) e offset checksum,
        device_at ro buffer (length pre + length (write_entry_to e).1 + 12),
      )
  unfolding pass
  read_data-frame_outcome ro buffer pre rest position e offset checksum eb w small room ho hc =
      let bytes = (write_entry_to e).1 in
      let r = pass bytes new_read in
      let p = length pre + length bytes in
      let eb' = frame-append e offset checksum buffer pre rest eb in
      let total : length buffer ≡ length pre + (length bytes + 12 + length rest) = omega (
        arith,
        ap length eb,
        length-append pre (frame e offset checksum ++ rest),
        length-append (frame e offset checksum) rest,
        length-frame e offset checksum,
      ) in
      let parsed =
        read_serialized_next ro buffer pre (B.write 4 offset ++ (B.write 8 checksum ++ rest))
          position e new_read eb' w in
      let delimited =
        read_delimiter_next ro buffer (pre ++ bytes) rest p offset checksum r
          (behind buffer pre bytes (B.write 4 offset ++ (B.write 8 checksum ++ rest)) eb')
          (omega (arith, length-append pre bytes)) ho hc in
      let size : r.offset ≡ length bytes =
        add32_of_lt 0 (length bytes) (omega arith) ∙ omega arith in
      let end : p + 4 + 8 ≡ length pre + length bytes + 12 = omega arith in
      let verdict =
        judge_lem ro buffer (p + 4 + 8) (omega (arith, total)) (delimiter_of r offset checksum)
          (omega (arith, size)) (omega (arith, size)) (omega (arith, total)) in
      read_data_step position e r _ _ _ _ parsed
        (check_delimiter_step r (delimiter_of r offset checksum) _ _ delimited ∙ verdict)
      ∙ rw size (
          outcome_lem (p + 4 + 8) (length pre) e offset checksum (device_at ro buffer (p + 4 + 8))
            (omega arith))
      ∙ ap (λ (q : ℕ). (frame_outcome (length pre) e offset checksum, device_at ro buffer q)) end
