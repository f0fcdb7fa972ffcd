-- ===== src/Storage/Block/Boot.antt =====
-- `boot` finds the first and the last entry of a file, and the positions that `first` and `last`
-- return with them.
use mathlib.Core.List.{append_assoc, append-nil}
use stratified_hash_tree.Prelude.{
  ℕ, suc, ◌+◌, ◌^◌, ◌<◌, ◌≡◌, refl, sym, ap, ◌∙◌, Bool, false, Option, none, some, List, [], ◌∷◌,
  ◌++◌, ok, length, length-append, ◌==◌, if◌then◌else◌, arith,
}
use stratified_hash_tree.Prelude.Words.{add64}
use stratified_hash_tree.Hashing.{Hasher}
use stratified_hash_tree.Entry.{Entry}
use stratified_hash_tree.Sample.{same_bytes}
use stratified_hash_tree.Serialize.{LittleEndian}
use stratified_hash_tree.Serialize.RoundTrip.{IsStorable}
use stratified_hash_tree.Checksum.{Highway}
use stratified_hash_tree.Storage.Laws.{newest}
use stratified_hash_tree.Storage.Device.{seek, stream_position, write_all, overwrite, zeros}
use stratified_hash_tree.Storage.Block.{
  is_version_compatible, check_magic, check_header, boot_entries, boot, booted_first, booted_last,
  first, last,
}
use stratified_hash_tree.Storage.Block.Cursor.{
  device_at, seek_start, seek_end, stream_position_lem, read_exact_next,
}
use stratified_hash_tree.Storage.Block.Stored.{
  header, size_of, record_of, stored, AreStored, length-record, read_data-record,
}
use stratified_hash_tree.Storage.Block.Ends.{stored-header, boot_last_lem, length-stored}

check_header_lem :
    (ro : Bool) (buffer rest : List ℕ) (p : ℕ)
    → buffer ≡ header ++ rest
    → check_header (length buffer) (device_at ro buffer p) ≡ (ok 1, device_at ro buffer 4)
unfolding check_header check_magic is_version_compatible same_bytes
check_header_lem ro buffer rest p eb =
    let next = read_exact_next ro buffer [] header rest 0 4 eb refl refl in
    let total : length buffer ≡ 4 + length rest = ap length eb ∙ length-append header rest in
    let size : length buffer ≡ suc (suc (suc (suc (length rest)))) = total ∙ omega arith in
    ap (λ (n : ℕ). check_header n (device_at ro buffer p)) size
    ∙ rw (check_header, seek_start ro buffer p 0, next) refl

module _ ⦃H : Hasher⦄ ⦃B : LittleEndian⦄ ⦃W : Highway⦄ where
  -- The oldest entry of a stack: the first of the file.
  unfoldable pub eldest : List Entry → Option Entry
  eldest [] = none
  eldest (e ∷ []) = some e
  eldest (e ∷ x ∷ es) = eldest (x ∷ es)

  -- Where the oldest entry of a stack that is not empty stands in the file.
  record Oldest (es : List Entry) : Type 0 where
    entry : Entry
    rest : List ℕ
    is : eldest es ≡ some entry
    bytes : stored es ≡ header ++ (record_of entry ++ rest)
    storable : IsStorable 4 entry
    small : size_of entry + 12 < 2 ^ 32

  oldest : (e : Entry) (es : List Entry) → AreStored (e ∷ es) → Oldest (e ∷ es)
  unfolding eldest
  oldest e [] are = record {
    entry = e;
    rest = [];
    is = refl;
    bytes = ap (λ (l : List ℕ). header ++ l) (sym (append-nil (record_of e)));
    storable = are.0;
    small = are.1;
  }
  oldest e (x ∷ es) are =
      let below = oldest x es are.2 in
      record {
        entry = below.entry;
        rest = below.rest ++ record_of e;
        is = below.is;
        bytes =
            ap (λ (l : List ℕ). l ++ record_of e) below.bytes
            ∙ append_assoc header (record_of below.entry ++ below.rest) (record_of e)
            ∙ ap (λ (l : List ℕ). header ++ l)
                (append_assoc (record_of below.entry) below.rest (record_of e));
        storable = below.storable;
        small = below.small;
      }

  boot_entries_lem :
      (ro : Bool) (e : Entry) (es : List Entry) (p : ℕ)
      → AreStored (e ∷ es)
      → length (stored (e ∷ es)) < 2 ^ 64
      → boot_entries 4 (length (stored (e ∷ es))) (device_at ro (stored (e ∷ es)) p) ≡ (
        ok ((eldest (e ∷ es), 4), (some e, length (stored (e ∷ es)))),
        device_at ro (stored (e ∷ es)) (length (stored (e ∷ es))),
      )
  unfolding boot_entries
  boot_entries_lem ro e es p are room =
      let o = oldest e es are in
      let first =
        read_data-record ro (stored (e ∷ es)) header o.rest o.entry o.bytes o.storable o.small
          room in
      rw
        (
          boot_entries,
          seek_start ro (stored (e ∷ es)) p 4,
          first,
          boot_last_lem ro e es (4 + size_of o.entry + 12) are room,
          o.is,
        )
        refl

  -- The results of `boot`, `first` and `last` on a file of entries: the first entry is the oldest,
  -- behind the header, the last one is the newest, and the next goes to the end.
  pub record Booted (ro : Bool) (es : List Entry) (p : ℕ) : Type 0 where
    pub boots : boot (device_at ro (stored es) p) ≡ (
      ok ((eldest es, 4), (newest es, length (stored es))),
      device_at ro (stored es) (length (stored es)),
    )
    pub begins :
        (position : ℕ)
        → first (record { device = device_at ro (stored es) p; position = position }) ≡ (
          ok (eldest es, 4),
          record { device = device_at ro (stored es) (length (stored es)); position = position },
        )
    pub ends :
        (position : ℕ)
        → last (record { device = device_at ro (stored es) p; position = position }) ≡ (
          ok (newest es, length (stored es)),
          record {
            device = device_at ro (stored es) (length (stored es));
            position = length (stored es);
          },
        )

  booted :
      (ro : Bool) (es : List Entry) (p : ℕ)
      → boot (device_at ro (stored es) p) ≡ (
        ok ((eldest es, 4), (newest es, length (stored es))),
        device_at ro (stored es) (length (stored es)),
      )
      → Booted ro es p
  unfolding first last booted_first booted_last
  booted ro es p boots = record {
    boots = boots;
    begins = λ position. rw (first, boots) refl;
    ends = λ position. rw (last, boots) refl;
  }

  boot_step :
      (ro : Bool) (es : List Entry) (p : ℕ) (rest : List ℕ)
      → stored es ≡ header ++ rest
      → length (stored es) < 2 ^ 64
      → boot (device_at ro (stored es) p)
        ≡ (if length (stored es) == 4
              then (λ d. (ok ((none, 4), (none, length (stored es))), d))
              else boot_entries 4 (length (stored es)))
            (device_at ro (stored es) (length (stored es)))
  unfolding boot
  boot_step ro es p rest eq room =
      rw
        (
          boot,
          seek_end ro (stored es) p room,
          check_header_lem ro (stored es) rest (length (stored es)) eq,
          stream_position_lem ro (stored es) 4 (omega arith),
          seek_end ro (stored es) 4 room,
        )
        refl

  -- From any place of a file of storable entries below 2 ^ 64 bytes, `boot` returns the oldest
  -- entry, or none when there is none, with the position 4 behind the header, and the newest with
  -- the end of the file as the next position, and leaves the cursor there. `first` of a storage on
  -- this file returns the former and keeps its position, `last` returns the latter and moves its
  -- position to the end.
  pub boot-Booted :
      (ro : Bool) (es : List Entry) (p : ℕ)
      → AreStored es
      → length (stored es) < 2 ^ 64
      → Booted ro es p
  unfolding eldest
  boot-Booted ro [] p are room = booted ro [] p (boot_step ro [] p [] refl room)
  boot-Booted ro (e ∷ es) p are room =
      let (rest, eq) = stored-header (e ∷ es) in
      let longer : (length (stored (e ∷ es)) == 4) ≡ false =
        ground
          (arith, length-append (stored es) (record_of e), length-record e, length-stored es) in
      booted ro (e ∷ es) p (
        boot_step ro (e ∷ es) p rest eq room
        ∙ rw longer (boot_entries_lem ro e es (length (stored (e ∷ es))) are room))

-- A new file gets the header.
pub boot-empty :
    ⦃H : Hasher⦄ ⦃B : LittleEndian⦄ ⦃W : Highway⦄ (p : ℕ)
    → boot (device_at false [] p) ≡ (ok ((none, 4), (none, 4)), device_at false header 4)
unfolding boot check_header seek stream_position write_all overwrite zeros add64
boot-empty p = refl
