-- ===== src/Storage/Device.antt =====
-- src/storage/memory.rs: `MemoryDevice`, a buffer of bytes with a cursor. An operation takes the
-- device and passes it on, with its result. The lock around the buffer is taken to be never
-- poisoned.
use stratified_hash_tree.Prelude.{
  ℕ, zero, suc, ◌+◌, ◌-◌, Bool, true, false, List, [], ◌∷◌, ◌++◌, Result, ok, err, panic, length,
  take, drop, ltb, if◌then◌else◌,
}
use stratified_hash_tree.Prelude.Words.{add64}
use stratified_hash_tree.Error.{Error, io}

pub record MemoryDevice : Type 0 where
  pub read_only : Bool
  pub buffer : List ℕ
  pub position : ℕ

-- What an operation on the device returns, and the device after it.
abbrev pub Operation : Type 0 → Type 0
Operation A = MemoryDevice → Result Error A × MemoryDevice

abbrev pub done : {A : Type 0} → A → Operation A
done a d = (ok a, d)

abbrev pub fail : {A : Type 0} → Error → Operation A
fail e d = (err e, d)

-- `?`: go on from the device that the first part left.
abbrev pub proceed :
    {A B : Type 0}
    → (A → Operation B)
    → Result Error A × MemoryDevice
    → Result Error B × MemoryDevice
proceed next (ok a, d) = next a d
proceed next (err e, d) = (err e, d)
proceed next (panic, d) = (panic, d)

abbrev pub unwrap_result :
    {A : Type 0} → Result Error A × MemoryDevice → Result Error A × MemoryDevice
unwrap_result (ok a, d) = (ok a, d)
unwrap_result (err e, d) = (panic, d)
unwrap_result (panic, d) = (panic, d)

-- `unwrap`: an error is a panic.
abbrev pub unwrapped : {A : Type 0} → Operation A → Operation A
unwrapped m d = unwrap_result (m d)

infixl 5 ◌>>=◌ ◌>>◌
abbrev pub ◌>>=◌ : {A B : Type 0} → Operation A → (A → Operation B) → Operation B
◌>>=◌ m f d = proceed f (m d)

abbrev pub ◌>>◌ : {A B : Type 0} → Operation A → Operation B → Operation B
◌>>◌ m k d = proceed (λ _. k) (m d)

-- Relative distances are words, in two's complement.
pub data SeekFrom : Type 0 where
  start : ℕ → SeekFrom
  current : ℕ → SeekFrom
  end : ℕ → SeekFrom

unfoldable pub target : SeekFrom → MemoryDevice → ℕ
target (start p) d = p
target (current p) d = add64 d.position p
target (end p) d = add64 (length d.buffer) p

unfoldable pub seek : SeekFrom → Operation ℕ
unfolding target
seek pos d = (ok (target pos d), record d { position = target pos d })

unfoldable pub stream_position : Operation ℕ
unfolding seek
stream_position d = seek (current 0) d

-- What is left to read.
unfoldable pub unread : MemoryDevice → List ℕ
unread d = drop d.position d.buffer

-- `read_exact`: where too few bytes are left, they are read all the same, before the error.
unfoldable pub read_exact : ℕ → Operation (List ℕ)
unfolding unread
read_exact n d =
    let left = unread d in
    if ltb (length left) n
    then (err io, record d { position = d.position + length left })
    else (ok (take n left), record d { position = d.position + n })

unfoldable pub zeros : ℕ → List ℕ
zeros zero = []
zeros (suc n) = 0 ∷ zeros n

-- A cursor over a vector writes over what is there, after filling up to its position with zeros.
unfoldable pub overwrite : ℕ → List ℕ → List ℕ → List ℕ
unfolding zeros
overwrite p bytes buffer =
    take p (buffer ++ zeros (p - length buffer)) ++ (bytes ++ drop (p + length bytes) buffer)

unfoldable pub write_all : List ℕ → Operation ℕ
unfolding overwrite
write_all bytes d = if d.read_only then (err io, d) else (
  ok (length bytes),
  record d { buffer = overwrite d.position bytes d.buffer; position = d.position + length bytes },
)

unfoldable pub truncate : ℕ → Operation Bool
truncate p d =
    if d.read_only
    then (err io, d)
    else if ltb p (length d.buffer)
    then (ok true, record d { buffer = take p d.buffer; position = p })
    else (ok false, d)

-- A clone looks at the same buffer, which is passed on with it, and only reads.
unfoldable pub clone_device : MemoryDevice → MemoryDevice
clone_device d = record d { read_only = true; position = 0 }
