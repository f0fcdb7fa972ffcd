-- ===== src/Serialize/RoundTrip.antt =====
-- Reading gives back what was written, and the length returned is that of the bytes.
use mathlib.Core.List.{append_assoc}
use stratified_hash_tree.Prelude.{
  ℕ, suc, ◌+◌, ◌-◌, ◌^◌, ◌%◌, ◌≤◌, ◌<◌, ◌≡◌, refl, ap, ◌∙◌, List, [], ◌∷◌, ◌++◌, ok, length,
  take-append, drop-append, length-append, bit_and, ltb, false, arith,
}
use stratified_hash_tree.Prelude.Words.{add8, sub8, add8_of_lt, sub8_of_le}
use stratified_hash_tree.Prelude.Bits.{bit_and_mask}
use stratified_hash_tree.Formula.Arith.{index_size}
use stratified_hash_tree.Hashing.{Hasher}
use stratified_hash_tree.Entry.{INode, Entry}
use stratified_hash_tree.Slate.{max_payload_size, address}
use stratified_hash_tree.Serialize.{
  LittleEndian, read_exact, read_u8, read_uint, read_inode, read_inode_list, read_inodes_from,
  read_entry_from, write_inode, write_inode_list, write_inodes_to, write_entry_to,
}

read_exact-append :
    (n : ℕ) (xs rest : List ℕ) → length xs ≡ n → read_exact n (xs ++ rest) ≡ ok (xs, rest)
unfolding read_exact
read_exact-append n xs rest e =
    let enough : ltb (length (xs ++ rest)) (length xs) ≡ false =
      ground (arith, length-append xs rest) in
    rw (← e, enough, take-append xs rest, drop-append xs rest) refl

module _ ⦃H : Hasher⦄ ⦃B : LittleEndian⦄ where
  read_uint-write :
      (width n : ℕ) (rest : List ℕ)
      → n < 256 ^ width
      → read_uint width (B.write width n ++ rest) ≡ ok (n, rest)
  unfolding read_uint
  read_uint-write width n rest h =
      rw (read_exact-append width (B.write width n) rest (B.length-write width n))
        (rw (B.read-write width n h) refl)

  -- The inode is one that the format can hold, above a node of height `right_j` of entry `i`.
  pub record IsInode (i position right_j : ℕ) (x : INode) : Type 0 where
    pub own_i : x.meta.address.i ≡ i
    pub own_position : x.meta.address.position ≡ position
    pub low : 0 < x.meta.address.j
    pub high : x.meta.address.j ≤ 64
    pub hash_size : length x.meta.hash.value ≡ H.size
    pub left_i : x.left.i < 2 ^ 64
    pub left_position : x.left.position < 2 ^ 64
    pub right : x.right ≡ address i right_j position

  abbrev pub AreInodes : ℕ → ℕ → ℕ → List INode → Type 0
  AreInodes i position right_j [] = Unit
  AreInodes i position right_j (x ∷ xs) =
      IsInode i position right_j x × AreInodes i position x.meta.address.j xs

  pub record IsStorable (position : ℕ) (e : Entry) : Type 0 where
    pub index : e.enode.meta.address.i < 2 ^ 64
    pub own : e.enode.meta.address ≡ address e.enode.meta.address.i 0 position
    pub few : length e.inodes < 256
    pub inodes : AreInodes e.enode.meta.address.i position 0 e.inodes
    pub small : length e.enode.payload ≤ max_payload_size
    pub hash_size : length e.enode.meta.hash.value ≡ H.size

  height_byte :
      (j : ℕ)
      → 0 < j
      → j ≤ 64
      → add8 (bit_and (bit_and (sub8 j 1) (sub8 index_size 1)) (sub8 index_size 1)) 1 ≡ j
  height_byte j pos le =
      rw (sub8_of_le j 1 pos (omega arith), sub8_of_le 64 1 (omega arith) (omega arith))
        (rw (bit_and_mask 6 (j - 1), bit_and_mask 6 ((j - 1) % 2 ^ 6))
          (add8_of_lt ((j - 1) % 2 ^ 6 % 2 ^ 6) 1 (omega arith) ∙ omega arith))

  -- What stands behind the first byte of an inode.
  abbrev inode_tail : INode → List ℕ → List ℕ
  inode_tail x rest =
      B.write 8 x.left.position ++ (B.write 8 x.left.i ++ (x.left.j ∷ (x.meta.hash.value ++ rest)))

  write_inode-append :
      (x : INode) (rest : List ℕ)
      → write_inode x ++ rest
        ≡ bit_and (sub8 x.meta.address.j 1) (sub8 index_size 1) ∷ inode_tail x rest
  unfolding write_inode
  write_inode-append x rest =
      let tail = x.left.j ∷ x.meta.hash.value in
      (ap (λ (l : List ℕ). bit_and (sub8 x.meta.address.j 1) (sub8 index_size 1) ∷ l)
        (append_assoc (B.write 8 x.left.position) (B.write 8 x.left.i ++ tail) rest
          ∙ ap (λ (l : List ℕ). B.write 8 x.left.position ++ l)
              (append_assoc (B.write 8 x.left.i) tail rest)))

  read_inode-write :
      (i position right_j : ℕ) (x : INode) (rest : List ℕ)
      → IsInode i position right_j x
      → read_inode i position right_j (write_inode x ++ rest) ≡ ok (x, rest)
  unfolding read_inode read_u8
  read_inode-write i position right_j x rest w =
      rw
        (
          write_inode-append x rest,
          read_inode,
          read_u8,
          read_uint-write 8 x.left.position
              (B.write 8 x.left.i ++ (x.left.j ∷ (x.meta.hash.value ++ rest))) w.left_position,
          read_uint-write 8 x.left.i (x.left.j ∷ (x.meta.hash.value ++ rest)) w.left_i,
          read_exact-append H.size x.meta.hash.value rest w.hash_size,
          height_byte x.meta.address.j w.low w.high,
          ← w.right,
          ← w.own_i,
          ← w.own_position,
        )
        refl

  write_inode_list-append :
      (x : INode) (xs : List INode) (rest : List ℕ)
      → (write_inode_list (x ∷ xs)).1 ++ rest ≡ write_inode x ++ ((write_inode_list xs).1 ++ rest)
  unfolding write_inode_list
  write_inode_list-append x xs rest = append_assoc (write_inode x) (write_inode_list xs).1 rest

  read_inode_list_step :
      (n i position right_j : ℕ) (x : INode) (xs : List INode) (bytes rest rest' : List ℕ)
      → read_inode i position right_j bytes ≡ ok (x, rest)
      → read_inode_list n i position x.meta.address.j rest ≡ ok (xs, rest')
      → read_inode_list (suc n) i position right_j bytes ≡ ok (x ∷ xs, rest')
  unfolding read_inode_list
  read_inode_list_step n i position right_j x xs bytes rest rest' p q = rw (p, q) refl

  read_inode_list-write :
      (i position right_j : ℕ) (xs : List INode) (rest : List ℕ)
      → AreInodes i position right_j xs
      → read_inode_list (length xs) i position right_j ((write_inode_list xs).1 ++ rest)
        ≡ ok (xs, rest)
  read_inode_list-write i position right_j [] rest w =
      unfold read_inode_list in unfold write_inode_list in refl
  read_inode_list-write i position right_j (x ∷ xs) rest w =
      ap (read_inode_list (length (x ∷ xs)) i position right_j) (write_inode_list-append x xs rest)
      ∙ read_inode_list_step (length xs) i position right_j x xs _ _ _
          (read_inode-write i position right_j x ((write_inode_list xs).1 ++ rest) w.0)
          (read_inode_list-write i position x.meta.address.j xs rest w.1)

  -- Any number of inodes below 256 can be read back, with the index of their entry.
  read_inodes-write :
      (i position : ℕ) (xs : List INode) (rest : List ℕ)
      → i < 2 ^ 64
      → length xs < 256
      → AreInodes i position 0 xs
      → read_inodes_from position ((write_inodes_to i xs).1 ++ rest) ≡ ok ((i, xs), rest)
  unfolding read_inodes_from write_inodes_to read_u8
  read_inodes-write i position xs rest hi few w =
      let count : length xs % 2 ^ 8 ≡ length xs = omega arith in
      rw
        (
          append_assoc (B.write 8 i) (length xs % 2 ^ 8 ∷ (write_inode_list xs).1) rest,
          read_inodes_from,
          read_uint-write 8 i (length xs % 2 ^ 8 ∷ ((write_inode_list xs).1 ++ rest)) hi,
          read_u8,
          count,
          read_inode_list-write i position 0 xs rest w,
        )
        refl

  payload_length : (n : ℕ) → n ≤ max_payload_size → bit_and (n % 2 ^ 32) max_payload_size ≡ n
  payload_length n h = bit_and_mask 31 (n % 2 ^ 32) ∙ omega arith

  -- What stands behind the inodes of an entry.
  abbrev entry_tail : Entry → List ℕ → List ℕ
  entry_tail e rest =
      B.write 4 (length e.enode.payload % 2 ^ 32)
      ++ (e.enode.payload ++ (e.enode.meta.hash.value ++ rest))

  write_entry-append :
      (e : Entry) (rest : List ℕ)
      → (write_entry_to e).1 ++ rest
        ≡ (write_inodes_to e.enode.meta.address.i e.inodes).1 ++ entry_tail e rest
  unfolding write_entry_to
  write_entry-append e rest =
      let head = (write_inodes_to e.enode.meta.address.i e.inodes).1 in
      let size = B.write 4 (length e.enode.payload % 2 ^ 32) in
      let payload = e.enode.payload in
      let hash = e.enode.meta.hash.value in
      append_assoc head (size ++ (payload ++ hash)) rest
      ∙ ap (λ (l : List ℕ). head ++ l)
          (append_assoc size (payload ++ hash) rest
            ∙ ap (λ (l : List ℕ). size ++ l) (append_assoc payload hash rest))

  -- An entry that the format can hold is read back as it was, from the bytes that were written and
  -- whatever follows them, which are left.
  pub read_entry-write_entry :
      (position : ℕ) (e : Entry) (rest : List ℕ)
      → IsStorable position e
      → read_entry_from position ((write_entry_to e).1 ++ rest) ≡ ok (e, rest)
  unfolding read_entry_from
  read_entry-write_entry position e rest w =
      rw
        (
          write_entry-append e rest,
          read_entry_from,
          read_inodes-write e.enode.meta.address.i position e.inodes (entry_tail e rest) w.index
              w.few w.inodes,
          read_uint-write 4 (length e.enode.payload % 2 ^ 32)
              (e.enode.payload ++ (e.enode.meta.hash.value ++ rest)) (omega arith),
          payload_length (length e.enode.payload) w.small,
          read_exact-append (length e.enode.payload) e.enode.payload
              (e.enode.meta.hash.value ++ rest) refl,
          read_exact-append H.size e.enode.meta.hash.value rest w.hash_size,
          ← w.own,
        )
        refl

  length-write_inode :
      (x : INode) → length (write_inode x) ≡ 1 + 8 + 8 + 1 + length x.meta.hash.value
  unfolding write_inode
  length-write_inode x = omega (
    arith,
    length-append (B.write 8 x.left.position)
        (B.write 8 x.left.i ++ (x.left.j ∷ x.meta.hash.value)),
    length-append (B.write 8 x.left.i) (x.left.j ∷ x.meta.hash.value),
    B.length-write 8 x.left.position,
    B.length-write 8 x.left.i,
  )

  length-write_inode_list :
      (xs : List INode) → length (write_inode_list xs).1 ≡ (write_inode_list xs).0
  unfolding write_inode_list
  length-write_inode_list [] = refl
  length-write_inode_list (x ∷ xs) = omega (
    arith,
    length-append (write_inode x) (write_inode_list xs).1,
    length-write_inode x,
    length-write_inode_list xs,
  )

  -- The length that `write_entry_to` returns is the number of bytes that it writes, for every
  -- entry.
  pub length-write_entry : (e : Entry) → length (write_entry_to e).1 ≡ (write_entry_to e).0
  unfolding write_entry_to write_inodes_to
  length-write_entry e = omega (
    arith,
    length-append (write_inodes_to e.enode.meta.address.i e.inodes).1 (
        B.write 4 (length e.enode.payload % 2 ^ 32)
        ++ (e.enode.payload ++ e.enode.meta.hash.value)),
    length-append (B.write 4 (length e.enode.payload % 2 ^ 32))
        (e.enode.payload ++ e.enode.meta.hash.value),
    length-append e.enode.payload e.enode.meta.hash.value,
    B.length-write 4 (length e.enode.payload % 2 ^ 32),
    B.length-write 8 e.enode.meta.address.i,
    length-append (B.write 8 e.enode.meta.address.i)
        (length e.inodes % 2 ^ 8 ∷ (write_inode_list e.inodes).1),
    length-write_inode_list e.inodes,
  )
