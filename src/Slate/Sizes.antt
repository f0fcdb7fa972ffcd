-- ===== src/Slate/Sizes.antt =====
-- How many nodes an entry has and how many bytes, and that the format can hold it.
use mathlib.Core.Path.{subst}
use stratified_hash_tree.Prelude.{
  ℕ, zero, suc, ◌+◌, ◌*◌, ◌-◌, ◌^◌, ◌≤◌, ◌<◌, ◌≡◌, refl, sym, ap, ap₂, ◌∙◌, List, [], ◌∷◌, ◌++◌,
  Bool-cases, inl, inr, false, arith, length, ◌==◌, if◌then◌else◌,
}
use stratified_hash_tree.Formula.Tree.{NodeIndex, subnodes_of, root_of}
use stratified_hash_tree.Entry.{Entry, INode}
use stratified_hash_tree.Formula.Arith.Logs.{ceil_log2_upper}
use stratified_hash_tree.Hashing.{Hasher, Hash, from_bytes, combine}
use native.Mathlib.Nat.{suc-mul, mul-le-mul}
use stratified_hash_tree.Serialize.{LittleEndian, write_inode_list, write_inodes_to, write_entry_to}
use stratified_hash_tree.Serialize.RoundTrip.{AreInodes, IsStorable, length-write_entry}
use stratified_hash_tree.Query.Descent.{joined}
use stratified_hash_tree.Slate.{max_payload_size, address}
use stratified_hash_tree.Slate.Spec.{Log, HashOf, at_leaf, at_node, Describes, Linked, IsEntry}

-- The number of nodes of an entry: how often the descent from the height `j` turns right until it
-- is at the leaf.
unfoldable pub joins_below : ℕ → ℕ → ℕ → ℕ
joins_below zero n j = 0
joins_below (suc fuel) n j = if j == 0 then 0 else suc (joins_below fuel n (subnodes_of n j).1.1)

joins_below_leaf : (fuel n : ℕ) → joins_below fuel n 0 ≡ 0
unfolding joins_below
joins_below_leaf zero n = refl
joins_below_leaf (suc fuel) n = refl

joins_below_le : (fuel n j : ℕ) → joins_below fuel n j ≤ fuel
unfolding joins_below
joins_below_le zero n j = omega arith
joins_below_le (suc fuel) n j = elim (Bool-cases (j == 0)) [
  | inl leaf ↦ rw leaf (omega arith)
  | inr inner ↦ rw inner (omega (arith, joins_below_le fuel n (subnodes_of n j).1.1))
]

module _ ⦃H : Hasher⦄ (log : Log) where
  joins_below_step :
      (fuel n j : ℕ) (x : INode)
      → j < x.meta.address.j
      → subnodes_of n x.meta.address.j ≡ ((x.left.i, x.left.j), (n, j))
      → joins_below (suc fuel) n x.meta.address.j ≡ suc (joins_below fuel n j)
  unfolding joins_below
  joins_below_step fuel n j x lt sub =
      let inner : (x.meta.address.j == 0) ≡ false = ground arith in
      let right : (subnodes_of n x.meta.address.j).1.1 ≡ j =
        ap (λ (p : NodeIndex × NodeIndex). p.1.1) sub in
      rw (joins_below, inner, right) refl

  joins_below-Linked :
      (fuel n j top : ℕ) (xs : List INode)
      → Linked log n j top xs
      → joins_below (fuel + length xs) n top ≡ length xs + joins_below fuel n j
  joins_below-Linked fuel n j top [] links =
      ap (λ (f : ℕ). joins_below f n top) (omega arith)
      ∙ ap (joins_below fuel n) (sym links)
      ∙ omega arith
  joins_below-Linked fuel n j top (x ∷ xs) links =
      let more : fuel + suc (length xs) ≡ suc fuel + length xs = omega arith in
      ap (λ (f : ℕ). joins_below f n top) more
      ∙ joins_below-Linked (suc fuel) n x.meta.address.j top xs links.6
      ∙ ap (λ (m : ℕ). length xs + m) (joins_below_step fuel n j x links.1 links.3)
      ∙ omega arith

  height-Linked : (n j top : ℕ) (xs : List INode) → Linked log n j top xs → j + length xs ≤ top
  height-Linked n j top [] links = omega (arith, links)
  height-Linked n j top (x ∷ xs) links =
      omega (arith, links.1, height-Linked n x.meta.address.j top xs links.6)

  -- The nodes of an entry are as many as the right turns down from the root, at most 64.
  pub count-IsEntry :
      (n : ℕ) (e : Entry)
      → 0 < n
      → n < 2 ^ 64
      → IsEntry log n e
      → (length e.inodes ≡ joins_below 64 n (root_of n).1) × (length e.inodes ≤ 64)
  unfolding root_of joins_below
  count-IsEntry n e pos h entry =
      let low : length e.inodes ≤ 64 = omega (
        arith,
        height-Linked n 0 (root_of n).1 e.inodes entry.links,
        (ceil_log2_upper n pos h).1,
      ) in
      let split : 64 ≡ 64 - length e.inodes + length e.inodes = omega arith in
      (
        sym (
            ap (λ (f : ℕ). joins_below f n (root_of n).1) split
            ∙ joins_below-Linked (64 - length e.inodes) n 0 (root_of n).1 e.inodes entry.links
            ∙ ap (λ (m : ℕ). length e.inodes + m) (joins_below_leaf (64 - length e.inodes) n)
            ∙ omega arith),
        low,
      )

  -- Every hash is of the size of the hash function.
  pub length-HashOf : (i j : ℕ) (h : Hash) → HashOf log.payload i j h → length h.value ≡ H.size
  unfolding from_bytes combine
  length-HashOf i zero h (at_leaf e) = rw e (H.length-digest (0 ∷ log.payload i))
  length-HashOf i (suc k) h (at_node {hl = hl} {hr = hr} s l r e) =
      rw e (H.length-digest (suc k ∷ (hl.value ++ hr.value)))

module _ ⦃H : Hasher⦄ ⦃B : LittleEndian⦄ where
  -- The number of bytes of the entry of index `n` with a value of `m` bytes.
  abbrev pub entry_size : ℕ → ℕ → ℕ
  entry_size n m = 8 + 1 + joins_below 64 n (root_of n).1 * (18 + H.size) + (4 + m + H.size)

  -- With digests of at most 64 bytes and values of a size allowed, an entry is shorter than 2 ^ 32.
  pub entry_size_lt : (n m : ℕ) → H.size ≤ 64 → m ≤ max_payload_size → entry_size n m + 12 < 2 ^ 32
  entry_size_lt n m hash small = omega (
    arith,
    mul-le-mul (joins_below_le 64 n (root_of n).1)
        (let wide : 18 + H.size ≤ 82 = omega arith in wide),
  )

  -- The format can hold the entry, in as many bytes as computed.
  pub record Holdable (log : Log) (n : ℕ) (e : Entry) : Type 0 where
    pub storable : IsStorable (log.position n) e
    pub size : length (write_entry_to e).1 ≡ entry_size n (length (log.payload n))

  inode_list_size :
      (i position j : ℕ) (xs : List INode)
      → AreInodes i position j xs
      → (write_inode_list xs).0 ≡ length xs * (18 + H.size)
  unfolding write_inode_list
  inode_list_size i position j [] are = omega arith
  inode_list_size i position j (x ∷ xs) are = omega (
    arith,
    are.0.hash_size,
    inode_list_size i position x.meta.address.j xs are.1,
    suc-mul (length xs) (18 + H.size),
  )

  module _ (log : Log) (n : ℕ) (in_range : n < 2 ^ 64)
      (positions : (i : ℕ) → i ≤ n → log.position i < 2 ^ 64) where
    Linked-AreInodes :
        (j top : ℕ) (xs : List INode)
        → top ≤ 64
        → Linked log n j top xs
        → AreInodes n (log.position n) j xs
    Linked-AreInodes j top [] low links = tt
    Linked-AreInodes j top (x ∷ xs) low links =
        let y = joined log n j top x xs in_range links in
        let left_i : x.left.i ≡ y.lo + 2 ^ y.k = ap (λ (p : NodeIndex). p.0) y.splits.left_is in
        let earlier : x.left.i < n = omega (arith, left_i, y.splits.node.1) in
        (
          record {
            own_i = links.0.index;
            own_position = links.0.stored_at;
            low = omega (arith, links.1);
            high = omega (arith, height-Linked log n x.meta.address.j top xs links.6);
            hash_size = length-HashOf log n x.meta.address.j x.meta.hash links.0.hash_of;
            left_i = omega arith;
            left_position = omega (arith, links.2, positions x.left.i (omega arith));
            right = links.5;
          },
          Linked-AreInodes x.meta.address.j top xs low links.6,
        )

    own_address :
        (e : Entry)
        → Describes log n 0 e.enode.meta
        → e.enode.meta.address ≡ address e.enode.meta.address.i 0 (log.position n)
    own_address e leaf =
        ap₂ (λ (j p : ℕ). address e.enode.meta.address.i j p) leaf.height leaf.stored_at

    pub IsEntry-Holdable :
        (e : Entry)
        → 0 < n
        → length (log.payload n) ≤ max_payload_size
        → IsEntry log n e
        → Holdable log n e
    unfolding write_entry_to write_inodes_to root_of
    IsEntry-Holdable e pos small entry =
        let (count, few) = count-IsEntry log n e pos in_range entry in
        let inodes =
          Linked-AreInodes 0 (root_of n).1 e.inodes (ceil_log2_upper n pos in_range).1
            entry.links in
        let hash = length-HashOf log n 0 e.enode.meta.hash entry.leaf.hash_of in
        record {
          storable = record {
            index = omega (arith, entry.leaf.index);
            own = own_address e entry.leaf;
            few = omega (arith, few);
            inodes =
                subst (λ (i : ℕ). AreInodes i (log.position n) 0 e.inodes) (sym entry.leaf.index)
                  inodes;
            small = omega (arith, ap length entry.value);
            hash_size = hash;
          };
          size = omega (
            arith,
            length-write_entry e,
            inode_list_size n (log.position n) 0 e.inodes inodes,
            ap length entry.value,
            hash,
            ap (λ (c : ℕ). c * (18 + H.size)) count,
          );
        }
