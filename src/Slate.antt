-- ===== src/Slate.antt =====
-- src/lib.rs: `Slate`, the tree over a storage, and the append of a value.
pub mod Spec
pub mod Build
pub mod Carry
pub mod Roots
pub mod Next
pub mod Append
pub mod Run
pub mod OnKvs
pub mod Sizes
pub mod OnBlocks
pub mod OnRocks
use stratified_hash_tree.Prelude.{
  ℕ, zero, suc, ◌+◌, ◌-◌, Option, none, some, List, [], ◌∷◌, Result, ok, err, panic, ◌>>=◌, length,
  ltb, if◌then◌else◌,
}
use stratified_hash_tree.Prelude.Words.{add64}
use stratified_hash_tree.Error.{Error, too_large_payload}
use stratified_hash_tree.Formula.Model
use stratified_hash_tree.Formula.Model.{Model, inodes, new}
use stratified_hash_tree.Hashing.{Hasher, Hash, from_bytes, combine}
use stratified_hash_tree.Entry.{Address, MetaInfo, INode, ENode, Entry, root}
use stratified_hash_tree.Cache
use stratified_hash_tree.Cache.{Cache, revision, root_of_cache, get_pbst_root, migrate}
use stratified_hash_tree.Storage.{Storage}

abbrev pub max_payload_size : ℕ
max_payload_size = 0x7FFFFFFF

abbrev pub address : ℕ → ℕ → ℕ → Address
address i j position = record { i = i; j = j; position = position }

-- `self.cache.root().map(|node| node.address.i + 1).unwrap_or(1)`
unfoldable pub next_index : Cache → ℕ
unfolding root_of_cache
next_index c = elim (root_of_cache c) [ none ↦ 1 | some node ↦ add64 node.address.i 1 ]

module _ ⦃H : Hasher⦄ where
  unfoldable pub new_leaf : ℕ → ℕ → List ℕ → ENode
  new_leaf i position value = record {
    meta = record { address = address i 0 position; hash = from_bytes 0 value };
    payload = value;
  }

  -- The node over a left tree and what stands below it on the right.
  unfoldable pub join : ℕ → Model.INode → MetaInfo → Hash → INode
  join position n left right_hash = record {
    meta = record {
      address = address n.node.i n.node.j position;
      hash = combine left.hash n.node.j right_hash;
    };
    left = left.address;
    right = address n.right.i n.right.j position;
  }

  -- The loop of `append` over the nodes of the new generation, from the lowest up.
  unfoldable pub build_inodes : Cache → ℕ → Hash → List Model.INode → Result Error (List INode)
  unfolding join get_pbst_root
  build_inodes c position right_hash [] = ok []
  build_inodes c position right_hash (n ∷ ns) = do
    left ← get_pbst_root c n.left.i n.left.j
    let node = join position n left right_hash
    rest ← build_inodes c position node.meta.hash ns
    ok (node ∷ rest)

  unfoldable pub new_entry : Cache → ℕ → List ℕ → Result Error Entry
  unfolding build_inodes next_index new_leaf
  new_entry c position value = do
    let i = next_index c
    let enode = new_leaf i position value
    nodes ← build_inodes c position enode.meta.hash (inodes (new i))
    ok (record { enode = enode; inodes = nodes })

-- What `append` returns: the index and position of the entry with the height and hash of its root.
unfoldable pub returned : Entry → MetaInfo
returned entry =
    let at = entry.enode.meta.address in
    record { address = address at.i (root entry).address.j at.position; hash = (root entry).hash }

pub record Slate (S : Storage) : Type 0 where
  pub position : ℕ
  pub storage : S.State
  pub cache : Cache

module _ (S : Storage) ⦃H : Hasher⦄ where
  -- The last part of `append`, once the entry is stored: the cache moves on.
  unfoldable pub advance : Slate S → Entry → ℕ → Result Error MetaInfo × Slate S
  unfolding returned
  advance s entry position = elim (migrate s.cache entry (new entry.enode.meta.address.i)) [
    | ok cache ↦ (ok (returned entry), record s { position = position; cache = cache })
    | err e ↦ (err e, record s { position = position })
    | panic ↦ (panic, record s { position = position })
  ]

  -- `?` on what `put` returned: on an error position and cache stay as they were.
  unfoldable pub conclude :
      Slate S → Entry → Result Error ℕ × S.State → Result Error MetaInfo × Slate S
  unfolding advance
  conclude s entry (ok position, storage) = advance (record s { storage = storage }) entry position
  conclude s entry (err e, storage) = (err e, record s { storage = storage })
  conclude s entry (panic, storage) = (panic, record s { storage = storage })

  unfoldable pub store : Slate S → Entry → Result Error MetaInfo × Slate S
  unfolding conclude
  store s entry = conclude s entry (S.put s.storage s.position entry)

  unfoldable pub append : Slate S → List ℕ → Result Error MetaInfo × Slate S
  unfolding store new_entry
  append s value =
      if ltb max_payload_size (length value)
      then (err (too_large_payload (length value)), s)
      else elim (new_entry s.cache s.position value) [
        | ok entry ↦ store s entry
        | err e ↦ (err e, s)
        | panic ↦ (panic, s)
      ]
