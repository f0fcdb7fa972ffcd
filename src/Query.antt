-- ===== src/Query.antt =====
-- src/lib.rs: a query reads the entries of a snapshot, from its cache or from the storage, on the
-- way from the root down. The callback of a walk is a function that passes a state on. A walk goes
-- down one node with each call, and the fuel bounds how deep the calls are nested: a walk that goes
-- deeper ends in `panic`.
pub mod Load
pub mod Descent
pub mod Entries
pub mod Served
pub mod Reopen
pub mod Absent
pub mod Places
pub mod Walk
pub mod Turns
pub mod Get
pub mod Scan
pub mod Gather
pub mod Collects
pub mod Snapshot
pub mod Sampled
use stratified_hash_tree.Prelude.{
  ℕ, zero, suc, ◌-◌, ◌==◌, Bool, true, false, not, ◌&&◌, ◌||◌, Option, none, some, List, [], ◌∷◌,
  ◌++◌, Result, ok, err, panic, ◌>>=◌, unwrap, ltb, leb, min, max, if◌then◌else◌, length, get_elem?,
}
use stratified_hash_tree.Prelude.Words.{add64, sub64}
use stratified_hash_tree.Error.{Error, internal_state_inconsistency, invalid_argument}
use stratified_hash_tree.Formula.Tree.{NodeIndex, subnodes_of, contains}
use stratified_hash_tree.Hashing.{Hash, Value}
use stratified_hash_tree.Entry.{Address, MetaInfo, INode, ENode, Entry}
use stratified_hash_tree.Cache.{Cache, revision, last_entry, entry}
use stratified_hash_tree.Storage.{Storage, Visitor}
use stratified_hash_tree.Sample.{StratumSample}

pub data WalkDirection : Type 0 where
  left : WalkDirection
  right : WalkDirection
  both : WalkDirection
  terminate : WalkDirection

-- A callback takes the revision, the index and height of a node, its hash and the value of a leaf.
abbrev pub Callback : Type 0 → Type 0
Callback σ = ℕ → ℕ → ℕ → Hash → Option (List ℕ) → σ → WalkDirection × σ

-- `Query`: the reader and the cache of the snapshot.
pub record Query (S : Storage) : Type 0 where
  pub cursor : S.Reader
  pub cache : Cache

-- An inconsistent state is a panic: the feature `panic_over_inconsistency` is on by default.
abbrev pub inconsistency : {A : Type 0} → Result Error A
inconsistency = panic

-- The first inode whose left subnode contains the index.
unfoldable pub find_left : ℕ → List INode → Option INode
find_left i [] = none
find_left i (x ∷ xs) = if contains x.left.i x.left.j i then some x else find_left i xs

-- The place of the inode of a height, counted from 1.
unfoldable pub place_of : ℕ → List INode → Option ℕ
place_of j [] = none
place_of j (x ∷ xs) =
    if x.meta.address.j == j
    then some 1
    else elim (place_of j xs) [ none ↦ none | some k ↦ some (suc k) ]

-- The height, hash and value at a place of an entry; a place past the last inode is a panic.
unfoldable pub node_at : ℕ → Entry → Result Error (ℕ × Hash × Option (List ℕ))
node_at zero e = ok (e.enode.meta.address.j, e.enode.meta.hash, some e.enode.payload)
node_at (suc k) e = do x ← unwrap (get_elem? e.inodes k); ok (x.meta.address.j, x.meta.hash, none)

unfoldable pub goes_right : WalkDirection → Bool
goes_right left = false
goes_right right = true
goes_right both = true
goes_right terminate = false

unfoldable pub goes_left : WalkDirection → Bool
goes_left left = true
goes_left right = false
goes_left both = true
goes_left terminate = false

module _ (S : Storage) where
  unfoldable pub read_entry_with_index_check : S.Reader → ℕ → ℕ → Result Error Entry
  read_entry_with_index_check r position expected_index = do
    e ← S.read r position
    if e.enode.meta.address.i == expected_index then ok e else err internal_state_inconsistency

  -- The entry that holds a node: the cached one, or else that at its position.
  unfoldable pub holder : Query S → Address → Result Error Entry
  unfolding read_entry_with_index_check
  holder q address = elim (entry q.cache address.i) [
    | some e ↦ ok e
    | none ↦ read_entry_with_index_check q.cursor address.position address.i
  ]

  module _ {σ : Type 0} (callback : Callback σ) where
    unfoldable pub walk : ℕ → Query S → ℕ → Entry → σ → Result Error σ
    unfolding node_at holder place_of goes_right goes_left
    walk zero q node_index e state = panic
    walk (suc fuel) q node_index e state = do
      node ← node_at node_index e
      let called = callback (revision q.cache) e.enode.meta.address.i node.0 node.1 node.2 state
      elim (node_index == 0) [
        | true ↦ ok called.1
        | false ↦ do
          after_right ← elim (goes_right called.0) [
            | true ↦ walk fuel q (node_index - 1) e called.1
            | false ↦ ok called.1
          ]
          elim (goes_left called.0) [
            | false ↦ ok after_right
            | true ↦ do
              current ← unwrap (get_elem? e.inodes (node_index - 1))
              below ← holder q current.left
              elim (current.left.j == 0) [
                | true ↦ walk fuel q 0 below after_right
                | false ↦ elim (place_of current.left.j below.inodes) [
                  | none ↦ inconsistency
                  | some place ↦ walk fuel q place below after_right
                ]
              ]
          ]
      ]

    unfoldable pub walk_down : ℕ → Query S → σ → Result Error σ
    unfolding walk
    walk_down fuel q state = elim (last_entry q.cache) [
      | none ↦ ok state
      | some e ↦ walk fuel q (length e.inodes) e state
    ]

  -- The callback of `get`: it steers to the leaf `i` and keeps its value. A leaf without a value is
  -- never passed.
  unfoldable pub steer :
      ℕ → ℕ → ℕ → ℕ → Hash → Option (List ℕ) → Option (List ℕ) → WalkDirection × Option (List ℕ)
  steer i n bi bj hash value result =
      if bi == i
      then (if bj == 0 then (terminate, value) else (right, result))
      else let (ir, jr) = (subnodes_of bi bj).1 in
        if contains ir jr i then (right, result) else (left, result)

  unfoldable pub get : ℕ → Query S → ℕ → Result Error (Option (List ℕ))
  unfolding walk_down steer
  get fuel q i =
      if i == 0 || ltb (revision q.cache) i then ok none else walk_down (steer i) fuel q none

  -- The callback of `get_sample`: the hashes beside the path, and the value at its end.
  unfoldable pub gather :
      ℕ
      → ℕ
      → ℕ
      → ℕ
      → Hash
      → Option (List ℕ)
      → List (NodeIndex × Hash) × Option (List ℕ)
      → WalkDirection × (List (NodeIndex × Hash) × Option (List ℕ))
  gather i n bi bj hash value (witnesses, leaf_data) =
      if not (contains bi bj i)
      then (terminate, (((bi, bj), hash) ∷ witnesses, leaf_data))
      else if bj == 0
      then (terminate, (witnesses, value))
      else (both, (witnesses, leaf_data))

  unfoldable pub get_sample : ℕ → Query S → ℕ → Result Error (Option StratumSample)
  unfolding walk_down gather
  get_sample fuel q i = do
    found ← walk_down (gather i) fuel q ([], none)
    ok (elim found.1 [
      | none ↦ none
      | some value ↦ some (record {
        revision = revision q.cache;
        leaf = record { i = i; value = value };
        witnesses = found.0;
      })
    ])

  -- The inner function of `read_entry`.
  unfoldable pub read_entry_below : ℕ → Query S → Entry → ℕ → Result Error (Option Entry)
  unfolding find_left holder
  read_entry_below zero q e i = panic
  read_entry_below (suc fuel) q e i = elim (e.enode.meta.address.i == i) [
    | true ↦ ok (some e)
    | false ↦ elim (find_left i e.inodes) [
      | none ↦ ok none
      | some x ↦ do below ← holder q x.left; read_entry_below fuel q below i
    ]
  ]

  unfoldable pub read_entry : ℕ → Query S → ℕ → Result Error (Option Entry)
  unfolding read_entry_below
  read_entry fuel q i = elim (entry q.cache (revision q.cache)) [
    | none ↦ ok none
    | some e ↦ read_entry_below fuel q e i
  ]

  -- `scan` once the range is cut to the generation.
  unfoldable pub scan_range :
      {X C : Type 0} → ℕ → Query S → ℕ → ℕ → Visitor X C → C → Result Error ℕ × C
  unfolding read_entry
  scan_range fuel q i0 i1 callback c =
      if ltb i1 i0 then (ok 0, c) else elim (read_entry fuel q i0) [
        | ok (some e) ↦
            S.scan q.cursor e.enode.meta.address.position (add64 (sub64 i1 i0) 1) callback c
        | ok none ↦ (ok 0, c)
        | err e ↦ (err e, c)
        | panic ↦ (panic, c)
      ]

  unfoldable pub scan : {X C : Type 0} → ℕ → Query S → ℕ → ℕ → Visitor X C → C → Result Error ℕ × C
  unfolding scan_range
  scan fuel q i0 i1 callback c =
      let low = if leb i0 i1 then i0 else i1 in
      let high = if leb i0 i1 then i1 else i0 in
      scan_range fuel q (max low 1) (min high (revision q.cache)) callback c
