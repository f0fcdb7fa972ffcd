-- ===== src/Query/Snapshot.antt =====
-- src/lib.rs: a slate opened and looked at, its snapshots, and the query on one.
use stratified_hash_tree.Prelude.{
  ℕ, ◌<◌, ◌≡◌, refl, ◌∙◌, Option, none, some, Result, ok, ◌>>=◌, unwrap,
}
use stratified_hash_tree.Error.{Error}
use stratified_hash_tree.Formula.Tree.{root_of}
use stratified_hash_tree.Hashing.{Hasher}
use stratified_hash_tree.Entry.{MetaInfo, Entry, root}
use stratified_hash_tree.Cache.{Cache, revision, entry, last_entry, root_of_cache}
use stratified_hash_tree.Storage.{Storage}
use stratified_hash_tree.Slate.{Slate}
use stratified_hash_tree.Slate.Spec.{Log, Describes, IsCurrent}
use stratified_hash_tree.Query.{Query}
use stratified_hash_tree.Query.Load.{with_cache_level}

module _ (S : Storage) where
  pub record Snapshot : Type 0 where
    pub cache : Cache
    pub storage : S.State

  -- A snapshot of no entries has no root: a panic.
  unfoldable pub snapshot_root : Snapshot → Result Error MetaInfo
  unfolding entry
  snapshot_root s = do e ← unwrap (entry s.cache (revision s.cache)); ok (root e)

  unfoldable pub snapshot_revision : Snapshot → ℕ
  snapshot_revision s = revision s.cache

  unfoldable pub query : Snapshot → Result Error (Query S)
  query s = do cursor ← S.reader s.storage; ok (record { cursor = cursor; cache = s.cache })

  unfoldable pub snapshot : Slate S → Snapshot
  snapshot s = record { cache = s.cache; storage = s.storage }

  unfoldable pub open_slate : S.State → Result Error (Slate S)
  unfolding with_cache_level
  open_slate storage = with_cache_level S storage 0

  unfoldable pub slate_root : Slate S → Option MetaInfo
  unfolding root_of_cache
  slate_root s = root_of_cache s.cache

  unfoldable pub slate_size : Slate S → ℕ
  slate_size s = revision s.cache

  unfoldable pub height : Slate S → ℕ
  unfolding slate_root
  height s = elim (slate_root s) [ none ↦ 0 | some m ↦ m.address.j ]

  module _ ⦃H : Hasher⦄ (log : Log) where
    root_step :
        (s : Slate S) (e : Entry) → last_entry s.cache ≡ some e → slate_root s ≡ some (root e)
    unfolding slate_root
    root_step s e last = rw (slate_root, root_of_cache, last) refl

    height_step : (s : Slate S) (m : MetaInfo) → slate_root s ≡ some m → height s ≡ m.address.j
    unfolding height
    height_step s m found = rw (height, found) refl

    size_step : (s : Slate S) → slate_size s ≡ revision s.cache
    unfolding slate_size
    size_step s = refl

    -- What a slate on a generation tells of itself.
    pub record Tells (n : ℕ) (s : Slate S) : Type 0 where
      pub size : slate_size s ≡ n
      pub top : MetaInfo
      pub top_is : slate_root s ≡ some top
      pub describes : Describes log n (root_of n).1 top
      pub high : height s ≡ (root_of n).1

    pub IsCurrent-Tells : (n : ℕ) (s : Slate S) → 0 < n → IsCurrent log n s.cache → Tells n s
    IsCurrent-Tells n s pos current =
        let (e, last, is_entry) = current.has_last pos in
        record {
          size = size_step s ∙ current.at_revision;
          top = root e;
          top_is = root_step s e last;
          describes = is_entry.top;
          high = height_step s (root e) (root_step s e last) ∙ is_entry.top.height;
        }

    pub query_step :
        (s : Slate S) (cursor : S.Reader)
        → S.reader s.storage ≡ ok cursor
        → query (snapshot s) ≡ ok (record { cursor = cursor; cache = s.cache })
    unfolding query snapshot
    query_step s cursor opens = rw (query, opens) refl
