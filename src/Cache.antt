-- ===== src/Cache.antt =====
-- src/cache.rs: the cached entries and the roots of the perfect trees of the latest generation.
-- The map from an index to a root's metadata and the map to entries are `Map`s; the shared pointers
-- around an entry are not modelled, since an entry is never changed.
use stratified_hash_tree.Prelude.{
  ℕ, zero, suc, Option, none, some, List, [], ◌∷◌, Result, ok, ◌>>=◌, unwrap, ◌==◌, if◌then◌else◌,
  Bool, length,
}
use stratified_hash_tree.Prelude.Map.{Map, lookup, insert}
use stratified_hash_tree.Error.{Error}
use stratified_hash_tree.Formula.Tree.{Addr}
use stratified_hash_tree.Formula.Model.{Model}
use stratified_hash_tree.Entry.{MetaInfo, INode, Entry, inode, root}

pub record Cache : Type 0 where
  pub level : ℕ
  pub model : Option Model
  pub cache : Map Entry
  pub pbst_roots : Map MetaInfo

unfoldable pub empty : ℕ → Cache
empty level = record { level = level; model = none; cache = []; pbst_roots = [] }

unfoldable pub len : Cache → ℕ
len c = length c.cache

unfoldable pub is_empty : Cache → Bool
is_empty c = length c.cache == 0

unfoldable pub entry : Cache → ℕ → Option Entry
entry c i = lookup i c.cache

unfoldable pub revision : Cache → ℕ
revision c = elim c.model [ none ↦ 0 | some m ↦ m.n ]

unfoldable pub last_entry : Cache → Option Entry
unfolding revision
last_entry c = lookup (revision c) c.cache

unfoldable pub root_of_cache : Cache → Option MetaInfo
unfolding last_entry
root_of_cache c = elim (last_entry c) [ none ↦ none | some e ↦ some (root e) ]

-- A missing root is a panic.
unfoldable pub get_pbst_root : Cache → ℕ → ℕ → Result Error MetaInfo
get_pbst_root c i j = unwrap (lookup i c.pbst_roots)

-- The metadata of one root of the next generation: the old map's, or that of the entry which holds
-- the node, the new one or a cached one.
unfoldable pub root_meta : Cache → Entry → Addr → Result Error MetaInfo
unfolding entry
root_meta c e root = elim (lookup root.i c.pbst_roots) [
  | some meta ↦ ok meta
  | none ↦ do
    holder ← if root.i == e.enode.meta.address.i then ok e else unwrap (entry c root.i)
    if root.j == 0 then ok holder.enode.meta else do x ← unwrap (inode holder root.j); ok x.meta
]

-- `collect` into a map, from the left.
unfoldable pub collect_roots :
    Cache → Entry → List Addr → Map MetaInfo → Result Error (Map MetaInfo)
unfolding root_meta
collect_roots c e [] m = ok m
collect_roots c e (root ∷ rest) m = do
  meta ← root_meta c e root
  collect_roots c e rest (insert root.i meta m)

-- `migrate_cache` copies the entries that `distance` steps to the left from `inodes` reach; the
-- entry whose inodes are gone through stands outside, so the recursion is on the distance.
migrate_inodes :
    Map Entry
    → (List INode → Map Entry → Result Error (Map Entry))
    → List INode
    → Map Entry
    → Result Error (Map Entry)
migrate_inodes old deeper [] new_cache = ok new_cache
migrate_inodes old deeper (x ∷ xs) new_cache = do
  left_entry ← unwrap (lookup x.left.i old)
  reached ← deeper left_entry.inodes new_cache
  migrate_inodes old deeper xs (insert x.left.i left_entry reached)

unfoldable pub migrate_cache : Map Entry → ℕ → List INode → Map Entry → Result Error (Map Entry)
unfolding migrate_inodes
migrate_cache old zero inodes new_cache = ok new_cache
migrate_cache old (suc distance) inodes new_cache =
    migrate_inodes old (migrate_cache old distance) inodes new_cache

unfoldable pub migrate : Cache → Entry → Model → Result Error Cache
unfolding collect_roots migrate_cache
migrate c e model = do
  pbst_roots ← collect_roots c e model.pbst_roots []
  cache ← migrate_cache c.cache c.level e.inodes []
  ok (record {
    level = c.level;
    model = some model;
    cache = insert e.enode.meta.address.i e cache;
    pbst_roots = pbst_roots;
  })
