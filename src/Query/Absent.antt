-- ===== src/Query/Absent.antt =====
-- `truncate`, `snapshot_at` and the look-up of an index that is not in the generation.
use stratified_hash_tree.Prelude.{
  ℕ, zero, suc, ◌+◌, ◌^◌, ◌<◌, ◌≤◌, ◌≡◌, refl, ap, ◌∙◌, ◌==◌, false, none, List, [], ◌∷◌, ok, err,
  arith, leb, ◌&&◌,
}
use stratified_hash_tree.Error.{invalid_argument}
use stratified_hash_tree.Formula.Tree.{NodeIndex, root_of, contains}
use stratified_hash_tree.Hashing.{Hasher}
use stratified_hash_tree.Entry.{INode, Entry}
use stratified_hash_tree.Cache.{entry, last_entry}
use stratified_hash_tree.Storage.{Storage}
use stratified_hash_tree.Storage.Laws.{Lawful}
use stratified_hash_tree.Slate.{Slate}
use stratified_hash_tree.Slate.Spec.{Log, Linked, IsEntry}
use stratified_hash_tree.Slate.Run.{Follows}
use stratified_hash_tree.Query.{Query, find_left, read_entry_below, read_entry}
use stratified_hash_tree.Query.Load.{load_entry, snapshot_at, find_entry, truncate}
use stratified_hash_tree.Query.Descent.{Joined, joined, contains_at, find_left_later, Serves}
use stratified_hash_tree.Query.Entries.{read_entry_step, load_entry-invalid_argument}
use stratified_hash_tree.Query.Served.{Follows-Opens, find_entry_step}

-- The index is none of those from 1 to `n`.
abbrev pub IsAbsent : ℕ → ℕ → Type 0
IsAbsent n t = 0 < t → n < t

outside : (n lo high t : ℕ) → high ≤ n → IsAbsent n t → (leb (lo + 1) t && leb t high) ≡ false
outside n lo high zero le out = ground arith
outside n lo high (suc t) le out = let above = out (omega arith) in ground arith

module _ ⦃H : Hasher⦄ (log : Log) where
  left_outside :
      (m j t : ℕ) (x : INode)
      → m < 2 ^ 64
      → IsAbsent m t
      → Joined log m j x
      → contains x.left.i x.left.j t ≡ false
  left_outside m j t x h out y =
      let low = y.splits.low in
      ap (λ (p : NodeIndex). contains p.0 p.1 t) y.splits.left_is
      ∙ contains_at y.lo (y.lo + 2 ^ y.k) y.k t (omega (arith, y.splits.node.1)) (omega arith)
          y.splits.left_node
      ∙ outside m y.lo (y.lo + 2 ^ y.k) t (omega (arith, y.splits.node.1)) out

  find_left_outside :
      (m j top t : ℕ) (xs : List INode)
      → m < 2 ^ 64
      → IsAbsent m t
      → Linked log m j top xs
      → find_left t xs ≡ none
  unfolding find_left
  find_left_outside m j top t [] h out links = refl
  find_left_outside m j top t (x ∷ xs) h out links =
      find_left_later log t x xs (left_outside m j t x h out (joined log m j top x xs h links))
      ∙ find_left_outside m x.meta.address.j top t xs h out links.6

module _ (S : Storage) where
  stops :
      (fuel : ℕ) (q : Query S) (e : Entry) (t : ℕ)
      → (e.enode.meta.address.i == t) ≡ false
      → find_left t e.inodes ≡ none
      → read_entry_below S (suc fuel) q e t ≡ ok none
  unfolding read_entry_below
  stops fuel q e t other missing = rw (read_entry_below, other, missing) refl

  no_last :
      (fuel : ℕ) (q : Query S) (t : ℕ) → last_entry q.cache ≡ none → read_entry S fuel q t ≡ ok none
  unfolding read_entry entry last_entry
  no_last fuel q t missing = rw (read_entry, missing) refl

  truncate_nothing :
      (fuel t : ℕ) (s : Slate S)
      → find_entry S fuel s t ≡ ok none
      → truncate S fuel s t ≡ (ok false, s)
  unfolding truncate
  truncate_nothing fuel t s missing = rw (truncate, missing) refl

  snapshot_refused :
      (fuel t : ℕ) (s : Slate S)
      → load_entry S fuel s t ≡ err invalid_argument
      → snapshot_at S fuel s t ≡ err invalid_argument
  unfolding snapshot_at
  snapshot_refused fuel t s refused = rw (snapshot_at, refused) refl

module _ (S : Storage) (L : Lawful S) ⦃H : Hasher⦄ (log : Log) where
  not_below :
      (fuel m t : ℕ) (q : Query S) (e : Entry)
      → m < 2 ^ 64
      → 0 < m
      → IsAbsent m t
      → IsEntry log m e
      → read_entry_below S (suc fuel) q e t ≡ ok none
  not_below fuel m zero q e h pos out is =
      stops S fuel q e zero (ground (arith, is.leaf.index))
        (find_left_outside log m 0 (root_of m).1 zero e.inodes h out is.links)
  not_below fuel m (suc t) q e h pos out is =
      let above = out (omega arith) in
      stops S fuel q e (suc t) (ground (arith, is.leaf.index))
        (find_left_outside log m 0 (root_of m).1 (suc t) e.inodes h out is.links)

  read_entry_outside :
      (n fuel t : ℕ) (q : Query S)
      → n < 2 ^ 64
      → Serves S log n q
      → IsAbsent n t
      → read_entry S (suc fuel) q t ≡ ok none
  read_entry_outside zero fuel t q h serves out =
      no_last S (suc fuel) q t (serves.current.no_entry refl)
  read_entry_outside (suc n) fuel t q h serves out =
      let (e, last, is) = serves.current.has_last (omega arith) in
      read_entry_step S log (suc fuel) q t e last
      ∙ not_below fuel (suc n) t q e h (omega arith) out is

  -- On a slate that follows a log at generation `n`, below 2 ^ 64, over a lawful storage, with fuel
  -- for one step: for index 0 and for every index above `n`, the look-up of `truncate` searches the
  -- last entry and finds none, `truncate` returns false and leaves the slate and its storage as
  -- they are, and `snapshot_at` is an invalid argument.
  pub truncate_outside :
      (n fuel t : ℕ) (s : Slate S)
      → n < 2 ^ 64
      → Follows S L log n s
      → (0 < t → n < t)
      → (find_entry S (suc fuel) s t ≡ ok none)
        × (truncate S (suc fuel) s t ≡ (ok false, s))
        × (snapshot_at S (suc fuel) s t ≡ err invalid_argument)
  truncate_outside n fuel t s room f out =
      let o = Follows-Opens S L log n s f in
      let missing : find_entry S (suc fuel) s t ≡ ok none =
        find_entry_step S L log (suc fuel) t s o.cursor o.opens
        ∙ read_entry_outside n fuel t (record { cursor = o.cursor; cache = s.cache }) room o.serves
            out in
      (
        missing,
        truncate_nothing S (suc fuel) t s missing,
        snapshot_refused S (suc fuel) t s
            (load_entry-invalid_argument S log n (suc fuel) t s f.current out),
      )
