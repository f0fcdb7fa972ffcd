-- ===== src/Query/Entries.antt =====
-- `read_entry` and `load_entry` find the entry of every index of the generation; `load_entry` of
-- any other is refused.
use mathlib.Core.Path.{subst}
use stratified_hash_tree.Prelude.{
  ℕ, zero, suc, ◌^◌, ◌≤◌, ◌<◌, ◌≡◌, refl, sym, ◌∙◌, inl, inr, ◌==◌, ==_iff, Bool-cases, true, false,
  none, some, Option-cases, ok, err, arith, ltb, ◌||◌,
}
use stratified_hash_tree.Prelude.Map.{lookup}
use stratified_hash_tree.Error.{invalid_argument}
use stratified_hash_tree.Hashing.{Hasher}
use stratified_hash_tree.Entry.{INode, Entry}
use stratified_hash_tree.Cache.{Cache, entry, revision, last_entry}
use stratified_hash_tree.Storage.{Storage}
use stratified_hash_tree.Slate.{Slate}
use stratified_hash_tree.Slate.Spec.{Log, IsEntry, IsCurrent}
use stratified_hash_tree.Query.{Query, find_left, holder, read_entry_below, read_entry}
use stratified_hash_tree.Query.Load.{seek_entry, load_entry}
use stratified_hash_tree.Query.Descent.{find_left-IsEntry, Serves, holder_lem}

module _ (S : Storage) ⦃H : Hasher⦄ (log : Log) where
  read_below_here :
      (fuel : ℕ) (q : Query S) (e : Entry) (t : ℕ)
      → e.enode.meta.address.i ≡ t
      → (read_entry_below S (suc fuel) q e t ≡ ok (some e)) × (seek_entry S (suc fuel) q e t ≡ ok e)
  unfolding read_entry_below seek_entry
  read_below_here fuel q e t here =
      let same : (e.enode.meta.address.i == t) ≡ true = (==_iff _ _).1 here in
      (rw (read_entry_below, same) refl, rw (seek_entry, same) refl)

  read_below_turn :
      (fuel : ℕ) (q : Query S) (e : Entry) (t : ℕ) (x : INode) (below : Entry)
      → (e.enode.meta.address.i == t) ≡ false
      → find_left t e.inodes ≡ some x
      → holder S q x.left ≡ ok below
      → (read_entry_below S (suc fuel) q e t ≡ read_entry_below S fuel q below t)
        × (seek_entry S (suc fuel) q e t ≡ seek_entry S fuel q below t)
  unfolding read_entry_below seek_entry
  read_below_turn fuel q e t x below other found held =
      (rw (read_entry_below, other, found, held) refl, rw (seek_entry, other, found, held) refl)

  -- Both loops arrive, with as much fuel as there are entries.
  pub record Arrives (fuel : ℕ) (q : Query S) (e : Entry) (t : ℕ) : Type 0 where
    pub found : Entry
    pub reads : read_entry_below S fuel q e t ≡ ok (some found)
    pub seeks : seek_entry S fuel q e t ≡ ok found
    pub is_entry : IsEntry log t found

  pub read_below-Arrives :
      (n fuel m t : ℕ) (q : Query S) (e : Entry)
      → n < 2 ^ 64
      → Serves S log n q
      → m ≤ fuel
      → IsEntry log m e
      → m ≤ n
      → 0 < t
      → t ≤ m
      → Arrives fuel q e t
  read_below-Arrives n zero m t q e h serves hf entry le pos high = absurd (omega arith)
  read_below-Arrives n (suc fuel) m t q e h serves hf entry le pos high =
      elim (Bool-cases (e.enode.meta.address.i == t)) [
        | inl same ↦
            let here : e.enode.meta.address.i ≡ t = (==_iff _ _).0 same in
            let at : m ≡ t = sym entry.leaf.index ∙ here in
            let (reads, seeks) = read_below_here fuel q e t here in
            record {
              found = e;
              reads = reads;
              seeks = seeks;
              is_entry = subst (λ (k : ℕ). IsEntry log k e) at entry;
            }
        | inr other ↦
            let lt : t < m = ground (arith, entry.leaf.index) in
            let (x, found, turns) = find_left-IsEntry log m t e (omega arith) entry pos lt in
            let (below, held, is_below) =
              holder_lem S log n q x.left serves turns.stored_at (omega (arith, turns.reaches))
                (omega (arith, turns.earlier)) in
            let (reads, seeks) = read_below_turn fuel q e t x below other found held in
            let rest =
              read_below-Arrives n fuel x.left.i t q below h serves (omega (arith, turns.earlier))
                is_below (omega (arith, turns.earlier)) pos turns.reaches in
            record {
              found = rest.found;
              reads = reads ∙ rest.reads;
              seeks = seeks ∙ rest.seeks;
              is_entry = rest.is_entry;
            }
      ]

  pub read_entry_step :
      (fuel : ℕ) (q : Query S) (t : ℕ) (e : Entry)
      → last_entry q.cache ≡ some e
      → read_entry S fuel q t ≡ read_entry_below S fuel q e t
  unfolding read_entry entry last_entry
  read_entry_step fuel q t e found = rw (read_entry, found) refl

  -- In a query on generation `n` of a log, below 2 ^ 64, with fuel for `n` steps, `read_entry` of
  -- an index from 1 to `n` returns the entry of that index.
  pub read_entry-IsEntry :
      (n fuel t : ℕ) (q : Query S)
      → n < 2 ^ 64
      → Serves S log n q
      → n ≤ fuel
      → 0 < t
      → t ≤ n
      → (r : Entry) × (read_entry S fuel q t ≡ ok (some r)) × IsEntry log t r
  read_entry-IsEntry n fuel t q h serves hf pos high =
      let (e, last, is_entry) = serves.current.has_last (omega arith) in
      let arrives = read_below-Arrives n fuel n t q e h serves hf is_entry (omega arith) pos high in
      (arrives.found, read_entry_step fuel q t e last ∙ arrives.reads, arrives.is_entry)

  load_entry_cached :
      (fuel : ℕ) (s : Slate S) (i : ℕ) (e : Entry)
      → (i == 0 || ltb (revision s.cache) i) ≡ false
      → entry s.cache i ≡ some e
      → load_entry S fuel s i ≡ ok e
  unfolding load_entry
  load_entry_cached fuel s i e valid found = rw (load_entry, valid, found) refl

  load_entry_seek :
      (fuel : ℕ) (s : Slate S) (i : ℕ) (last : Entry) (r : S.Reader)
      → (i == 0 || ltb (revision s.cache) i) ≡ false
      → entry s.cache i ≡ none
      → entry s.cache (revision s.cache) ≡ some last
      → S.reader s.storage ≡ ok r
      → load_entry S fuel s i ≡ seek_entry S fuel (record { cursor = r; cache = s.cache }) last i
  unfolding load_entry
  load_entry_seek fuel s i last r valid missing found opens =
      rw (load_entry, valid, missing, found, opens) refl

  in_range :
      (n t : ℕ) (c : Cache)
      → revision c ≡ n
      → 0 < t
      → t ≤ n
      → (t == 0 || ltb (revision c) t) ≡ false
  in_range n t c at pos le = ground (arith, at)

  beyond_range :
      (n t : ℕ) (c : Cache)
      → revision c ≡ n
      → (0 < t → n < t)
      → (t == 0 || ltb (revision c) t) ≡ true
  beyond_range n zero c at out = refl
  beyond_range n (suc t) c at out = let above = out (omega arith) in ground (arith, at)

  cached_at :
      (s : Slate S) (t : ℕ) (e : Entry) → entry s.cache t ≡ some e → lookup t s.cache.cache ≡ some e
  unfolding entry
  cached_at s t e found = found

  last_at :
      (s : Slate S) (e : Entry)
      → last_entry s.cache ≡ some e
      → entry s.cache (revision s.cache) ≡ some e
  unfolding entry last_entry
  last_at s e found = found

  -- A slate at generation `n` of a log, below 2 ^ 64, whose storage opens to a reader of the
  -- entries. With fuel for `n` steps, `load_entry` of an index from 1 to `n` returns the entry of
  -- that index.
  pub load_entry-IsEntry :
      (n fuel t : ℕ) (s : Slate S) (r : S.Reader)
      → n < 2 ^ 64
      → S.reader s.storage ≡ ok r
      → Serves S log n (record { cursor = r; cache = s.cache })
      → n ≤ fuel
      → 0 < t
      → t ≤ n
      → (e : Entry) × (load_entry S fuel s t ≡ ok e) × IsEntry log t e
  load_entry-IsEntry n fuel t s r h opens serves hf pos le =
      let current = serves.current in
      let valid = in_range n t s.cache current.at_revision pos le in
      elim (Option-cases (entry s.cache t)) [
        | inr (e, found) ↦ (
          e,
          load_entry_cached fuel s t e valid found,
          current.cached t e (cached_at s t e found),
        )
        | inl missing ↦
            let (last, found, is_entry) = current.has_last (omega arith) in
            let arrives =
              read_below-Arrives n fuel n t (record { cursor = r; cache = s.cache }) last h serves
                hf is_entry (omega arith) pos le in
            (
              arrives.found,
              load_entry_seek fuel s t last r valid missing (last_at s last found) opens
                  ∙ arrives.seeks,
              arrives.is_entry,
            )
      ]

  load_entry_out :
      (fuel t : ℕ) (s : Slate S)
      → (t == 0 || ltb (revision s.cache) t) ≡ true
      → load_entry S fuel s t ≡ err invalid_argument
  unfolding load_entry
  load_entry_out fuel t s out = rw (load_entry, out) refl

  -- On a slate at generation `n`, whatever its storage, `load_entry` of index 0 and of every index
  -- above `n` is an invalid argument.
  pub load_entry-invalid_argument :
      (n fuel t : ℕ) (s : Slate S)
      → IsCurrent log n s.cache
      → (0 < t → n < t)
      → load_entry S fuel s t ≡ err invalid_argument
  load_entry-invalid_argument n fuel t s current out =
      load_entry_out fuel t s (beyond_range n t s.cache current.at_revision out)
