-- ===== src/Slate/Append.antt =====
-- `append` of a slate whose cache is current, whether the storage accepts the entry or refuses it.
use stratified_hash_tree.Prelude.{
  ℕ, suc, ◌^◌, ◌≤◌, ◌<◌, ◌≡◌, refl, ap, ◌∙◌, List, arith, ok, err, ltb, length, false,
}
use stratified_hash_tree.Error.{Error}
use stratified_hash_tree.Formula.Tree.{root_of}
use stratified_hash_tree.Formula.Model.{new}
use stratified_hash_tree.Hashing.{Hasher}
use stratified_hash_tree.Entry.{MetaInfo, Entry}
use stratified_hash_tree.Cache.{Cache, migrate}
use stratified_hash_tree.Storage.{Storage}
use stratified_hash_tree.Slate.{
  max_payload_size, new_entry, returned, Slate, advance, conclude, store, append,
}
use stratified_hash_tree.Slate.Spec.{Log, Describes, IsEntry, IsCurrent}
use stratified_hash_tree.Slate.Next.{
  Entered, new_entry-Entered, roots-Collected, next_cache, migrate_step, next_cache-IsCurrent,
}

module _ (S : Storage) ⦃H : Hasher⦄ (log : Log) where
  -- The slate `s` appended the value of generation `n`.
  pub record Appended (n : ℕ) (s : Slate S) : Type 0 where
    pub meta : MetaInfo
    pub slate : Slate S
    pub entry : Entry
    pub appends : append S s (log.payload n) ≡ (ok meta, slate)
    pub stored : S.put s.storage s.position entry ≡ (ok slate.position, slate.storage)
    pub is_entry : IsEntry log n entry
    pub root_meta : Describes log n (root_of n).1 meta
    pub current : IsCurrent log n slate.cache

  -- What `append` does with a value of a size allowed: the entry goes to `store`.
  append_step :
      (s : Slate S) (value : List ℕ) (e : Entry)
      → length value ≤ max_payload_size
      → new_entry s.cache s.position value ≡ ok e
      → append S s value ≡ store S s e
  unfolding append
  append_step s value e small h =
      let fits : ltb max_payload_size (length value) ≡ false = ground arith in
      rw (append, fits, h) refl

  entered :
      (n : ℕ) (s : Slate S) (x : Entered log (suc n) s.cache)
      → s.position ≡ log.position (suc n)
      → new_entry s.cache s.position (log.payload (suc n)) ≡ ok x.entry
  entered n s x here = ap (λ (p : ℕ). new_entry s.cache p (log.payload (suc n))) here ∙ x.enters

  store_ok :
      (s : Slate S) (e : Entry) (p : ℕ) (st : S.State) (c : Cache)
      → S.put s.storage s.position e ≡ (ok p, st)
      → migrate s.cache e (new e.enode.meta.address.i) ≡ ok c
      → store S s e ≡ (ok (returned e), record { position = p; storage = st; cache = c })
  unfolding store conclude advance
  store_ok s e p st c put m = ap (conclude S s e) put ∙ rw (conclude, advance, m) refl

  returned-Describes :
      (n : ℕ) (e : Entry) → IsEntry log n e → Describes log n (root_of n).1 (returned e)
  unfolding returned
  returned-Describes n e entry = record {
    index = entry.leaf.index;
    height = entry.top.height;
    stored_at = entry.leaf.stored_at;
    hash_of = entry.top.hash_of;
  }

  -- A slate that is current at generation `n` and at the position that the log has for the next
  -- entry, with room for another generation, appends a value of a size allowed when the storage
  -- accepts the entry of generation `n + 1` over the values: it stores an entry of generation
  -- `n + 1`, returns the metadata of the root of that generation, whose hash is that of the tree
  -- over all the values so far, and is then current at generation `n + 1`.
  pub append-Appended :
      (n : ℕ) (s : Slate S)
      → IsCurrent log n s.cache
      → s.position ≡ log.position (suc n)
      → suc n < 2 ^ 64
      → length (log.payload (suc n)) ≤ max_payload_size
      → ((e : Entry)
          → IsEntry log (suc n) e
          → (p : ℕ) × (st : S.State) × (S.put s.storage s.position e ≡ (ok p, st)))
      → Appended (suc n) s
  append-Appended n s current here h small accepts =
      let x = new_entry-Entered log n s.cache current h in
      let (p, st, put) = accepts x.entry x.is_new.is_entry in
      let roots = roots-Collected log n s.cache x.entry current x.is_new h in
      let c = next_cache log (suc n) x.entry roots.roots in
      let migrates : migrate s.cache x.entry (new x.entry.enode.meta.address.i) ≡ ok c =
        ap (λ (i : ℕ). migrate s.cache x.entry (new i)) x.is_new.is_entry.leaf.index
        ∙ migrate_step log (suc n) s.cache x.entry roots.roots current.at_level roots.collects in
      record {
        meta = returned x.entry;
        slate = record { position = p; storage = st; cache = c };
        entry = x.entry;
        appends =
            append_step s (log.payload (suc n)) x.entry small (entered n s x here)
            ∙ store_ok s x.entry p st c put migrates;
        stored = put;
        is_entry = x.is_new.is_entry;
        root_meta = returned-Describes (suc n) x.entry x.is_new.is_entry;
        current = next_cache-IsCurrent log n s.cache x.entry x.is_new roots;
      }

  store_err :
      (s : Slate S) (e : Entry) (error : Error) (st : S.State)
      → S.put s.storage s.position e ≡ (err error, st)
      → store S s e ≡ (err error, record s { storage = st })
  unfolding store conclude
  store_err s e error st put = ap (conclude S s e) put

  -- On the same conditions, when the storage refuses the entry of generation `n + 1` with an error,
  -- the append returns that error, and
  -- position and cache of the slate stay as they were.
  pub append-refused :
      (n : ℕ) (s : Slate S) (error : Error) (st : S.State)
      → IsCurrent log n s.cache
      → s.position ≡ log.position (suc n)
      → suc n < 2 ^ 64
      → length (log.payload (suc n)) ≤ max_payload_size
      → ((e : Entry) → IsEntry log (suc n) e → S.put s.storage s.position e ≡ (err error, st))
      → append S s (log.payload (suc n)) ≡ (err error, record s { storage = st })
  append-refused n s error st current here h small refuses =
      let x = new_entry-Entered log n s.cache current h in
      append_step s (log.payload (suc n)) x.entry small (entered n s x here)
      ∙ store_err s x.entry error st (refuses x.entry x.is_new.is_entry)
