-- ===== src/Query/Served.antt =====
-- `get`, `load_entry` and `read_entry` on a slate that was appended to, over any lawful storage.
use stratified_hash_tree.Prelude.{
  none, ◌==◌, ◌||◌, ltb, if◌then◌else◌, ℕ, ◌^◌, ◌≤◌, ◌<◌, ◌≡◌, refl, sym, ap, ◌∙◌, ok, some, List,
  arith,
}
use stratified_hash_tree.Hashing.{Hasher}
use stratified_hash_tree.Entry.{Entry}
use stratified_hash_tree.Storage.{Storage}
use stratified_hash_tree.Storage.Laws.{position_of, Scans, Lawful}
use stratified_hash_tree.Slate.{Slate}
use stratified_hash_tree.Slate.Spec.{Log, IsEntry}
use stratified_hash_tree.Slate.Run.{
  AreEntries, AreEntries-at, Follows, IsStorable, Run, Run-Follows,
}
use stratified_hash_tree.Query.{read_entry, get}
use stratified_hash_tree.Query.Load.{load_entry, find_entry}
use stratified_hash_tree.Query.Get.{get_lem}
use stratified_hash_tree.Query.Descent.{Serves}
use stratified_hash_tree.Query.Entries.{read_entry-IsEntry, load_entry-IsEntry}

module _ (S : Storage) (L : Lawful S) ⦃H : Hasher⦄ (log : Log) where
  -- A reader of the storage, and the query that it makes with the cache of the slate.
  pub record Opens (n : ℕ) (s : Slate S) : Type 1 where
    pub cursor : S.Reader
    pub opens : S.reader s.storage ≡ ok cursor
    pub serves : Serves S log n (record { cursor = cursor; cache = s.cache })
    pub entries : List Entry
    pub are_entries : AreEntries log n entries
    pub scans : Scans S cursor entries

  pub Follows-Opens : (n : ℕ) (s : Slate S) → Follows S L log n s → Opens n s
  Follows-Opens n s f =
      let (r, opens, reads, scans) = L.read_lem s.storage f.entries s.position f.holds in
      record {
        cursor = r;
        opens = opens;
        serves = record {
          current = f.current;
          reads = λ i pos le.
              (let (e, found, entry) =
                  AreEntries-at log (λ e. S.read r (position_of e) ≡ ok e) n f.entries f.are_entries
                    reads i pos le in
                (e, ap (S.read r) (sym entry.leaf.stored_at) ∙ found, entry));
        };
        entries = f.entries;
        are_entries = f.are_entries;
        scans = scans;
      }

  pub find_entry_step :
      (fuel t : ℕ) (s : Slate S) (r : S.Reader)
      → S.reader s.storage ≡ ok r
      → find_entry S fuel s t ≡ read_entry S fuel (record { cursor = r; cache = s.cache }) t
  unfolding find_entry
  find_entry_step fuel t s r opens = rw (find_entry, opens) refl

  -- Both ways to an entry lead to the same.
  pub record Finds (n : ℕ) (s : Slate S) (t : ℕ) : Type 0 where
    pub found : Entry
    pub loads : load_entry S n s t ≡ ok found
    pub is_entry : IsEntry log t found
    pub finds : (e : Entry) × (find_entry S n s t ≡ ok (some e)) × IsEntry log t e

  pub Follows-Finds :
      (n t : ℕ) (s : Slate S) → n < 2 ^ 64 → Follows S L log n s → 0 < t → t ≤ n → Finds n s t
  Follows-Finds n t s h f pos le =
      let o = Follows-Opens n s f in
      let (e, loads, is_entry) =
        load_entry-IsEntry S log n n t s o.cursor h o.opens o.serves (omega arith) pos le in
      let (r, reads, is_read) =
        read_entry-IsEntry S log n n t (record { cursor = o.cursor; cache = s.cache }) h o.serves
          (omega arith) pos le in
      record {
        found = e;
        loads = loads;
        is_entry = is_entry;
        finds = (r, find_entry_step n t s o.cursor o.opens ∙ reads, is_read);
      }

  -- Whatever run of `n` appends there is, over a lawful storage in which the entries of the log can
  -- be stored and beginning with a slate at generation 0, `load_entry` and the look-up of
  -- `truncate` give the entry of each index from 1 to `n`, with `n` rounds as fuel.
  pub Run-Finds :
      (n t : ℕ) (begin s : Slate S)
      → n < 2 ^ 64
      → IsStorable S L log n
      → Follows S L log 0 begin
      → Run S L log begin n s
      → 0 < t
      → t ≤ n
      → Finds n s t
  Run-Finds n t begin s h storable begins run pos le =
      Follows-Finds n t s h (Run-Follows S L log n h storable begin begins n s (omega arith) run)
        pos le

  -- What `get` returns in a query on the slate.
  pub record Gets (n : ℕ) (s : Slate S) (i : ℕ) : Type 0 where
    pub cursor : S.Reader
    pub opens : S.reader s.storage ≡ ok cursor
    pub gets :
        get S 65 (record { cursor = cursor; cache = s.cache }) i
        ≡ ok (if i == 0 || ltb n i then none else some (log.payload i))

  -- Whatever run of `n` appends there is, over a lawful storage in which the entries of the log can
  -- be stored and beginning with a slate at generation 0, the storage opens for reading, and `get`
  -- of an index from 1 to `n` returns the value that was appended there, of any other index none,
  -- with the calls of the walk nested at most 65 deep.
  pub Run-Gets :
      (n i : ℕ) (begin s : Slate S)
      → n < 2 ^ 64
      → IsStorable S L log n
      → Follows S L log 0 begin
      → Run S L log begin n s
      → Gets n s i
  Run-Gets n i begin s h storable begins run =
      let o =
        Follows-Opens n s (Run-Follows S L log n h storable begin begins n s (omega arith) run) in
      record {
        cursor = o.cursor;
        opens = o.opens;
        gets = get_lem S log n h (record { cursor = o.cursor; cache = s.cache }) o.serves i;
      }
