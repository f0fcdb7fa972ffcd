-- ===== src/Query/Scan.antt =====
-- `scan` in a query on a slate that was appended to, over any lawful storage.
use mathlib.Core.Path.{subst}
use native.Mathlib.Decide.{dec_le}
use stratified_hash_tree.Prelude.{
  ℕ, zero, suc, ◌+◌, ◌-◌, ◌^◌, ◌≤◌, ◌<◌, ◌≡◌, refl, sym, ap, ap₂, ◌∙◌, false, some, List, [], ◌∷◌,
  ◌++◌, ok, length, length-append, take, length-take, ltb, leb, lt→ltb, min, max, if◌then◌else◌,
  arith,
}
use stratified_hash_tree.Prelude.Words.{add64, sub64, add64_of_lt, sub64_of_le}
use stratified_hash_tree.Hashing.{Hasher}
use stratified_hash_tree.Entry.{Entry}
use stratified_hash_tree.Cache.{revision}
use stratified_hash_tree.Storage.{Storage, Visitor}
use stratified_hash_tree.Storage.Laws.{position_of, pile, visit, Scans, Lawful}
use stratified_hash_tree.Slate.{Slate}
use stratified_hash_tree.Slate.Spec.{Log, IsEntry}
use stratified_hash_tree.Slate.Run.{AreEntries, Follows, IsStorable, Run, Run-Follows}
use stratified_hash_tree.Query.{Query, read_entry, scan, scan_range}
use stratified_hash_tree.Query.Descent.{Serves}
use stratified_hash_tree.Query.Entries.{read_entry-IsEntry}
use stratified_hash_tree.Query.Served.{Follows-Opens}

pile-snoc : (later es : List Entry) (x : Entry) → pile (later ++ (x ∷ [])) es ≡ x ∷ pile later es
pile-snoc [] es x = refl
pile-snoc (e ∷ later) es x = pile-snoc later (e ∷ es) x

module _ ⦃H : Hasher⦄ (log : Log) where
  -- The entries are those of the indices from `i` on, the oldest first.
  abbrev pub AreFrom : ℕ → List Entry → Type 0
  AreFrom i [] = Unit
  AreFrom i (e ∷ es) = IsEntry log i e × AreFrom (suc i) es

  AreFrom-take : (count i : ℕ) (es : List Entry) → AreFrom i es → AreFrom i (take count es)
  AreFrom-take zero i es are = tt
  AreFrom-take (suc count) i [] are = tt
  AreFrom-take (suc count) i (e ∷ es) are = (are.0, AreFrom-take count (suc i) es are.1)

  AreFrom-snoc :
      (i : ℕ) (es : List Entry) (x : Entry)
      → AreFrom i es
      → IsEntry log (i + length es) x
      → AreFrom i (es ++ (x ∷ []))
  AreFrom-snoc i [] x are entry =
      let here : i + 0 ≡ i = omega arith in (subst (λ (k : ℕ). IsEntry log k x) here entry, tt)
  AreFrom-snoc i (e ∷ es) x are entry =
      let next : i + suc (length es) ≡ suc i + length es = omega arith in
      (are.0, AreFrom-snoc (suc i) es x are.1 (subst (λ (k : ℕ). IsEntry log k x) next entry))

  -- A stack of entries, seen from the one of index `suc k`.
  record SplitAt (n k : ℕ) (es : List Entry) : Type 0 where
    pub here : Entry
    pub later : List Entry
    pub earlier : List Entry
    pub whole : es ≡ pile (here ∷ later) earlier
    pub are : AreFrom (suc k) (here ∷ later)
    pub count : suc k + length later ≡ n

  AreEntries-SplitAt : (n k : ℕ) (es : List Entry) → AreEntries log n es → k < n → SplitAt n k es
  AreEntries-SplitAt zero k es are lt = absurd (omega arith)
  AreEntries-SplitAt (suc n) k [] are lt = absurd are
  AreEntries-SplitAt (suc n) k (x ∷ es) are lt = elim (dec_le (suc k) n) [
    | yes below ↦
        let split = AreEntries-SplitAt n k es are.1 below in
        let last : suc n ≡ suc k + suc (length split.later) = omega (arith, split.count) in
        record {
          here = split.here;
          later = split.later ++ (x ∷ []);
          earlier = split.earlier;
          whole =
              ap (λ l. x ∷ l) split.whole
              ∙ sym (pile-snoc split.later (split.here ∷ split.earlier) x);
          are =
              AreFrom-snoc (suc k) (split.here ∷ split.later) x split.are
                (subst (λ (i : ℕ). IsEntry log i x) last are.0);
          count = omega (arith, split.count, length-append split.later (x ∷ []));
        }
    | no top ↦
        let same : n ≡ k = omega arith in
        record {
          here = x;
          later = [];
          earlier = es;
          whole = refl;
          are = (subst (λ (i : ℕ). IsEntry log (suc i) x) same are.0, tt);
          count = omega arith;
        }
  ]

module _ (S : Storage) (L : Lawful S) ⦃H : Hasher⦄ (log : Log) {X C : Type 0}
    (callback : Visitor X C) (c : C) where
  scan_range-empty :
      (fuel : ℕ) (q : Query S) (low high : ℕ)
      → high < low
      → scan_range S fuel q low high callback c ≡ visit 0 [] callback c
  unfolding scan_range visit
  scan_range-empty fuel q low high lt = rw (scan_range, lt→ltb high low lt) refl

  scan_range_calls :
      (fuel : ℕ) (q : Query S) (low high : ℕ) (e : Entry)
      → ltb high low ≡ false
      → read_entry S fuel q low ≡ ok (some e)
      → scan_range S fuel q low high callback c
        ≡ S.scan q.cursor (position_of e) (add64 (sub64 high low) 1) callback c
  unfolding scan_range
  scan_range_calls fuel q low high e order found = rw (scan_range, order, found) refl

  -- The entries of a range are given to the callback.
  pub record Visits (fuel low high : ℕ) (q : Query S) : Type 0 where
    pub entries : List Entry
    pub are : AreFrom log low entries
    pub count : length entries ≡ suc high - low
    pub visits : scan_range S fuel q low high callback c ≡ visit 0 entries callback c

  scan_range-Visits :
      (n low high : ℕ) (q : Query S) (es : List Entry)
      → n < 2 ^ 63
      → Serves S log n q
      → AreEntries log n es
      → Scans S q.cursor es
      → 0 < low
      → high ≤ n
      → Visits n low high q
  scan_range-Visits n zero high q es room serves are scans pos le = absurd (omega arith)
  scan_range-Visits n (suc k) high q es room serves are scans pos le = elim (dec_le (suc k) high) [
    | no empty ↦ record {
      entries = [];
      are = tt;
      count = omega arith;
      visits = scan_range-empty n q (suc k) high (omega arith);
    }
    | yes order ↦
        let split = AreEntries-SplitAt log n k es are (omega arith) in
        let (e, found, entry) =
          read_entry-IsEntry S log n n (suc k) q (omega arith) serves (omega arith) pos
            (omega arith) in
        let same : position_of e ≡ position_of split.here =
          entry.leaf.stored_at ∙ sym split.are.0.leaf.stored_at in
        let count : add64 (sub64 high (suc k)) 1 ≡ suc high - suc k =
          ap (λ (m : ℕ). add64 m 1) (sub64_of_le high (suc k) order (omega arith))
          ∙ add64_of_lt (high - suc k) 1 (omega arith)
          ∙ omega arith in
        record {
          entries = take (suc high - suc k) (split.here ∷ split.later);
          are = AreFrom-take log (suc high - suc k) (suc k) (split.here ∷ split.later) split.are;
          count =
              length-take (suc high - suc k) (split.here ∷ split.later)
                (omega (arith, split.count));
          visits =
              scan_range_calls n q (suc k) high e (ground arith) found
              ∙ ap₂ (λ (p m : ℕ). S.scan q.cursor p m callback c) same count
              ∙ scans split.later split.earlier split.here split.whole X C (suc high - suc k)
                  callback c;
        }
  ]

  scan_bounds :
      (n i0 i1 : ℕ) (q : Query S)
      → revision q.cache ≡ n
      → scan S n q i0 i1 callback c
        ≡ scan_range S n q (max (min i0 i1) 1) (min (max i0 i1) n) callback c
  unfolding scan
  scan_bounds n i0 i1 q at =
      let low : (if leb i0 i1 then i0 else i1) ≡ min i0 i1 = ground arith in
      let high : (if leb i0 i1 then i1 else i0) ≡ max i0 i1 = ground arith in
      ap₂ (λ (l h : ℕ). scan_range S n q l h callback c) (ap (λ (m : ℕ). max m 1) low)
        (ap₂ (λ (m h : ℕ). min m h) high at)

  -- What `scan` does in a query on the slate.
  pub record Scanned (n i0 i1 : ℕ) (s : Slate S) : Type 0 where
    pub cursor : S.Reader
    pub opens : S.reader s.storage ≡ ok cursor
    pub entries : List Entry
    pub are : AreFrom log (max (min i0 i1) 1) entries
    pub count : length entries ≡ suc (min (max i0 i1) n) - max (min i0 i1) 1
    pub visits :
        scan S n (record { cursor = cursor; cache = s.cache }) i0 i1 callback c
        ≡ visit 0 entries callback c

  Follows-Scanned :
      (n i0 i1 : ℕ) (s : Slate S) → n < 2 ^ 63 → Follows S L log n s → Scanned n i0 i1 s
  Follows-Scanned n i0 i1 s room f =
      let o = Follows-Opens S L log n s f in
      let q : Query S = record { cursor = o.cursor; cache = s.cache } in
      let v =
        scan_range-Visits n (max (min i0 i1) 1) (min (max i0 i1) n) q o.entries room o.serves
          o.are_entries o.scans (omega arith) (omega arith) in
      record {
        cursor = o.cursor;
        opens = o.opens;
        entries = v.entries;
        are = v.are;
        count = v.count;
        visits = scan_bounds n i0 i1 q o.serves.current.at_revision ∙ v.visits;
      }

  -- After `n` appends over any lawful storage in which the entries of the log can be stored, from a
  -- slate at generation 0 on, and `n` below 2 ^ 63: the storage opens for reading, and `scan`
  -- between two indices, given in whichever order, calls the callback on the entries of the indices
  -- between them that are from 1 to `n`, each once and in rising order, until it returns an error
  -- or panics, which `scan` passes on; otherwise `scan` returns the number of these entries.
  pub Run-Scanned :
      (n i0 i1 : ℕ) (begin s : Slate S)
      → n < 2 ^ 63
      → IsStorable S L log n
      → Follows S L log 0 begin
      → Run S L log begin n s
      → Scanned n i0 i1 s
  Run-Scanned n i0 i1 begin s room storable begins run =
      Follows-Scanned n i0 i1 s room
        (Run-Follows S L log n (omega arith) storable begin begins n s (omega arith) run)
