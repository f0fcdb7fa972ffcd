-- ===== src/Query/Sampled.antt =====
-- `get_sample` returns a sample that proves its value, over any lawful storage.
use mathlib.Core.Path.{subst}
use native.Mathlib.Decide.{dec_lt}
use stratified_hash_tree.Prelude.{
  ℕ, ◌^◌, ◌≤◌, ◌<◌, ◌≡◌, refl, sym, ap, ◌∙◌, ◌⊎◌, ◌↔◌, inl, inr, ◌==◌, ◌||◌, ltb, Bool-cases, true,
  Option, none, some, List, [], ok, arith, length,
}
use stratified_hash_tree.Formula.Arith.{ceil_log2}
use stratified_hash_tree.Formula.Arith.Logs.{ceil_log2_upper}
use stratified_hash_tree.Formula.Tree.{NodeIndex, root_of, contains}
use stratified_hash_tree.Formula.Tree.Subnodes.{root_of-IsNode}
use stratified_hash_tree.Hashing.{Hasher, Hash}
use stratified_hash_tree.Entry.{Entry}
use stratified_hash_tree.Cache.{revision, last_entry}
use stratified_hash_tree.Storage.{Storage}
use stratified_hash_tree.Storage.Laws.{Lawful}
use stratified_hash_tree.Sample.{StratumSample, root_hash}
use stratified_hash_tree.Sample.Genuine.{IsGenuine, root_hash-HashOf}
use stratified_hash_tree.Sample.Beside.{AreRight, Beside, Beside-IsGenuine}
use stratified_hash_tree.Slate.{Slate}
use stratified_hash_tree.Slate.Spec.{Log, HashOf, HashOf-unique, IsEntry}
use stratified_hash_tree.Slate.Run.{Follows, IsStorable, Run, Run-Follows}
use stratified_hash_tree.Query.{Query, walk, walk_down, gather, get_sample}
use stratified_hash_tree.Query.Descent.{contains_at, Serves}
use stratified_hash_tree.Query.Places.{height_at-length}
use stratified_hash_tree.Query.Gather.{Collected, Gathered}
use stratified_hash_tree.Query.Snapshot.{snapshot, query, Tells, IsCurrent-Tells, query_step}
use stratified_hash_tree.Query.Served.{Follows-Opens}
use stratified_hash_tree.Query.Collects.{walk-Gathers}

module _ (S : Storage) ⦃H : Hasher⦄ (log : Log) where
  -- The sample proves the value of its index in the tree of the generation.
  pub record Proves (n : ℕ) (q : Query S) (i : ℕ) : Type 0 where
    pub positive : 0 < i
    pub in_range : i ≤ n
    pub sample : StratumSample
    pub gets : get_sample S 65 q i ≡ ok (some sample)
    pub of_revision : sample.revision ≡ n
    pub of_index : sample.leaf.i ≡ i
    pub genuine : IsGenuine log.payload sample
    pub root : Hash
    pub computes : root_hash sample ≡ ok root
    pub is_root : HashOf log.payload n (root_of n).1 root

  module _ (n : ℕ) (room : n < 2 ^ 64) (q : Query S) (serves : Serves S log n q) (i : ℕ) where
    walk_down_step :
        (e : Entry) (after : Collected)
        → last_entry q.cache ≡ some e
        → walk S (gather S i) 65 q (length e.inodes) e ([], none) ≡ ok after
        → walk_down S (gather S i) 65 q ([], none) ≡ ok after
    unfolding walk_down
    walk_down_step e after found walks = rw (walk_down, found) walks

    walk_down_empty :
        last_entry q.cache ≡ none → walk_down S (gather S i) 65 q ([], none) ≡ ok ([], none)
    unfolding walk_down
    walk_down_empty missing = rw (walk_down, missing) refl

    get_sample-none :
        (ws : List (NodeIndex × Hash))
        → walk_down S (gather S i) 65 q ([], none) ≡ ok (ws, none)
        → get_sample S 65 q i ≡ ok none
    unfolding get_sample
    get_sample-none ws walks = rw (get_sample, walks) refl

    abbrev sample_of : List (NodeIndex × Hash) → StratumSample
    sample_of ws = record {
      revision = revision q.cache;
      leaf = record { i = i; value = log.payload i };
      witnesses = ws;
    }

    get_sample-some :
        (ws : List (NodeIndex × Hash))
        → walk_down S (gather S i) 65 q ([], none) ≡ ok (ws, some (log.payload i))
        → get_sample S 65 q i ≡ ok (some (sample_of ws))
    unfolding get_sample
    get_sample-some ws walks = rw (get_sample, walks) refl

    -- The walk from the root.
    record Downward (e : Entry) : Type 0 where
      pub after : Collected
      pub walks : walk_down S (gather S i) 65 q ([], none) ≡ ok after
      pub gathered : Gathered S log i n (ceil_log2 n) ([], none) after
      pub covers : (contains n (ceil_log2 n) i ≡ true) ↔ ((0 < i) × (i ≤ n))

    walk-Downward : (e : Entry) → 0 < n → last_entry q.cache ≡ some e → IsEntry log n e → Downward e
    unfolding root_of
    walk-Downward e pos last entry =
        let top = height_at-length log n 0 (root_of n).1 e.inodes entry.links in
        let low = (ceil_log2_upper n pos room).1 in
        let (after, walks, gathered) =
          walk-Gathers S log n room q serves i 65 n (length e.inodes) (ceil_log2 n) e entry pos
            (omega arith) top (omega (arith, low)) ([], none) in
        let at = contains_at 0 n (ceil_log2 n) i room low (root_of-IsNode n pos room) in
        record {
          after = after;
          walks = walk_down_step e after last walks;
          gathered = gathered;
          covers = (λ c. ground (arith, sym at ∙ c), λ range. at ∙ ground (arith, range));
        }

    proves :
        (ws : List (NodeIndex × Hash))
        → 0 < i
        → i ≤ n
        → get_sample S 65 q i ≡ ok (some (sample_of ws))
        → AreRight log.payload ws
        → Beside i ws (n, ceil_log2 n)
        → Proves n q i
    unfolding root_of
    proves ws pos le gets right beside =
        let at = serves.current.at_revision in
        let genuine =
          Beside-IsGenuine log.payload (sample_of ws) refl right
            (subst (λ (m : ℕ). Beside i ws (m, ceil_log2 m)) (sym at) beside) in
        let (root, computes, is_root) =
          root_hash-HashOf log.payload (sample_of ws) genuine pos (omega (arith, at))
            (omega (arith, at)) in
        record {
          positive = pos;
          in_range = le;
          sample = sample_of ws;
          gets = gets;
          of_revision = at;
          of_index = refl;
          genuine = genuine;
          root = root;
          computes = computes;
          is_root = subst (λ (m : ℕ). HashOf log.payload m (ceil_log2 m) root) at is_root;
        }

    -- In a query on generation `n` of a log, below 2 ^ 64, `get_sample` of an index from 1 to `n`
    -- returns a genuine sample, whose root hash is that of the tree; of every other index none.
    pub get_sample-Proves :
        Proves n q i ⊎ (((i == 0 || ltb n i) ≡ true) × (get_sample S 65 q i ≡ ok none))
    get_sample-Proves = elim (dec_lt 0 n) [
      | no empty ↦ inr (
        ground arith,
        get_sample-none [] (walk_down_empty (serves.current.no_entry (omega arith))),
      )
      | yes pos ↦
          let (e, last, entry) = serves.current.has_last pos in
          let d = walk-Downward e pos last entry in
          elim (Bool-cases (contains n (ceil_log2 n) i)) [
            | inl inside ↦
                let range = d.covers.0 inside in
                let taken = d.gathered.inside inside in
                inl (
                  proves d.after.0 range.0 range.1
                    (get_sample-some d.after.0
                      (d.walks ∙ ap (λ (v : Option (List ℕ)). ok (d.after.0, v)) taken.0))
                    (d.gathered.right tt) taken.1)
            | inr out ↦ inr (
              ground (arith, d.covers.1, out),
              get_sample-none d.after.0 (
                  d.walks
                  ∙ ap (λ (v : Option (List ℕ)). ok (d.after.0, v)) (d.gathered.outside out).0),
            )
          ]
    ]

module _ (S : Storage) (L : Lawful S) ⦃H : Hasher⦄ (log : Log) where
  -- What `get_sample` returns in a query on a snapshot of the slate.
  pub record Samples (n : ℕ) (s : Slate S) (i : ℕ) : Type 0 where
    pub q : Query S
    pub opens : query S (snapshot S s) ≡ ok q
    pub samples :
        ((p : Proves S log n q i) × (t : Tells S log n s) × (root_hash p.sample ≡ ok t.top.hash))
        ⊎ (((i == 0 || ltb n i) ≡ true) × (get_sample S 65 q i ≡ ok none))

  -- Whatever run of `n` appends there is, `n` below 2 ^ 64, over a lawful storage in which the
  -- entries of the log can be stored and beginning with a slate at generation 0, a snapshot of the
  -- slate opens for a query. There `get_sample` of an index from 1 to `n` returns, with the calls
  -- of the walk nested at most 65 deep, a sample of that index and of revision `n` that is genuine,
  -- and its root hash is the hash of the root that the slate tells, which is that of the tree over
  -- the values appended; of any other index it returns none.
  pub Run-Samples :
      (n i : ℕ) (begin s : Slate S)
      → n < 2 ^ 64
      → IsStorable S L log n
      → Follows S L log 0 begin
      → Run S L log begin n s
      → Samples n s i
  Run-Samples n i begin s room storable begins run =
      let follows = Run-Follows S L log n room storable begin begins n s (omega arith) run in
      let o = Follows-Opens S L log n s follows in
      let q : Query S = record { cursor = o.cursor; cache = s.cache } in
      record {
        q = q;
        opens = query_step S log s o.cursor o.opens;
        samples = elim (get_sample-Proves S log n room q o.serves i) [
          | inr missing ↦ inr missing
          | inl proof ↦
              let told =
                IsCurrent-Tells S log n s (omega (arith, proof.positive, proof.in_range))
                  follows.current in
              let same : proof.root ≡ told.top.hash =
                HashOf-unique log.payload n (root_of n).1 proof.root told.top.hash proof.is_root
                  told.describes.hash_of in
              inl (proof, told, proof.computes ∙ ap ok same)
        ];
      }
