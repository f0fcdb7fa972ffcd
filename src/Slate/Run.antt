-- ===== src/Slate/Run.antt =====
-- Runs of appends over any lawful storage.
use mathlib.Core.Path.{subst}
use native.Mathlib.Decide.{dec_le}
use stratified_hash_tree.Prelude.{
  ℕ, zero, suc, ◌^◌, ◌≤◌, ◌<◌, ◌≡◌, refl, sym, ap, ◌∙◌, none, some, List, [], ◌∷◌, All, arith,
  Result, ok, length,
}
use stratified_hash_tree.Prelude.Map.{lookup}
use stratified_hash_tree.Error.{Error}
use stratified_hash_tree.Formula.Roots.{pbst_roots}
use stratified_hash_tree.Formula.Roots.Tiling.{pbst_roots-Tiles}
use stratified_hash_tree.Formula.Model.Lefts.{Tiles-unique}
use stratified_hash_tree.Hashing.{Hasher}
use stratified_hash_tree.Entry.{MetaInfo, Entry}
use stratified_hash_tree.Cache.{empty, revision, last_entry}
use stratified_hash_tree.Storage.{Storage}
use stratified_hash_tree.Storage.Laws.{Lawful}
use stratified_hash_tree.Slate.{max_payload_size, Slate, append}
use stratified_hash_tree.Slate.Spec.{Log, IsEntry, IsCurrent}
use stratified_hash_tree.Slate.Append.{Appended, append-Appended}

module _ ⦃H : Hasher⦄ (log : Log) where
  -- The entries are those of the generations 1 to `n`, the newest first.
  abbrev pub AreEntries : ℕ → List Entry → Type 0
  AreEntries zero [] = Unit
  AreEntries zero (e ∷ es) = ⊥
  AreEntries (suc n) [] = ⊥
  AreEntries (suc n) (e ∷ es) = IsEntry log (suc n) e × AreEntries n es

  no_roots : pbst_roots 0 ≡ []
  no_roots = Tiles-unique 64 64 0 0 (pbst_roots 0) [] (pbst_roots-Tiles 0 (omega arith)) refl

  -- The empty cache is that of generation 0.
  pub empty-IsCurrent : IsCurrent log 0 (empty 0)
  unfolding revision last_entry lookup empty
  empty-IsCurrent = record {
    at_level = refl;
    at_revision = refl;
    knows = rw no_roots tt;
    nothing_later = λ i lt. refl;
    no_entry = λ z. refl;
    has_last = λ pos. absurd (omega arith);
    cached = λ i e found. absurd (let none_some : none ≡ some e = found in cc);
  }

-- The entry at each index of a stack of entries.
pub AreEntries-at :
    ⦃H : Hasher⦄ (log : Log) (P : Entry → Type 0) (n : ℕ) (es : List Entry)
    → AreEntries log n es
    → All P es
    → (i : ℕ) → 0 < i
    → i ≤ n
    → (e : Entry) × P e × IsEntry log i e
AreEntries-at log P zero es entries all i pos le = absurd (omega arith)
AreEntries-at log P (suc n) [] entries all i pos le = absurd entries
AreEntries-at log P (suc n) (e ∷ es) entries all i pos le = elim (dec_le i n) [
  | yes before ↦ AreEntries-at log P n es entries.1 all.1 i pos before
  | no last ↦
      let here : suc n ≡ i = omega arith in
      (e, all.0, subst (λ (k : ℕ). IsEntry log k e) here entries.0)
]

module _ (S : Storage) (L : Lawful S) ⦃H : Hasher⦄ (log : Log) where
  -- The slate has appended the values 1 to `n` of the log: its cache is current, its storage holds
  -- the entries, and the next entry goes where the log has it.
  pub record Follows (n : ℕ) (s : Slate S) : Type 0 where
    pub current : IsCurrent log n s.cache
    pub next_position : s.position ≡ log.position (suc n)
    pub entries : List Entry
    pub holds : L.Holds s.storage entries s.position
    pub are_entries : AreEntries log n entries

  -- The values are of a size allowed, and every entry of the log fits where the log has it and is
  -- followed by the next.
  pub record IsStorable (n : ℕ) : Type 0 where
    pub small : (i : ℕ) → length (log.payload i) ≤ max_payload_size
    pub fits : (i : ℕ) (e : Entry) → i < n → IsEntry log (suc i) e → L.Fits (log.position (suc i)) e
    pub paces :
        (i : ℕ) (e : Entry)
        → i < n
        → IsEntry log (suc i) e
        → L.next (log.position (suc i)) e ≡ log.position (suc (suc i))

  -- `n` appends in a row, beginning with `s`.
  pub data Run (begin : Slate S) : ℕ → Slate S → Type 0 where
    start : Run begin 0 begin
    step :
        {n : ℕ} {s s' : Slate S} {m : MetaInfo}
        → Run begin n s
        → append S s (log.payload (suc n)) ≡ (ok m, s')
        → Run begin (suc n) s'

  module _ (limit : ℕ) (in_range : limit < 2 ^ 64) (storable : IsStorable limit) where
    accepts :
        (n : ℕ) (s : Slate S)
        → n < limit
        → (f : Follows n s) → (e : Entry) → IsEntry log (suc n) e
        → (st : S.State) × (S.put s.storage s.position e ≡ (ok (log.position (suc (suc n))), st))
          × L.Holds st (e ∷ f.entries) (log.position (suc (suc n)))
    accepts n s lt f e entry =
        let next : L.next s.position e ≡ log.position (suc (suc n)) =
          ap (λ (p : ℕ). L.next p e) f.next_position ∙ storable.paces n e lt entry in
        let fits : L.Fits s.position e =
          subst (λ (p : ℕ). L.Fits p e) (sym f.next_position) (storable.fits n e lt entry) in
        subst
          (λ (p : ℕ).
            (st : S.State) × (S.put s.storage s.position e ≡ (ok p, st))
            × L.Holds st (e ∷ f.entries) p)
          next (L.put_lem s.storage f.entries s.position e f.holds fits)

    -- The slate appends the next value and follows the log.
    pub append-Follows :
        (n : ℕ) (s : Slate S)
        → n < limit
        → Follows n s
        → (a : Appended S log (suc n) s) × Follows (suc n) a.slate
    append-Follows n s lt f = (
      a,
      record {
        current = a.current;
        next_position = position;
        entries = a.entry ∷ f.entries;
        holds = subst (L.Holds a.slate.storage (a.entry ∷ f.entries)) (sym position) (
            subst (λ (st : S.State). L.Holds st (a.entry ∷ f.entries) (log.position (suc (suc n))))
              storage put.2);
        are_entries = (a.is_entry, f.are_entries);
      },
    )
      where
        a : Appended S log (suc n) s
        a =
            append-Appended S log n s f.current f.next_position (omega (arith, in_range))
              (storable.small (suc n))
              (λ e entry.
                (let (st, put, holds) = accepts n s lt f e entry in
                  (log.position (suc (suc n)), st, put)))

        put :
            (st : S.State) × (S.put s.storage s.position a.entry
              ≡ (ok (log.position (suc (suc n))), st))
            × L.Holds st (a.entry ∷ f.entries) (log.position (suc (suc n)))
        put = accepts n s lt f a.entry a.is_entry

        same :
            ◌≡◌ {A = Result Error ℕ × S.State}
              (ok (log.position (suc (suc n))), put.0)
              (ok a.slate.position, a.slate.storage)
        same = sym put.1 ∙ a.stored

        storage : put.0 ≡ a.slate.storage
        storage = ap (λ (p : Result Error ℕ × S.State). p.1) same

        position : a.slate.position ≡ log.position (suc (suc n))
        position = let e = ap (λ (p : Result Error ℕ × S.State). p.0) same in cc

    module _ (begin : Slate S) (begins : Follows 0 begin) where
      run_step :
          (n : ℕ) (s s' : Slate S) (m : MetaInfo)
          → n < limit
          → Follows n s
          → append S s (log.payload (suc n)) ≡ (ok m, s')
          → Follows (suc n) s'
      run_step n s s' m lt f appends =
          let (a, follows) = append-Follows n s lt f in
          let same : a.slate ≡ s' =
            ap (λ (p : Result Error MetaInfo × Slate S). p.1) (sym a.appends ∙ appends) in
          subst (Follows (suc n)) same follows

      -- Over a lawful storage in which the entries of the log can be stored, up to a limit below 2
      -- ^ 64, and beginning with a slate at generation 0: after every run of `n` appends, up to the
      -- limit, the slate follows the log at generation `n`.
      pub Run-Follows : (n : ℕ) (s : Slate S) → n ≤ limit → Run begin n s → Follows n s
      Run-Follows zero s le start = begins
      Run-Follows (suc n) s' le (step {s = s} {m = m} run appends) =
          run_step n s s' m (omega arith) (Run-Follows n s (omega arith) run) appends

      -- There is a run of every length up to the limit.
      pub Run-exists : (n : ℕ) → n ≤ limit → (s : Slate S) × Run begin n s
      Run-exists zero le = (begin, start)
      Run-exists (suc n) le =
          let (s, run) = Run-exists n (omega arith) in
          let (a, follows) = append-Follows n s (omega arith) (Run-Follows n s (omega arith) run) in
          (a.slate, step run a.appends)
