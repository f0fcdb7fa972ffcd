-- ===== src/Slate/OnBlocks.antt =====
-- Appends to an empty slate over a `BlockStorage` in memory. The entries have different sizes, so
-- where each one is stored depends on those before it.
use mathlib.Core.Path.{subst}
use stratified_hash_tree.Prelude.{
  ℕ, zero, suc, ◌+◌, ◌-◌, ◌^◌, ◌≤◌, ◌<◌, ◌≡◌, refl, ap, List, [], arith, length,
}
use stratified_hash_tree.Entry.{Entry}
use stratified_hash_tree.Hashing.{Hasher}
use stratified_hash_tree.Cache.{empty}
use stratified_hash_tree.Checksum.{Highway}
use stratified_hash_tree.Serialize.{LittleEndian, write_entry_to}
use stratified_hash_tree.Serialize.RoundTrip
use stratified_hash_tree.Storage.Block.{block_storage}
use stratified_hash_tree.Storage.Block.Lawful.{block-Lawful, storage_of, empty-BlockHolds}
use stratified_hash_tree.Slate.{max_payload_size, Slate}
use stratified_hash_tree.Slate.Spec.{Log, IsEntry}
use stratified_hash_tree.Slate.Sizes.{entry_size, entry_size_lt, Holdable, IsEntry-Holdable}
use stratified_hash_tree.Slate.Run.{empty-IsCurrent, Follows, IsStorable, Run, Run-exists}
use stratified_hash_tree.Query.Served.{Finds, Run-Finds}

module _ ⦃H : Hasher⦄ ⦃B : LittleEndian⦄ ⦃W : Highway⦄ (payload : ℕ → List ℕ) where
  -- Where the entry of each index is stored: behind the header, and behind the delimiter of the one
  -- before.
  abbrev pub block_position : ℕ → ℕ
  block_position zero = 0
  block_position (suc zero) = 4
  block_position (suc (suc n)) =
      block_position (suc n) + (entry_size (suc n) (length (payload (suc n))) + 12)

  abbrev pub block_log : Log
  block_log = record { payload = payload; position = block_position }

  -- What `with_cache_level` makes of an empty file.
  abbrev pub new_slate : Slate block_storage
  new_slate = record { position = 4; storage = storage_of []; cache = empty 0 }

  pub new_slate-Follows : Follows block_storage block-Lawful block_log 0 new_slate
  new_slate-Follows = record {
    current = empty-IsCurrent block_log;
    next_position = refl;
    entries = [];
    holds = empty-BlockHolds;
    are_entries = tt;
  }

  module _ (small_hash : H.size ≤ 64) (n : ℕ) (in_range : suc n < 2 ^ 63)
      (small_file : block_position (suc n) < 2 ^ 63)
      (small : (i : ℕ) → length (payload i) ≤ max_payload_size) where
    below_end : (i d : ℕ) → i + d ≡ suc n → block_position i < 2 ^ 63
    below_end i zero e =
        (let last : suc n ≡ i = omega arith in
          subst (λ (k : ℕ). block_position k < 2 ^ 63) last small_file)
    below_end zero (suc d) e = omega arith
    below_end (suc i) (suc d) e = omega (arith, below_end (suc (suc i)) d (omega arith))

    holdable :
        (i : ℕ) (e : Entry) → i < n → IsEntry block_log (suc i) e → Holdable block_log (suc i) e
    holdable i e lt entry =
        IsEntry-Holdable block_log (suc i) (omega (arith, in_range))
          (λ k le. omega (arith, below_end k (suc n - k) (omega arith))) e (omega arith)
          (small (suc i)) entry

    pub block_log-IsStorable : IsStorable block_storage block-Lawful block_log n
    block_log-IsStorable = record {
      small = small;
      fits = λ i e lt entry. (fits i e lt entry);
      paces = λ i e lt entry.
          ap (λ (m : ℕ). block_position (suc i) + (m + 12)) (holdable i e lt entry).size;
    }
      where
        fits :
            (i : ℕ) (e : Entry)
            → i < n
            → IsEntry block_log (suc i) e
            → RoundTrip.IsStorable (block_position (suc i)) e
              × (length (write_entry_to e).1 + 12 < 2 ^ 32)
              × (block_position (suc i) + (length (write_entry_to e).1 + 12) < 2 ^ 63)
        fits i e lt entry =
            let held = holdable i e lt entry in
            (
              held.storable,
              omega (
                arith,
                held.size,
                entry_size_lt (suc i) (length (payload (suc i))) small_hash (small (suc i)),
              ),
              omega (arith, held.size, below_end (suc (suc i)) (n - suc i) (omega arith)),
            )

    -- With digests of at most 64 bytes: over a new `BlockStorage` in memory, `n` values of a size
    -- allowed can be appended one after the other, if their file stays below 2 ^ 63 bytes. The
    -- entry of each index from 1 to `n` is then found by `load_entry` and by the look-up of
    -- `truncate`.
    pub new_slate-Finds :
        (s : Slate block_storage) × Run block_storage block-Lawful block_log new_slate n s
        × ((t : ℕ) → 0 < t → t ≤ n → Finds block_storage block-Lawful block_log n s t)
    new_slate-Finds =
        let (s, run) =
          Run-exists block_storage block-Lawful block_log n (omega arith) block_log-IsStorable
            new_slate new_slate-Follows n (omega arith) in
        (
          s,
          run,
          λ t pos le.
              Run-Finds block_storage block-Lawful block_log n t new_slate s (omega arith)
                block_log-IsStorable new_slate-Follows run pos le,
        )
