-- ===== src/Storage/Kvs/Cut.antt =====
-- `remove_from` takes a range of keys out of a map.
use native.Mathlib.Decide.{dec_le}
use stratified_hash_tree.Prelude.{
  ℕ, zero, suc, ◌+◌, ◌^◌, ◌≤◌, ◌<◌, ◌≡◌, ◌≢◌, refl, ap, ◌∙◌, none, some, true, false, arith, ◌==◌,
  length,
}
use stratified_hash_tree.Prelude.Map.{
  lookup, remove, lookup-remove, Unique, length-remove, remove-Unique,
}
use stratified_hash_tree.Prelude.Words.{add64, add64_of_lt}
use stratified_hash_tree.Entry.{Entry}
use stratified_hash_tree.Storage.Kvs.{Kvs, remove_from}

-- What is left when the `d` keys from `p` on are removed.
pub record Cut (fuel p d : ℕ) (st : Kvs) : Type 0 where
  pub rest : Kvs
  pub removes : remove_from fuel p st ≡ (p + d, rest)
  pub count : length rest + d ≡ length st
  pub unique : Unique rest
  pub below : (i : ℕ) → i < p → lookup i rest ≡ lookup i st
  pub above : (i : ℕ) → p ≤ i → lookup i rest ≡ none

remove_from_done : (fuel p : ℕ) (st : Kvs) → lookup p st ≡ none → remove_from fuel p st ≡ (p, st)
unfolding remove_from
remove_from_done zero p st absent = refl
remove_from_done (suc fuel) p st absent = rw (remove_from, absent) refl

remove_from_step :
    (fuel p : ℕ) (e : Entry) (st : Kvs)
    → lookup p st ≡ some e
    → remove_from (suc fuel) p st ≡ remove_from fuel (add64 p 1) (remove p st)
unfolding remove_from
remove_from_step fuel p e st found = rw (remove_from, found) refl

lookup_away : (p i : ℕ) (st : Kvs) → i ≢ p → lookup i (remove p st) ≡ lookup i st
lookup_away p i st ne =
    lookup-remove p i st ∙ (let other : (p == i) ≡ false = ground arith in rw other refl)

suc-Cut :
    (fuel d p : ℕ) (e : Entry) (st : Kvs)
    → suc p < 2 ^ 63
    → Unique st
    → lookup p st ≡ some e
    → Cut fuel (suc p) d (remove p st)
    → Cut (suc fuel) p (suc d) st
suc-Cut fuel d p e st room unique found cut = record {
  rest = cut.rest;
  removes =
      remove_from_step fuel p e st found
      ∙ ap (λ (n : ℕ). remove_from fuel n (remove p st)) next
      ∙ cut.removes
      ∙ ap (λ (n : ℕ). (n, cut.rest)) (omega arith);
  count = omega (arith, cut.count, length-remove p e st unique found);
  unique = cut.unique;
  below = λ i lt. cut.below i (omega arith) ∙ lookup_away p i st (omega arith);
  above = above;
}
  where
    next : add64 p 1 ≡ suc p
    next = add64_of_lt p 1 (omega arith) ∙ omega arith

    above : (i : ℕ) → p ≤ i → lookup i cut.rest ≡ none
    above i le = elim (dec_le (suc p) i) [
      | yes after ↦ cut.above i after
      | no at ↦
          let same : (p == i) ≡ true = ground arith in
          cut.below i (omega arith) ∙ lookup-remove p i st ∙ rw same refl
    ]

pub remove_from-Cut :
    (fuel d p : ℕ) (st : Kvs)
    → d ≤ fuel
    → p + d < 2 ^ 63
    → Unique st
    → ((i : ℕ) → p ≤ i → i < p + d → (e : Entry) × (lookup i st ≡ some e))
    → ((i : ℕ) → p + d ≤ i → lookup i st ≡ none)
    → Cut fuel p d st
remove_from-Cut fuel zero p st hf room unique present absent = record {
  rest = st;
  removes =
      remove_from_done fuel p st (absent p (omega arith)) ∙ ap (λ (n : ℕ). (n, st)) (omega arith);
  count = omega arith;
  unique = unique;
  below = λ i lt. refl;
  above = λ i le. absent i (omega arith);
}
remove_from-Cut zero (suc d) p st hf room unique present absent = absurd (omega arith)
remove_from-Cut (suc fuel) (suc d) p st hf room unique present absent =
    let (e, found) = present p (omega arith) (omega arith) in
    suc-Cut fuel d p e st (omega arith) unique found (
      remove_from-Cut fuel d (suc p) (remove p st) (omega arith) (omega arith)
        (remove-Unique p st unique)
        (λ i le lt.
          (let (x, there) = present i (omega arith) (omega arith) in
            (x, lookup_away p i st (omega arith) ∙ there)))
        (λ i le. lookup_away p i st (omega arith) ∙ absent i (omega arith)))
