-- ===== src/Storage/Kvs/Ahead.antt =====
-- `scan` of a `MemKVS` over entries under consecutive positions.
use mathlib.Core.Path.{subst}
use stratified_hash_tree.Prelude.{
  ℕ, zero, suc, ◌+◌, ◌^◌, ◌<◌, ◌≡◌, refl, ap, ◌∙◌, none, some, List, [], ◌∷◌, length, take, arith,
}
use stratified_hash_tree.Prelude.Map.{lookup}
use stratified_hash_tree.Prelude.Words.{add64, add64_of_lt}
use stratified_hash_tree.Entry.{Entry}
use stratified_hash_tree.Storage.{Visitor, called}
use stratified_hash_tree.Storage.Laws.{visit, called_agree}
use stratified_hash_tree.Storage.Kvs.{Kvs, scan, scan_rounds}

-- From the key on, these entries stand one after the other, and then there is none.
abbrev pub Ahead : Kvs → ℕ → List Entry → Type 0
Ahead kvs k [] = lookup k kvs ≡ none
Ahead kvs k (e ∷ es) = (lookup k kvs ≡ some e) × Ahead kvs (suc k) es

module _ {X C : Type 0} (kvs : Kvs) (position : ℕ) (callback : Visitor X C) where
  scan_rounds_last :
      (left i read : ℕ) (c : C)
      → lookup (add64 position i) kvs ≡ none
      → scan_rounds (suc left) i read position kvs callback c ≡ visit read [] callback c
  unfolding scan_rounds visit
  scan_rounds_last left i read c absent = rw (scan_rounds, absent) refl

  scan_rounds_step :
      (left i read : ℕ) (e : Entry) (c : C)
      → lookup (add64 position i) kvs ≡ some e
      → scan_rounds (suc left) i read position kvs callback c
        ≡ called
            (λ c'. scan_rounds left (suc i) (add64 read 1) position kvs callback c')
            (callback e c)
  unfolding scan_rounds
  scan_rounds_step left i read e c found = rw (scan_rounds, found) refl

  scan_rounds-visit :
      (left i read : ℕ) (es : List Entry) (c : C)
      → position + i + length es < 2 ^ 63
      → read + length es < 2 ^ 63
      → Ahead kvs (position + i) es
      → scan_rounds left i read position kvs callback c ≡ visit read (take left es) callback c
  unfolding scan_rounds visit
  scan_rounds-visit zero i read es c room fits ahead = refl
  scan_rounds-visit (suc left) i read [] c room fits ahead =
      scan_rounds_last left i read c
        (ap (λ (k : ℕ). lookup k kvs) (add64_of_lt position i (omega arith)) ∙ ahead)
  scan_rounds-visit (suc left) i read (e ∷ es) c room fits ahead =
      let next : suc (position + i) ≡ position + suc i = omega arith in
      scan_rounds_step left i read e c
        (ap (λ (k : ℕ). lookup k kvs) (add64_of_lt position i (omega arith)) ∙ ahead.0)
      ∙ called_agree _ _ (callback e c) (λ c'.
        ap (λ (n : ℕ). scan_rounds left (suc i) n position kvs callback c')
          (add64_of_lt read 1 (omega arith) ∙ omega arith)
        ∙ scan_rounds-visit left (suc i) (suc read) es c' (omega arith) (omega arith)
            (subst (λ (k : ℕ). Ahead kvs k es) next ahead.1))

pub scan-visit :
    {X C : Type 0} (kvs : Kvs) (position count : ℕ) (es : List Entry) (callback : Visitor X C)
    (c : C)
    → position + length es < 2 ^ 63
    → Ahead kvs position es
    → scan kvs position count callback c ≡ visit 0 (take count es) callback c
unfolding scan
scan-visit kvs position count es callback c room ahead =
    let same : position ≡ position + 0 = omega arith in
    scan_rounds-visit kvs position callback count 0 0 es c (omega arith) (omega arith)
      (subst (λ (k : ℕ). Ahead kvs k es) same ahead)
