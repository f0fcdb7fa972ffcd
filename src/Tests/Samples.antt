-- ===== src/Tests/Samples.antt =====
-- Two samples of the first leaf of two, with values that collide.
use mathlib.Core.Bool.{true≢false}
use mathlib.Core.Path.{subst}
use stratified_hash_tree.Prelude.{
  ℕ, suc, ◌≡◌, refl, sym, ap, ap₂, ◌∙◌, ◌⊎◌, inl, inr, true, [], ◌∷◌, ok, arith,
}
use stratified_hash_tree.Prelude.Words.{add64, sub64, sub8, shl64, shr64, leading_zeros, bit_len}
use stratified_hash_tree.Formula.Arith.{i_mod_2e, pow2e, ceil_log2}
use stratified_hash_tree.Formula.Tree.{NodeIndex, root_of, subnodes_of, contains, range}
use stratified_hash_tree.Hashing.{Hash, hash, combine, from_bytes}
use stratified_hash_tree.Sample.{
  identical, StratumSample, witness, same_bytes, compute_hash, root_hash, differences, compare,
}
use stratified_hash_tree.Sample.Binding.{Bound}
use stratified_hash_tree.Sample.Compare.{compare-same_value}
use stratified_hash_tree.Sample.Genuine.{
  OnPath, at_root, go_left, go_right, Witnessed, IsGenuine, root_hash-HashOf,
}
use stratified_hash_tree.Slate.Spec.{HashOf, at_leaf}
use stratified_hash_tree.Tests.{byte_hasher, payload}

abbrev sample : StratumSample
sample = record {
  revision = 2;
  leaf = record { i = 1; value = 5 ∷ 7 ∷ [] };
  witnesses = ((2, 0), record { value = 6 ∷ [] }) ∷ [];
}

-- Another value with the same digest.
abbrev other : StratumSample
other = record sample { leaf = record { i = 1; value = 8 ∷ 6 ∷ [] } }

same : compare sample other ≡ ok identical
unfolding compare differences root_hash compute_hash witness same_bytes root_of subnodes_of contains
    range ceil_log2 leading_zeros bit_len sub64 sub8 shl64 shr64 add64 pow2e i_mod_2e hash combine
    from_bytes
same = refl

compare_example :
    (sample.revision ≡ other.revision) × (sample.leaf.i ≡ other.leaf.i) × Bound sample other
compare_example = compare-same_value sample other (refl, tt) (refl, tt) same

-- The sample of the first of two values.
abbrev first_of_two : StratumSample
first_of_two = record {
  revision = 2;
  leaf = record { i = 1; value = payload 1 };
  witnesses = ((2, 0), from_bytes 0 (payload 2)) ∷ [];
}

two_nodes : subnodes_of 2 1 ≡ ((1, 0), (2, 0))
unfolding subnodes_of ceil_log2 leading_zeros bit_len sub64 sub8 shl64 shr64 pow2e
two_nodes = refl

root_of_two : root_of 2 ≡ (2, 1)
unfolding root_of ceil_log2 leading_zeros bit_len sub64
root_of_two = refl

-- Above the leaves, the path is the root.
split_of : (i k : ℕ) → (i ≡ 2) × (suc k ≡ 1) → subnodes_of i (suc k) ≡ ((1, 0), (2, 0))
split_of i k e = ap₂ subnodes_of e.0 e.1 ∙ two_nodes

on_path : {i j : ℕ} → OnPath payload first_of_two i j → ((i ≡ 2) × (j ≡ 1)) ⊎ (j ≡ 0)
on_path at_root =
    inl (ap (λ (r : NodeIndex). r.0) root_of_two, ap (λ (r : NodeIndex). r.1) root_of_two)
on_path (go_left {i = i} {k = k} path c) = elim (on_path path) [
  | inl e ↦ inr (ap (λ (p : NodeIndex × NodeIndex). p.0.1) (split_of i k e))
  | inr z ↦ absurd (omega arith)
]
on_path (go_right {i = i} {k = k} path c) = elim (on_path path) [
  | inl e ↦ inr (ap (λ (p : NodeIndex × NodeIndex). p.1.1) (split_of i k e))
  | inr z ↦ absurd (omega arith)
]

split_at :
    (i k : ℕ) → OnPath payload first_of_two i (suc k) → subnodes_of i (suc k) ≡ ((1, 0), (2, 0))
split_at i k path = elim (on_path path) [ inl e ↦ split_of i k e | inr z ↦ absurd (omega arith) ]

second-Witnessed : Witnessed payload first_of_two (2, 0)
unfolding witness
second-Witnessed = (from_bytes 0 (payload 2), refl, at_leaf refl)

in_left : contains 1 0 1 ≡ true
unfolding contains range i_mod_2e sub64 shl64
in_left = refl

first-IsGenuine : IsGenuine payload first_of_two
first-IsGenuine = record {
  value = refl;
  on_the_right = λ i k path c.
      subst (λ (p : NodeIndex × NodeIndex). Witnessed payload first_of_two p.1)
        (sym (split_at i k path)) second-Witnessed;
  on_the_left = λ i k path c. absurd (
      true≢false (
        sym in_left
        ∙ ap (λ (p : NodeIndex × NodeIndex). contains p.0.0 p.0.1 1) (sym (split_at i k path))
        ∙ c));
}

root_hash_example :
    (h : Hash) × (root_hash first_of_two ≡ ok h) × HashOf payload (root_of 2).0 (root_of 2).1 h
root_hash_example =
    root_hash-HashOf payload first_of_two first-IsGenuine (omega arith) (omega arith) (omega arith)
