-- ===== src/Sample/Compare.antt =====
-- What it means that two samples compare as identical.
use mathlib.Core.Bool.{true≢false}
use stratified_hash_tree.Prelude.{
  ℕ, ◌≡◌, refl, sym, ap, ap₂, ◌∙◌, ◌==◌, ==_iff, Bool-cases, Bool, inl, inr, true, false, List, [],
  ◌∷◌, Result, ok, err, panic, ◌>>=◌, >>=-eq-ok,
}
use stratified_hash_tree.Error.{Error}
use stratified_hash_tree.Formula.Tree.{NodeIndex, root_of}
use stratified_hash_tree.Hashing.{Hasher, Hash}
use stratified_hash_tree.Sample.{
  identical, divergent, StratumSample, same_bytes, root_hash, differences, compare,
}
use stratified_hash_tree.Sample.Binding.{AreSized, Bound, compute_hash-Bound}

same_bytes_sound : (xs ys : List ℕ) → same_bytes xs ys ≡ true → xs ≡ ys
unfolding same_bytes
same_bytes_sound [] [] e = refl
same_bytes_sound [] (y ∷ ys) e = cc
same_bytes_sound (x ∷ xs) [] e = cc
same_bytes_sound (x ∷ xs) (y ∷ ys) e = elim (Bool-cases (x == y)) [
  | inl here ↦ ap₂ ◌∷◌ ((==_iff x y).0 here) (same_bytes_sound xs ys (rw here at e))
  | inr other ↦ absurd (true≢false (sym (rw other at e)))
]

module _ ⦃H : Hasher⦄ where
  -- What a comparison found that ended with `identical`.
  record Identical (s t : StratumSample) : Type 0 where
    same_revision : s.revision ≡ t.revision
    same_index : s.leaf.i ≡ t.leaf.i
    hash : Hash
    root : root_hash s ≡ ok hash
    other_root : root_hash t ≡ ok hash

  never_identical :
      (m : Result Error (List NodeIndex)) (f : List NodeIndex → List NodeIndex)
      → (m >>= λ below. ok (divergent (f below))) ≡ ok identical
      → ⊥
  never_identical (ok below) f e = cc
  never_identical (err error) f e = cc
  never_identical panic f e = cc

  differences-identical :
      (s t : StratumSample) (b : Bool) → differences s t b ≡ ok identical → b ≡ true
  unfolding differences
  differences-identical s t true e = refl
  differences-identical s t false e = absurd (never_identical _ _ e)

  compare-Identical : (s t : StratumSample) → compare s t ≡ ok identical → Identical s t
  unfolding compare
  compare-Identical s t e = elim (Bool-cases (s.revision == t.revision)) [
    | inr other ↦ absurd (let e' = (rw (compare, other) at e) in cc)
    | inl revision ↦ elim (Bool-cases (s.leaf.i == t.leaf.i)) [
      | inr other ↦ absurd (let e' = (rw (compare, revision, other) at e) in cc)
      | inl index ↦
          let (h, root, e') = >>=-eq-ok _ _ (sym (rw (compare, revision, index) at e)) in
          let (g, other_root, e'') = >>=-eq-ok _ _ (sym e') in
          let bytes = same_bytes_sound h.value g.value (differences-identical s t _ e'') in
          let of_value : List ℕ → Hash = λ v. record { value = v } in
          record {
            same_revision = (==_iff _ _).0 revision;
            same_index = (==_iff _ _).0 index;
            hash = h;
            root = root;
            other_root = other_root ∙ ap (λ (v : List ℕ). ok (of_value v)) (sym bytes);
          }
    ]
  ]

  -- Two samples that `compare` finds identical are of one revision and of one index, and hold the
  -- same value there, unless two inputs of the hash function with the same digest can be shown.
  -- Their witnesses are hashes of the size of the algorithm.
  pub compare-same_value :
      (s t : StratumSample)
      → AreSized s
      → AreSized t
      → compare s t ≡ ok identical
      → (s.revision ≡ t.revision) × (s.leaf.i ≡ t.leaf.i) × Bound s t
  unfolding root_hash
  compare-same_value s t sized_s sized_t e =
      let c = compare-Identical s t e in
      let revision = c.same_revision in
      let (i, j) = root_of s.revision in
      (
        revision,
        c.same_index,
        compute_hash-Bound s t c.same_index sized_s sized_t 65 (root_of s.revision).0
            (root_of s.revision).1 c.hash c.root (rw revision c.other_root),
      )
