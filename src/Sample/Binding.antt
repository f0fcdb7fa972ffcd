-- ===== src/Sample/Binding.antt =====
-- A sample is bound to its root hash: another value under the same root is a collision.
use mathlib.Core.List.{List-discrete}
use mathlib.Core.Bool.{true≢false}
use native.Mathlib.Decide.{ℕ_discrete}
use stratified_hash_tree.Prelude.{
  ℕ, zero, suc, ◌≡◌, ◌≢◌, sym, ap, ◌∙◌, ◌⊎◌, inl, inr, ◌==◌, Bool-cases, true, false, Option, none,
  some, List, [], ◌∷◌, ◌++◌, All, length, take, drop, take-append, drop-append, Result, ok, unwrap,
  >>=-eq-ok, arith,
}
use stratified_hash_tree.Error.{Error}
use stratified_hash_tree.Formula.Tree.{NodeIndex, subnodes_of, contains}
use stratified_hash_tree.Hashing.{Hasher, Hash, from_bytes, combine, hash}
use stratified_hash_tree.Sample.{StratumSample, witness, compute_hash}

-- Two lists of the same length in front of others.
append-eq : (a b c d : List ℕ) → length a ≡ length c → a ++ b ≡ c ++ d → (a ≡ c) × (b ≡ d)
append-eq a b c d e h = (
  sym (take-append a b)
      ∙ ap (take (length a)) h
      ∙ ap (λ (n : ℕ). take n (c ++ d)) e
      ∙ take-append c d,
  sym (drop-append a b)
      ∙ ap (drop (length a)) h
      ∙ ap (λ (n : ℕ). drop n (c ++ d)) e
      ∙ drop-append c d,
)

module _ ⦃H : Hasher⦄ where
  -- Two inputs of the hash function with one digest.
  pub record Collision : Type 0 where
    pub first : List ℕ
    pub second : List ℕ
    pub differ : first ≢ second
    pub digests : H.digest first ≡ H.digest second

  -- The hash is of the size of the algorithm.
  abbrev pub IsSized : Hash → Type 0
  IsSized h = length h.value ≡ H.size

  abbrev pub AreSized : StratumSample → Type 0
  AreSized s = All (λ (x : NodeIndex × Hash). IsSized x.1) s.witnesses

  from_bytes-IsSized : (j : ℕ) (value : List ℕ) → IsSized (from_bytes j value)
  unfolding from_bytes
  from_bytes-IsSized j value = H.length-digest (j ∷ value)

  -- Equal hashes are of equal bytes, or there is a collision.
  from_bytes_binding :
      (j : ℕ) (x y : List ℕ) → from_bytes j x ≡ from_bytes j y → (x ≡ y) ⊎ Collision
  unfolding from_bytes
  from_bytes_binding j x y h = elim (List-discrete ℕ_discrete x y) [
    | yes e ↦ inl e
    | no ne ↦ inr (record {
      first = j ∷ x;
      second = j ∷ y;
      differ = λ e. ne (ap (drop 1) e);
      digests = ap (λ (g : Hash). g.value) h;
    })
  ]

  combine_binding :
      (j : ℕ) (a b c d : Hash)
      → IsSized a
      → IsSized c
      → combine a j b ≡ combine c j d
      → ((a ≡ c) × (b ≡ d)) ⊎ Collision
  unfolding combine
  combine_binding j a b c d p q h =
      elim (from_bytes_binding j (a.value ++ b.value) (c.value ++ d.value) h) [
        | inl e ↦
            let (l, r) = append-eq a.value b.value c.value d.value (p ∙ sym q) e in
            let of_value : List ℕ → Hash = λ v. record { value = v } in
            inl (ap of_value l, ap of_value r)
        | inr collision ↦ inr collision
      ]

  witness-IsSized :
      (b : NodeIndex) (xs : List (NodeIndex × Hash)) (h : Hash)
      → All (λ (x : NodeIndex × Hash). IsSized x.1) xs
      → witness b xs ≡ some h
      → IsSized h
  unfolding witness
  witness-IsSized b [] h sized e = cc
  witness-IsSized b ((a, g) ∷ rest) h sized e = ground (arith, witness-IsSized b rest h sized.1)

  -- How a computation that succeeded went on at a node.
  data Computed (fuel : ℕ) (s : StratumSample) (i j : ℕ) (h : Hash) : Type 0 where
    leaf : (j == 0) ≡ true → hash s.leaf ≡ h → Computed fuel s i j h
    left :
        (a b : Hash)
        → (j == 0) ≡ false
        → contains (subnodes_of i j).0.0 (subnodes_of i j).0.1 s.leaf.i ≡ true
        → compute_hash fuel s (subnodes_of i j).0.0 (subnodes_of i j).0.1 ≡ ok a
        → witness (subnodes_of i j).1 s.witnesses ≡ some b
        → combine a j b ≡ h
        → Computed fuel s i j h
    right :
        (a b : Hash)
        → (j == 0) ≡ false
        → contains (subnodes_of i j).0.0 (subnodes_of i j).0.1 s.leaf.i ≡ false
        → compute_hash fuel s (subnodes_of i j).1.0 (subnodes_of i j).1.1 ≡ ok b
        → witness (subnodes_of i j).0 s.witnesses ≡ some a
        → combine a j b ≡ h
        → Computed fuel s i j h

  ok_injective : {g h : Hash} → ◌≡◌ {A = Result Error Hash} (ok g) (ok h) → g ≡ h
  ok_injective e = cc

  unwrap_ok : (o : Option Hash) {a : Hash} → unwrap {E = Error} o ≡ ok a → o ≡ some a
  unwrap_ok none e = cc
  unwrap_ok (some b) e = cc

  module _ (fuel : ℕ) (s : StratumSample) (i j : ℕ) (h : Hash)
      (e : compute_hash (suc fuel) s i j ≡ ok h) where
    at_leaf : (j == 0) ≡ true → Computed fuel s i j h
    unfolding compute_hash
    at_leaf z = elim (Bool-cases (s.leaf.i == i)) [
      | inl own ↦ leaf z (ok_injective (rw (compute_hash, z, own) at e))
      | inr other ↦ absurd (let e' = (rw (compute_hash, z, other) at e) in cc)
    ]

    at_left :
        (j == 0) ≡ false
        → contains (subnodes_of i j).0.0 (subnodes_of i j).0.1 s.leaf.i ≡ true
        → Computed fuel s i j h
    unfolding compute_hash
    at_left nz in_left =
        let (a, below, e') = >>=-eq-ok _ _ (sym (rw (compute_hash, nz, in_left) at e)) in
        let (b, beside, e'') = >>=-eq-ok _ _ (sym e') in
        left a b nz in_left below (unwrap_ok _ beside) (ok_injective e'')

    at_right :
        (j == 0) ≡ false
        → contains (subnodes_of i j).0.0 (subnodes_of i j).0.1 s.leaf.i ≡ false
        → Computed fuel s i j h
    unfolding compute_hash
    at_right nz out_left =
        elim (Bool-cases (contains (subnodes_of i j).1.0 (subnodes_of i j).1.1 s.leaf.i)) [
          | inl in_right ↦
              let (a, beside, e') =
                >>=-eq-ok _ _ (sym (rw (compute_hash, nz, out_left, in_right) at e)) in
              let (b, below, e'') = >>=-eq-ok _ _ (sym e') in
              right a b nz out_left below (unwrap_ok _ beside) (ok_injective e'')
          | inr out_right ↦
              absurd (let e' = (rw (compute_hash, nz, out_left, out_right) at e) in cc)
        ]

    computed : Computed fuel s i j h
    computed = elim (Bool-cases (j == 0)) [
      | inl z ↦ at_leaf z
      | inr nz ↦ elim (Bool-cases (contains (subnodes_of i j).0.0 (subnodes_of i j).0.1 s.leaf.i)) [
        | inl in_left ↦ at_left nz in_left
        | inr out_left ↦ at_right nz out_left
      ]
    ]

  Computed-IsSized :
      (fuel : ℕ) (s : StratumSample) (i j : ℕ) (h : Hash) → Computed fuel s i j h → IsSized h
  unfolding hash combine
  Computed-IsSized fuel s i j h (leaf z e) = rw (← e) (from_bytes-IsSized 0 s.leaf.value)
  Computed-IsSized fuel s i j h (left a b nz c below beside e) =
      rw (← e) (from_bytes-IsSized j (a.value ++ b.value))
  Computed-IsSized fuel s i j h (right a b nz c below beside e) =
      rw (← e) (from_bytes-IsSized j (a.value ++ b.value))

  compute_hash-IsSized :
      (fuel : ℕ) (s : StratumSample) (i j : ℕ) (h : Hash)
      → compute_hash fuel s i j ≡ ok h
      → IsSized h
  unfolding compute_hash
  compute_hash-IsSized zero s i j h e = cc
  compute_hash-IsSized (suc fuel) s i j h e =
      Computed-IsSized fuel s i j h (computed fuel s i j h e)

  -- The values of the leaves agree, or there is a collision.
  abbrev pub Bound : StratumSample → StratumSample → Type 0
  Bound s t = (s.leaf.value ≡ t.leaf.value) ⊎ Collision

  module _ (s t : StratumSample) (same : s.leaf.i ≡ t.leaf.i) (sized_s : AreSized s)
      (sized_t : AreSized t) where
    disagree :
        {A : Type 0} (l : NodeIndex) (p : contains l.0 l.1 s.leaf.i ≡ true)
        (q : contains l.0 l.1 t.leaf.i ≡ false)
        → A
    disagree l p q = absurd (true≢false (sym p ∙ ap (contains l.0 l.1) same ∙ q))

    both :
        (fuel i j : ℕ) (h : Hash)
        → ((i' j' : ℕ) (g : Hash)
            → compute_hash fuel s i' j' ≡ ok g
            → compute_hash fuel t i' j' ≡ ok g
            → Bound s t)
        → Computed fuel s i j h
        → Computed fuel t i j h
        → Bound s t
    unfolding hash
    both fuel i j h ih (leaf z p) (leaf z' q) =
        from_bytes_binding 0 s.leaf.value t.leaf.value (p ∙ sym q)
    both fuel i j h ih (leaf z p) (left a b nz c below beside q) = absurd (true≢false (sym z ∙ nz))
    both fuel i j h ih (leaf z p) (right a b nz c below beside q) = absurd (true≢false (sym z ∙ nz))
    both fuel i j h ih (left a b nz c below beside q) (leaf z p) = absurd (true≢false (sym z ∙ nz))
    both fuel i j h ih (right a b nz c below beside q) (leaf z p) = absurd (true≢false (sym z ∙ nz))
    both fuel i j h ih (left a b nz c below beside q) (right a' b' nz' c' below' beside' q') =
        disagree (subnodes_of i j).0 c c'
    both fuel i j h ih (right a b nz c below beside q) (left a' b' nz' c' below' beside' q') =
        absurd (true≢false (sym c' ∙ ap (contains _ _) (sym same) ∙ c))
    both fuel i j h ih (left a b nz c below beside q) (left a' b' nz' c' below' beside' q') =
        elim (combine_binding j a b a' b' (compute_hash-IsSized fuel s _ _ a below)
          (compute_hash-IsSized fuel t _ _ a' below') (q ∙ sym q')) [
            | inl e ↦ ih _ _ a below (below' ∙ ap ok (sym e.0))
            | inr collision ↦ inr collision
          ]
    both fuel i j h ih (right a b nz c below beside q) (right a' b' nz' c' below' beside' q') =
        elim (combine_binding j a b a' b' (witness-IsSized _ s.witnesses a sized_s beside)
          (witness-IsSized _ t.witnesses a' sized_t beside') (q ∙ sym q')) [
            | inl e ↦ ih _ _ b below (below' ∙ ap ok (sym e.1))
            | inr collision ↦ inr collision
          ]

    pub compute_hash-Bound :
        (fuel i j : ℕ) (h : Hash)
        → compute_hash fuel s i j ≡ ok h
        → compute_hash fuel t i j ≡ ok h
        → Bound s t
    unfolding compute_hash
    compute_hash-Bound zero i j h p q = cc
    compute_hash-Bound (suc fuel) i j h p q =
        both fuel i j h (compute_hash-Bound fuel) (computed fuel s i j h p)
          (computed fuel t i j h q)
