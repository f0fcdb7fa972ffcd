-- ===== src/Sample/Beside.antt =====
-- What stands beside the way from a node down to a leaf, seen from the node.
use mathlib.Core.Bool.{true≢false}
use mathlib.Core.Path.{subst}
use stratified_hash_tree.Prelude.{
  ℕ, suc, ◌==◌, ◌≡◌, refl, sym, ap, ◌∙◌, ◌⊎◌, inl, inr, ◌&&◌, Bool-cases, true, false, some, List,
  [], ◌∷◌, All, arith,
}
use stratified_hash_tree.Formula.Tree.{NodeIndex, subnodes_of, root_of, contains}
use stratified_hash_tree.Hashing.{Hasher, Hash}
use stratified_hash_tree.Slate.Spec.{HashOf}
use stratified_hash_tree.Sample.{StratumSample, witness}
use stratified_hash_tree.Sample.Genuine.{OnPath, at_root, go_left, go_right, IsGenuine}

-- There is a hash for the node.
abbrev pub Has : List (NodeIndex × Hash) → NodeIndex → Type 0
Has ws b = (h : Hash) × (witness b ws ≡ some h)

pub Has-cons :
    (ws : List (NodeIndex × Hash)) (a b : NodeIndex) (h : Hash) → Has ws b → Has ((a, h) ∷ ws) b
unfolding witness
Has-cons ws a b h has = elim (Bool-cases (a.0 == b.0 && a.1 == b.1)) [
  | inl same ↦ (h, rw same refl)
  | inr other ↦ (has.0, rw other has.1)
]

pub first-Has : (ws : List (NodeIndex × Hash)) (m j : ℕ) (h : Hash) → Has (((m, j), h) ∷ ws) (m, j)
unfolding witness
first-Has ws m j h = let same : (m == m && j == j) ≡ true = ground arith in (h, rw same refl)

module _ ⦃H : Hasher⦄ (payload : ℕ → List ℕ) where
  -- Every hash is the right one.
  abbrev pub AreRight : List (NodeIndex × Hash) → Type 0
  AreRight = All (λ w. HashOf payload w.0.0 w.0.1 w.1)

  pub witness-AreRight :
      (ws : List (NodeIndex × Hash)) (m j : ℕ) (h : Hash)
      → AreRight ws
      → witness (m, j) ws ≡ some h
      → HashOf payload m j h
  unfolding witness
  witness-AreRight [] m j h right found = cc
  witness-AreRight ((a, g) ∷ ws) m j h right found = elim (Bool-cases (a.0 == m && a.1 == j)) [
    | inr other ↦ witness-AreRight ws m j h right.1 (sym (rw other refl) ∙ found)
    | inl same ↦
        let at_m : a.0 ≡ m = ground (arith, same) in
        let at_j : a.1 ≡ j = ground (arith, same) in
        let first : witness (m, j) ((a, g) ∷ ws) ≡ some g = rw same refl in
        let hashes : g ≡ h = (let e : some g ≡ some h = sym first ∙ found in cc) in
        subst (λ (x : ℕ). HashOf payload x j h) at_m
          (subst (λ (y : ℕ). HashOf payload a.0 y h) at_j
            (subst (HashOf payload a.0 a.1) hashes right.0))
  ]

module _ (i : ℕ) where
  -- The nodes from the top down to the leaf `i`.
  pub data Below (top : NodeIndex) : ℕ → ℕ → Type 0 where
    at_top : Below top top.0 top.1
    on_left :
        {m k : ℕ}
        → Below top m (suc k)
        → contains (subnodes_of m (suc k)).0.0 (subnodes_of m (suc k)).0.1 i ≡ true
        → Below top (subnodes_of m (suc k)).0.0 (subnodes_of m (suc k)).0.1
    on_right :
        {m k : ℕ}
        → Below top m (suc k)
        → contains (subnodes_of m (suc k)).0.0 (subnodes_of m (suc k)).0.1 i ≡ false
        → Below top (subnodes_of m (suc k)).1.0 (subnodes_of m (suc k)).1.1

  -- The way goes on in one of the subnodes of the top.
  abbrev Onward : NodeIndex → ℕ → ℕ → Type 0
  Onward top m j =
      (k : ℕ) × (top.1 ≡ suc k)
      × (((contains (subnodes_of top.0 (suc k)).0.0 (subnodes_of top.0 (suc k)).0.1 i ≡ true)
            × Below (subnodes_of top.0 (suc k)).0 m j)
          ⊎ ((contains (subnodes_of top.0 (suc k)).0.0 (subnodes_of top.0 (suc k)).0.1 i ≡ false)
              × Below (subnodes_of top.0 (suc k)).1 m j))

  Below-cases : (top : NodeIndex) (m j : ℕ) → Below top m j → ((m, j) ≡ top) ⊎ Onward top m j
  Below-cases top m j at_top = inl refl
  Below-cases top _ _ (on_left {m} {k} way c) = elim (Below-cases top m (suc k) way) [
    | inl same ↦ inr (
        subst (λ (t : NodeIndex). Onward t (subnodes_of m (suc k)).0.0 (subnodes_of m (suc k)).0.1)
          same (k, refl, inl (c, at_top)))
    | inr (k', e, inl (d, rest)) ↦ inr (k', e, inl (d, on_left rest c))
    | inr (k', e, inr (d, rest)) ↦ inr (k', e, inr (d, on_left rest c))
  ]
  Below-cases top _ _ (on_right {m} {k} way c) = elim (Below-cases top m (suc k) way) [
    | inl same ↦ inr (
        subst (λ (t : NodeIndex). Onward t (subnodes_of m (suc k)).1.0 (subnodes_of m (suc k)).1.1)
          same (k, refl, inr (c, at_top)))
    | inr (k', e, inl (d, rest)) ↦ inr (k', e, inl (d, on_right rest c))
    | inr (k', e, inr (d, rest)) ↦ inr (k', e, inr (d, on_right rest c))
  ]

  -- There is a hash for the subnode that the way does not take.
  abbrev Stands : List (NodeIndex × Hash) → NodeIndex → Type 0
  Stands ws t =
      (contains (subnodes_of t.0 t.1).0.0 (subnodes_of t.0 t.1).0.1 i ≡ true
        → Has ws (subnodes_of t.0 t.1).1)
      × (contains (subnodes_of t.0 t.1).0.0 (subnodes_of t.0 t.1).0.1 i ≡ false
          → Has ws (subnodes_of t.0 t.1).0)

  -- That holds at every node of the way from the top down.
  abbrev pub Beside : List (NodeIndex × Hash) → NodeIndex → Type 0
  Beside ws top = (m k : ℕ) → Below top m (suc k) → Stands ws (m, suc k)

  pub keeps-Beside :
      (ws ws' : List (NodeIndex × Hash)) (top : NodeIndex)
      → ((b : NodeIndex) → Has ws b → Has ws' b)
      → Beside ws top
      → Beside ws' top
  keeps-Beside ws ws' top keeps beside m k way =
      let at = beside m k way in (λ c. keeps _ (at.0 c), λ c. keeps _ (at.1 c))

  pub leaf-Beside : (ws : List (NodeIndex × Hash)) (m : ℕ) → Beside ws (m, 0)
  leaf-Beside ws m x k way = elim (Below-cases (m, 0) x (suc k) way) [
    | inl same ↦ absurd (omega (arith, ap (λ (t : NodeIndex). t.1) same))
    | inr (k', e, rest) ↦ absurd (omega (arith, e))
  ]

  pub left-Beside :
      (ws : List (NodeIndex × Hash)) (m k : ℕ) (l r : NodeIndex)
      → subnodes_of m (suc k) ≡ (l, r)
      → contains l.0 l.1 i ≡ true
      → Has ws r
      → Beside ws l
      → Beside ws (m, suc k)
  left-Beside ws m k l r split c has rest x k' way =
      let is_left : (subnodes_of m (suc k)).0 ≡ l = ap (λ (p : NodeIndex × NodeIndex). p.0) split in
      let is_right : (subnodes_of m (suc k)).1 ≡ r =
        ap (λ (p : NodeIndex × NodeIndex). p.1) split in
      let goes : contains (subnodes_of m (suc k)).0.0 (subnodes_of m (suc k)).0.1 i ≡ true =
        ap (λ (b : NodeIndex). contains b.0 b.1 i) is_left ∙ c in
      elim (Below-cases (m, suc k) x (suc k') way) [
        | inl same ↦
            subst (Stands ws) (sym same)
              (λ d. subst (Has ws) (sym is_right) has, λ d. absurd (true≢false (sym goes ∙ d)))
        | inr (n, e, inl (d, below)) ↦
            let same : n ≡ k = omega (arith, e) in
            rest x k' (
              subst (λ (b : NodeIndex). Below b x (suc k'))
                (ap (λ (t : ℕ). (subnodes_of m (suc t)).0) same ∙ is_left) below)
        | inr (n, e, inr (d, below)) ↦
            let same : n ≡ k = omega (arith, e) in
            absurd (
              true≢false (
                sym goes
                ∙ ap (λ (t : ℕ). contains (subnodes_of m (suc t)).0.0 (subnodes_of m (suc t)).0.1 i)
                    (sym same)
                ∙ d))
      ]

  pub right-Beside :
      (ws : List (NodeIndex × Hash)) (m k : ℕ) (l r : NodeIndex)
      → subnodes_of m (suc k) ≡ (l, r)
      → contains l.0 l.1 i ≡ false
      → Has ws l
      → Beside ws r
      → Beside ws (m, suc k)
  right-Beside ws m k l r split c has rest x k' way =
      let is_left : (subnodes_of m (suc k)).0 ≡ l = ap (λ (p : NodeIndex × NodeIndex). p.0) split in
      let is_right : (subnodes_of m (suc k)).1 ≡ r =
        ap (λ (p : NodeIndex × NodeIndex). p.1) split in
      let goes : contains (subnodes_of m (suc k)).0.0 (subnodes_of m (suc k)).0.1 i ≡ false =
        ap (λ (b : NodeIndex). contains b.0 b.1 i) is_left ∙ c in
      elim (Below-cases (m, suc k) x (suc k') way) [
        | inl same ↦
            subst (Stands ws) (sym same)
              (λ d. absurd (true≢false (sym d ∙ goes)), λ d. subst (Has ws) (sym is_left) has)
        | inr (n, e, inr (d, below)) ↦
            let same : n ≡ k = omega (arith, e) in
            rest x k' (
              subst (λ (b : NodeIndex). Below b x (suc k'))
                (ap (λ (t : ℕ). (subnodes_of m (suc t)).1) same ∙ is_right) below)
        | inr (n, e, inl (d, below)) ↦
            let same : n ≡ k = omega (arith, e) in
            absurd (
              true≢false (
                sym d
                ∙ ap (λ (t : ℕ). contains (subnodes_of m (suc t)).0.0 (subnodes_of m (suc t)).0.1 i)
                    same
                ∙ goes))
      ]

module _ ⦃H : Hasher⦄ (payload : ℕ → List ℕ) (s : StratumSample) where
  OnPath-Below : (m j : ℕ) → OnPath payload s m j → Below s.leaf.i (root_of s.revision) m j
  OnPath-Below m j at_root = at_top
  OnPath-Below m j (go_left path c) = on_left (OnPath-Below _ _ path) c
  OnPath-Below m j (go_right path c) = on_right (OnPath-Below _ _ path) c

  -- A sample that holds its value, whose witnesses are right and stand beside the whole way from
  -- the root to the leaf, is genuine.
  pub Beside-IsGenuine :
      s.leaf.value ≡ payload s.leaf.i
      → AreRight payload s.witnesses
      → Beside s.leaf.i s.witnesses (root_of s.revision)
      → IsGenuine payload s
  Beside-IsGenuine value right beside = record {
    value = value;
    on_the_right = λ m k path c.
        (let (h, found) = (beside m k (OnPath-Below m (suc k) path)).0 c in
          (h, found, witness-AreRight payload s.witnesses _ _ h right found));
    on_the_left = λ m k path c.
        (let (h, found) = (beside m k (OnPath-Below m (suc k) path)).1 c in
          (h, found, witness-AreRight payload s.witnesses _ _ h right found));
  }
