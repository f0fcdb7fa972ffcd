-- ===== src/Query/Places.antt =====
-- The places of the nodes in an entry: the heights rise by one place, and the perfect tree that
-- ends at the entry has one.
use native.Mathlib.Nat.{mod-eq_of_lt, mod-add-mod, zero-add}
use native.Mathlib.Decide.{dec_lt}
use stratified_hash_tree.Prelude.{
  ℕ, zero, suc, ◌+◌, ◌-◌, ◌%◌, ◌^◌, ◌≤◌, ◌<◌, ◌≡◌, refl, ap, inl, inr, ◌==◌, ==_iff, Bool-cases,
  true, false, Option, none, some, List, [], ◌∷◌, arith, length, get_elem?,
}
use stratified_hash_tree.Prelude.Words.{two_pow_lt}
use stratified_hash_tree.Formula.Tree.Nodes.{IsNode-IsAligned, multiple_of_le, multiple-add}
use stratified_hash_tree.Formula.Arith.{ceil_log2}
use stratified_hash_tree.Formula.Arith.Logs.{ceil_log2_upper}
use stratified_hash_tree.Hashing.{Hasher}
use stratified_hash_tree.Entry.{INode}
use stratified_hash_tree.Slate.Spec.{Log, Describes, Linked}
use stratified_hash_tree.Query.{place_of}
use stratified_hash_tree.Query.Descent.{Joined, joined}

-- Two multiples are apart by the modulus.
pub multiple_gap : (a b t : ℕ) → a % 2 ^ t ≡ 0 → b % 2 ^ t ≡ 0 → a < b → a + 2 ^ t ≤ b
multiple_gap a b t ea eb lt = elim (dec_lt b (a + 2 ^ t)) [
  | no far ↦ omega arith
  | yes near ↦ absurd (
      let c : ℕ = b - a in
      let split : a + c ≡ b = omega arith in
      let rest : (a + c) % 2 ^ t ≡ c =
        rw (← mod-add-mod a (2 ^ t) c, ea, zero-add) (mod-eq_of_lt (omega arith)) in
      omega (arith, rest, ap (λ (x : ℕ). x % 2 ^ t) split))
]

pub under_root : (i k : ℕ) → 0 < i → i < 2 ^ 64 → 2 ^ k ≤ i → k ≤ ceil_log2 i
under_root i k pos room le = elim (dec_lt (ceil_log2 i) k) [
  | no fits ↦ omega arith
  | yes low ↦ absurd (omega (arith, two_pow_lt low, (ceil_log2_upper i pos room).0))
]

-- The height at each place, the lowest at place 0.
abbrev pub height_at : ℕ → List INode → ℕ → Option ℕ
height_at j xs zero = some j
height_at j [] (suc k) = none
height_at j (x ∷ xs) (suc k) = height_at x.meta.address.j xs k

pub height_at-length :
    ⦃H : Hasher⦄ (log : Log) (m j top : ℕ) (xs : List INode)
    → Linked log m j top xs
    → height_at j xs (length xs) ≡ some top
height_at-length log m j top [] links = ap some links
height_at-length log m j top (x ∷ xs) links = height_at-length log m x.meta.address.j top xs links.6

module _ ⦃H : Hasher⦄ (log : Log) where
  -- The node at a place above the lowest, and what stands below it.
  pub record Above (m j : ℕ) (xs : List INode) (k h : ℕ) : Type 0 where
    pub node : INode
    pub found : get_elem? xs k ≡ some node
    pub height : node.meta.address.j ≡ h
    pub below : ℕ
    pub below_at : height_at j xs k ≡ some below
    pub joins : Joined log m below node
    pub stored_at : node.left.position ≡ log.position node.left.i
    pub describes : Describes log m node.meta.address.j node.meta

  pub height_at-Above :
      (m j top k h : ℕ) (xs : List INode)
      → m < 2 ^ 64
      → Linked log m j top xs
      → height_at j xs (suc k) ≡ some h
      → Above m j xs k h
  height_at-Above m j top k h [] room links e = absurd (let none_some : none ≡ some h = e in cc)
  height_at-Above m j top zero h (x ∷ xs) room links e = record {
    node = x;
    found = refl;
    height = (let same : some x.meta.address.j ≡ some h = e in cc);
    below = j;
    below_at = refl;
    joins = joined log m j top x xs room links;
    stored_at = links.2;
    describes = links.0;
  }
  height_at-Above m j top (suc k) h (x ∷ xs) room links e =
      let a = height_at-Above m x.meta.address.j top k h xs room links.6 e in
      record {
        node = a.node;
        found = a.found;
        height = a.height;
        below = a.below;
        below_at = a.below_at;
        joins = a.joins;
        stored_at = a.stored_at;
        describes = a.describes;
      }

  -- `place_of` finds the place of a height.
  pub record Placed (j : ℕ) (xs : List INode) (t : ℕ) : Type 0 where
    pub place : ℕ
    pub placed : place_of t xs ≡ some (suc place)
    pub there : height_at j xs (suc place) ≡ some t

  place_of_here :
      (t : ℕ) (x : INode) (xs : List INode)
      → (x.meta.address.j == t) ≡ true
      → place_of t (x ∷ xs) ≡ some 1
  unfolding place_of
  place_of_here t x xs same = rw same refl

  place_of_later :
      (t k : ℕ) (x : INode) (xs : List INode)
      → (x.meta.address.j == t) ≡ false
      → place_of t xs ≡ some k
      → place_of t (x ∷ xs) ≡ some (suc k)
  unfolding place_of
  place_of_later t k x xs other found = rw (other, found) refl

  -- No node on the path is higher than a perfect tree over a node that is lower.
  pub no_jump :
      (m j t : ℕ) (x : INode) → j < t → m % 2 ^ t ≡ 0 → Joined log m j x → x.meta.address.j ≤ t
  no_jump m j t x low multiple y = elim (dec_lt t x.meta.address.j) [
    | no fits ↦ omega arith
    | yes over ↦ absurd (
        let middle : (y.lo + 2 ^ y.k) % 2 ^ t ≡ 0 =
          multiple_of_le (y.lo + 2 ^ y.k) t y.k (omega (arith, y.height)) (
            multiple-add y.lo y.k
              (multiple_of_le y.lo y.k (suc y.k) (omega arith) y.splits.node.0)) in
        let right = IsNode-IsAligned (y.lo + 2 ^ y.k) m j y.splits.right_node in
        let gap = multiple_gap (y.lo + 2 ^ y.k) m t middle multiple right.some_leaf in
        omega (arith, gap, right.fits, two_pow_lt low))
  ]

  pub place-Placed :
      (m j top t : ℕ) (xs : List INode)
      → m < 2 ^ 64
      → Linked log m j top xs
      → m % 2 ^ t ≡ 0
      → j < t
      → t ≤ top
      → Placed j xs t
  place-Placed m j top t [] room links multiple low le = absurd (omega (arith, links))
  place-Placed m j top t (x ∷ xs) room links multiple low le =
      let y = joined log m j top x xs room links in
      let high = no_jump m j t x low multiple y in
      elim (Bool-cases (x.meta.address.j == t)) [
        | inl same ↦ record {
          place = 0;
          placed = place_of_here t x xs same;
          there = ap some ((==_iff _ _).0 same);
        }
        | inr other ↦
            let rest =
              place-Placed m x.meta.address.j top t xs room links.6 multiple (ground arith) le in
            record {
              place = suc rest.place;
              placed = place_of_later t (suc rest.place) x xs other rest.placed;
              there = rest.there;
            }
      ]
