-- ===== src/Formula/Model/Chain.antt =====
-- The nodes that a generation adds are the path from its entry up to its root.
use mathlib.Core.List.{reverse, reverse-append}
use native.Mathlib.Nat.{mod-eq_of_lt, mod-eq-sub-mod}
use native.Mathlib.Decide.{dec_le}
use stratified_hash_tree.Prelude.{
  ℕ, zero, suc, ◌+◌, ◌-◌, ◌%◌, ◌^◌, ◌≤◌, ◌<◌, ◌≡◌, refl, sym, ap, ◌∙◌, List, [], ◌∷◌, ◌++◌, arith,
  true, false, inl, inr, Bool-cases, ==_iff, ◌==◌,
}
use stratified_hash_tree.Prelude.Words.{
  add64, sub64, add8, shl64, add64_of_lt, sub64_of_le, add8_of_lt, shl64_one, two_pow_lt,
  two_pow_pos,
}
use stratified_hash_tree.Formula.Tree.{Addr, subnodes_of, root_of}
use stratified_hash_tree.Formula.Tree.Nodes.{multiple_of_le}
use stratified_hash_tree.Formula.Tree.Subnodes.{height_lem}
use stratified_hash_tree.Formula.Roots.{pbst_roots}
use stratified_hash_tree.Formula.Roots.Tiling.{Tiles, pbst_roots-Tiles}
use stratified_hash_tree.Formula.Roots.Spine.{
  spine_height, spine-subnodes_of, rest_multiple, Tiles-some_leaf,
}
use stratified_hash_tree.Formula.Roots.Distance.{perfect-subnodes_of}
use stratified_hash_tree.Formula.Roots.Access.{root_of-eq-spine}
use stratified_hash_tree.Formula.Model.{
  INode, addr, right_of, create_ephemeral_nodes, new, find_latest, pbst_inodes, latest_inodes,
  inodes,
}

-- From height `j` up to `top`, each node over the one below it as its right subnode.
abbrev pub Climbs : ℕ → ℕ → ℕ → List INode → Type 0
Climbs n j top [] = j ≡ top
Climbs n j top (x ∷ xs) =
    (x.node.i ≡ n)
    × (j < x.node.j)
    × (x.right ≡ addr n j)
    × (subnodes_of n x.node.j ≡ ((x.left.i, x.left.j), (n, j)))
    × Climbs n x.node.j top xs

-- The same, from the top down.
abbrev pub Falls : ℕ → ℕ → ℕ → List INode → Type 0
Falls n top j [] = top ≡ j
Falls n top j (x ∷ xs) =
    (x.node ≡ addr n top)
    × (x.right.j < top)
    × (x.right ≡ addr n x.right.j)
    × (subnodes_of n top ≡ ((x.left.i, x.left.j), (n, x.right.j)))
    × Falls n x.right.j j xs

Climbs-append :
    (n j mid top : ℕ) (xs ys : List INode)
    → Climbs n j mid xs
    → Climbs n mid top ys
    → Climbs n j top (xs ++ ys)
Climbs-append n j mid top [] ys c d = rw c d
Climbs-append n j mid top (x ∷ xs) ys c d =
    (c.0, c.1, c.2, c.3, Climbs-append n x.node.j mid top xs ys c.4 d)

Falls-append :
    (n top mid j : ℕ) (xs ys : List INode)
    → Falls n top mid xs
    → Falls n mid j ys
    → Falls n top j (xs ++ ys)
Falls-append n top mid j [] ys c d = rw c d
Falls-append n top mid j (x ∷ xs) ys c d =
    (c.0, c.1, c.2, c.3, Falls-append n x.right.j mid j xs ys c.4 d)

Climbs-reverse : (n top j : ℕ) (xs : List INode) → Falls n top j xs → Climbs n j top (reverse xs)
Climbs-reverse n top j [] f = sym f
Climbs-reverse n top j (x ∷ xs) f = rw (reverse-append (x ∷ []) xs) (
    Climbs-append n j x.right.j top (reverse xs) (x ∷ []) (Climbs-reverse n x.right.j j xs f.4) (
      ap (λ (a : Addr). a.i) f.0,
      rw (ap (λ (a : Addr). a.j) f.0) f.1,
      f.2,
      ap (λ (a : Addr). subnodes_of n a.j) f.0 ∙ f.3,
      ap (λ (a : Addr). a.j) f.0,
    ))

-- The joining nodes go down to the last tree.
pub last_height : List Addr → ℕ
last_height [] = 0
last_height (a ∷ []) = a.j
last_height (a ∷ b ∷ rest) = last_height (b ∷ rest)

pub add8_one : (j : ℕ) → j < 64 → add8 j 1 ≡ suc j
add8_one j h = add8_of_lt j 1 (omega arith) ∙ omega arith

right_of_lem :
    (k lo n : ℕ) (b : Addr) (rest : List Addr)
    → k ≤ 64
    → Tiles k lo n (b ∷ rest)
    → right_of b (create_ephemeral_nodes n (b ∷ rest)) ≡ addr n (spine_height (b ∷ rest))
unfolding spine_height create_ephemeral_nodes
right_of_lem k lo n b [] hk t = ap (λ (i : ℕ). addr i b.j) t.3
right_of_lem k lo n b (c ∷ rest) hk t = ap (addr n) (add8_one b.j (omega (arith, t.0)))

spine_height_lt :
    (a b : Addr) (rest : List Addr) (n : ℕ)
    → Tiles a.j a.i n (b ∷ rest)
    → spine_height (b ∷ rest) < suc a.j
unfolding spine_height
spine_height_lt a b [] n t = omega (arith, t.0)
spine_height_lt a b (c ∷ rest) n t = omega (arith, t.0)

pub ephemerals-Falls :
    (k lo n : ℕ) (a : Addr) (rest : List Addr)
    → lo % 2 ^ k ≡ 0
    → k ≤ 64
    → n < 2 ^ 64
    → Tiles k lo n (a ∷ rest)
    → Falls n
        (spine_height (a ∷ rest))
        (last_height (a ∷ rest))
        (create_ephemeral_nodes n (a ∷ rest))
unfolding spine_height last_height create_ephemeral_nodes
ephemerals-Falls k lo n a [] e hk h t = refl
ephemerals-Falls k lo n a (b ∷ rest) e hk h t =
    let down = spine-subnodes_of k lo n a b rest e hk h t in
    let right = right_of_lem a.j a.i n b rest (omega (arith, t.0)) t.3 in
    (
      ap (addr n) (add8_one a.j (omega (arith, t.0))),
      rw right (spine_height_lt a b rest n t.3),
      rw right refl,
      rw right down,
      rw right (
          ephemerals-Falls a.j a.i n b rest (rest_multiple k lo n a (b ∷ rest) t)
            (omega (arith, t.0)) h t.3),
    )

-- Below them, the nodes of the tree over the latest entry.
tree_left :
    (n k : ℕ)
    → n < 2 ^ 64
    → k < 63
    → 2 ^ suc k ≤ n
    → add64 (sub64 n (shl64 1 (suc k))) (shl64 1 k) ≡ n - 2 ^ suc k + 2 ^ k
tree_left n k h hk le =
    rw (shl64_one (suc k) (omega arith), shl64_one k (omega arith), sub64_of_le n (2 ^ suc k) le h)
      (add64_of_lt (n - 2 ^ suc k) (2 ^ k)
        (omega (arith, two_pow_lt {a = k} {b = suc k} (omega arith))))

pub multiple_ge : (n p : ℕ) → 0 < n → n % p ≡ 0 → p ≤ n
multiple_ge n p pos e = elim (dec_le p n) [
  | yes q ↦ q
  | no q ↦ absurd (let r : n % p ≡ n = mod-eq_of_lt (omega arith) in omega (arith, r))
]

pub pbst-subnodes_of :
    (n k : ℕ)
    → 0 < n
    → n < 2 ^ 64
    → k < 63
    → n % 2 ^ suc k ≡ 0
    → subnodes_of n (suc k) ≡ ((n - 2 ^ suc k + 2 ^ k, k), (n, k))
pbst-subnodes_of n k pos h hk e =
    let le : 2 ^ suc k ≤ n = multiple_ge n (2 ^ suc k) pos e in
    let back : n - 2 ^ suc k + 2 ^ suc k ≡ n = omega (arith, le) in
    let mult : (n - 2 ^ suc k) % 2 ^ suc k ≡ 0 = sym (mod-eq-sub-mod le) ∙ e in
    rw back at (perfect-subnodes_of (n - 2 ^ suc k) k (omega arith) (rw back h) mult)

pbst_inodes-Falls :
    (n j : ℕ) → 0 < n → n < 2 ^ 64 → j ≤ 63 → n % 2 ^ j ≡ 0 → Falls n j 0 (pbst_inodes n j)
unfolding pbst_inodes
pbst_inodes-Falls n zero pos h hj e = refl
pbst_inodes-Falls n (suc k) pos h hj e =
    let le : 2 ^ suc k ≤ n = multiple_ge n (2 ^ suc k) pos e in
    rw (height_lem k (omega arith), tree_left n k h hj le)
      (
        refl,
        omega arith,
        refl,
        pbst-subnodes_of n k pos h hj e,
        pbst_inodes-Falls n k pos h (omega arith) (multiple_of_le n k (suc k) (omega arith) e),
      )

latest-Falls :
    (k lo n : ℕ) (a : Addr) (rest : List Addr)
    → lo % 2 ^ k ≡ 0
    → k ≤ 64
    → n < 2 ^ 64
    → Tiles k lo n (a ∷ rest)
    → Falls n (last_height (a ∷ rest)) 0 (latest_inodes (find_latest n (a ∷ rest)))
unfolding last_height latest_inodes find_latest
latest-Falls k lo n a [] e hk h t =
    let here : (a.i == n) ≡ true = (==_iff a.i n).1 t.3 in
    elim (Bool-cases (a.j == 0)) [
      | inl leaf ↦ rw (here, leaf) ((==_iff a.j 0).0 leaf)
      | inr tree ↦
          rw (here, tree, t.3)
            (pbst_inodes-Falls n a.j (omega (arith, t.2, t.3, two_pow_pos a.j)) h
              (omega (arith, t.0, hk)) (rw t.3 at (rest_multiple k lo n a [] t)))
    ]
latest-Falls k lo n a (b ∷ rest) e hk h t =
    let past : a.i < n = Tiles-some_leaf a.j a.i n b rest t.3 in
    let other : (a.i == n) ≡ false = ground arith in
    rw other (
      latest-Falls a.j a.i n b rest (rest_multiple k lo n a (b ∷ rest) t) (omega (arith, t.0)) h
        t.3)

model-Falls :
    (n : ℕ) (a : Addr) (rest : List Addr)
    → n < 2 ^ 64
    → Tiles 64 0 n (a ∷ rest)
    → Falls n
        (spine_height (a ∷ rest))
        0
        (create_ephemeral_nodes n (a ∷ rest) ++ latest_inodes (find_latest n (a ∷ rest)))
model-Falls n a rest h t =
    Falls-append n (spine_height (a ∷ rest)) (last_height (a ∷ rest)) 0 _ _
      (ephemerals-Falls 64 0 n a rest (omega arith) (omega arith) h t)
      (latest-Falls 64 0 n a rest (omega arith) (omega arith) h t)

-- The nodes of a generation, from the root down.
unfoldable pub falling : ℕ → List INode
falling n = create_ephemeral_nodes n (pbst_roots n) ++ latest_inodes (find_latest n (pbst_roots n))

falling-Falls_of :
    (n : ℕ)
    → 0 < n
    → n < 2 ^ 64
    → (xs : List Addr) → Tiles 64 0 n xs
    → Falls n (root_of n).1 0 (create_ephemeral_nodes n xs ++ latest_inodes (find_latest n xs))
falling-Falls_of n pos h [] t = absurd (omega arith)
falling-Falls_of n pos h (a ∷ rest) t =
    rw (root_of-eq-spine n a rest h t) (model-Falls n a rest h t)

pub falling-Falls : (n : ℕ) → 0 < n → n < 2 ^ 64 → Falls n (root_of n).1 0 (falling n)
unfolding falling
falling-Falls n pos h = falling-Falls_of n pos h (pbst_roots n) (pbst_roots-Tiles n h)

pub inodes-eq-falling : (n : ℕ) → inodes (new n) ≡ reverse (falling n)
unfolding inodes new falling
inodes-eq-falling n = refl

-- The nodes that generation `n`, from 1 to 2 ^ 64 - 1, adds, from the lowest to the highest, are
-- all the nodes on the path from the entry `n` to the root of the generation: each is higher than
-- the one before it (at first the leaf), has that one as its right subnode and the left subnode
-- that `subnodes_of` computes, and the last has the height of the root.
pub inodes-Climbs : (n : ℕ) → 0 < n → n < 2 ^ 64 → Climbs n 0 (root_of n).1 (inodes (new n))
inodes-Climbs n pos h =
    rw (inodes-eq-falling n) (Climbs-reverse n (root_of n).1 0 (falling n) (falling-Falls n pos h))
