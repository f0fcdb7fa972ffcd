-- ===== src/Slate/Carry.antt =====
-- The perfect trees of a generation that are not new are trees of the generation before it.
use mathlib.Core.Path.{subst}
use native.Mathlib.Nat.{pow-suc}
use stratified_hash_tree.Prelude.{
  ℕ, zero, suc, ◌+◌, ◌^◌, ◌<◌, ◌≡◌, refl, sym, ap, ap₂, ◌∙◌, Option, some, List, [], ◌∷◌, All,
  arith, ◌⊎◌, inl, inr, ◌==◌, ==_iff, true, false, ◌++◌,
}
use stratified_hash_tree.Prelude.Words.{two_pow_pos, two_pow_lt_inv}
use stratified_hash_tree.Formula.Tree.{Addr}
use stratified_hash_tree.Formula.Roots.Tiling.{Tiles, pbst_roots-Tiles}
use stratified_hash_tree.Formula.Roots.Spine.{Tiles-bounds, Tiles-some_leaf}
use stratified_hash_tree.Formula.Model.{
  INode, addr, find_latest, latest_inodes, pbst_inodes, inodes, new,
}
use stratified_hash_tree.Formula.Model.Chain.{falling, inodes-eq-falling}
use stratified_hash_tree.Slate.Build.{Has}
use stratified_hash_tree.Formula.Roots.{pbst_roots}
use mathlib.Core.List.{reverse, reverse-append}

-- A tree is over the latest entry, or it is an old tree.
abbrev pub Carried : (Addr → Type 0) → ℕ → Addr → Type 0
Carried P n a = (a.i ≡ n) ⊎ ((a.i < n) × P a)

-- Two tilings that begin at the same leaf and both go past the first tree of each begin alike.
module _ (k l lo n : ℕ) (a b y : Addr) (rest ys : List Addr) (t : Tiles k lo (suc n) (a ∷ b ∷ rest))
    (u : Tiles l lo n (y ∷ ys)) where
  past : a.i < suc n
  past = Tiles-some_leaf a.j a.i (suc n) b rest t.3

  same_height : a.j ≡ y.j
  same_height =
      let new_bound = Tiles-bounds a.j a.i (suc n) (b ∷ rest) t.3 in
      let old_bound = Tiles-bounds y.j y.i n ys u.3 in
      let le : a.j < suc y.j =
        two_pow_lt_inv a.j (suc y.j) (omega (arith, past, old_bound, t.2, u.2, pow-suc 2 y.j)) in
      let ge : y.j < suc a.j =
        two_pow_lt_inv y.j (suc a.j)
          (omega (arith, new_bound, old_bound, t.2, u.2, pow-suc 2 a.j)) in
      omega (arith, le, ge)

  same_index : a.i ≡ y.i
  same_index = t.2 ∙ ap (λ (j : ℕ). lo + 2 ^ j) same_height ∙ sym u.2

pub All-Carried :
    (P : Addr → Type 0) (k l lo n : ℕ) (xs ys : List Addr)
    → Tiles k lo (suc n) xs
    → Tiles l lo n ys
    → All P ys
    → All (Carried P (suc n)) xs
All-Carried P k l lo n [] ys t u old = tt
All-Carried P k l lo n (a ∷ []) ys t u old = (inl t.3, tt)
All-Carried P k l lo n (a ∷ b ∷ rest) [] t u old =
    absurd (omega (arith, Tiles-some_leaf a.j a.i (suc n) b rest t.3, t.2, two_pow_pos a.j))
All-Carried P k l lo n (a ∷ b ∷ rest) (y ∷ ys) t u old =
    let ei = same_index k l lo n a b y rest ys t u in
    let ej = same_height k l lo n a b y rest ys t u in
    (
      inr (past k l lo n a b y rest ys t u, subst P (ap₂ addr (sym ei) (sym ej)) old.0),
      All-Carried P a.j y.j a.i n (b ∷ rest) ys t.3
          (subst (λ (s : ℕ). Tiles y.j s n ys) (sym ei) u.3) old.1,
    )

-- A new tree above the leaves has its root among the nodes of the generation.
tree-Has : (n j h : ℕ) → j ≡ suc h → Has j (pbst_inodes n j)
unfolding pbst_inodes
tree-Has n zero h e = absurd (omega arith)
tree-Has n (suc j) h e = inl refl

All-map :
    (P : Addr → Type 0) (Q : Addr → Type 0) (xs : List Addr)
    → ((a : Addr) → P a → Q a)
    → All P xs
    → All Q xs
All-map P Q [] f p = tt
All-map P Q (x ∷ xs) f p = (f x p.0, All-map P Q xs f p.1)

find_latest-here :
    (n : ℕ) (a : Addr) (h : ℕ) → a.i ≡ n → a.j ≡ suc h → find_latest n (a ∷ []) ≡ some a
unfolding find_latest
find_latest-here n a h e ej =
    let here : (a.i == n) ≡ true = (==_iff a.i n).1 e in
    let tree : (a.j == 0) ≡ false = ground arith in rw (here, tree) refl

find_latest-skip :
    (n : ℕ) (a : Addr) (rest : List Addr) → a.i < n → find_latest n (a ∷ rest) ≡ find_latest n rest
unfolding find_latest
find_latest-skip n a rest h = let other : (a.i == n) ≡ false = ground arith in rw other refl

latest-Has :
    (k lo n : ℕ) (xs : List Addr)
    → Tiles k lo n xs
    → All (λ a. a.i ≡ n → (h : ℕ) → a.j ≡ suc h → Has a.j (latest_inodes (find_latest n xs))) xs
latest-Has k lo n [] t = tt
latest-Has k lo n (a ∷ []) t = (
  λ e h ej.
      subst (λ (o : Option Addr). Has a.j (latest_inodes o)) (sym (find_latest-here n a h e ej))
        (unfold latest_inodes in tree-Has a.i a.j h ej),
  tt,
)
latest-Has k lo n (a ∷ b ∷ rest) t =
    let before : a.i < n = Tiles-some_leaf a.j a.i n b rest t.3 in
    let skip = find_latest-skip n a (b ∷ rest) before in
    (
      λ e h ej. absurd (omega arith),
      All-map _ _ (b ∷ rest)
          (λ y has e h ej.
            subst (λ (o : Option Addr). Has y.j (latest_inodes o)) (sym skip) (has e h ej))
          (latest-Has a.j a.i n (b ∷ rest) t.3),
    )

Has-append_right : (h : ℕ) (xs ys : List INode) → Has h ys → Has h (xs ++ ys)
Has-append_right h [] ys m = m
Has-append_right h (x ∷ xs) ys m = inr (Has-append_right h xs ys m)

Has-append_left : (h : ℕ) (xs ys : List INode) → Has h xs → Has h (xs ++ ys)
Has-append_left h (x ∷ xs) ys (inl e) = inl e
Has-append_left h (x ∷ xs) ys (inr m) = inr (Has-append_left h xs ys m)
Has-append_left h [] ys m = absurd m

Has-reverse : (h : ℕ) (xs : List INode) → Has h xs → Has h (reverse xs)
Has-reverse h [] m = absurd m
Has-reverse h (x ∷ xs) (inl e) =
    rw (reverse-append (x ∷ []) xs) (Has-append_right h (reverse xs) (x ∷ []) (inl e))
Has-reverse h (x ∷ xs) (inr m) =
    rw (reverse-append (x ∷ []) xs) (Has-append_left h (reverse xs) (x ∷ []) (Has-reverse h xs m))

pub new_tree-Has :
    (n : ℕ)
    → n < 2 ^ 64
    → All (λ a. a.i ≡ n → (h : ℕ) → a.j ≡ suc h → Has a.j (inodes (new n))) (pbst_roots n)
new_tree-Has n h =
    All-map _ _ (pbst_roots n)
      (λ a has e k ej.
        rw (inodes-eq-falling n) (Has-reverse a.j (falling n) (falls a.j (has e k ej))))
      (latest-Has 64 0 n (pbst_roots n) (pbst_roots-Tiles n h))
  where
    falls : (j : ℕ) → Has j (latest_inodes (find_latest n (pbst_roots n))) → Has j (falling n)
    falls j m = unfold falling in Has-append_right j _ _ m
