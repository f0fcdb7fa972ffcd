-- ===== src/Formula/Roots/Limits/Folded.antt =====
-- The fold over the roots leaves the last leaf of every distance.
use mathlib.Core.List.{reverse, reverse-cons}
use stratified_hash_tree.Prelude.{
  ℕ, zero, suc, ◌%◌, ◌^◌, ◌≤◌, ◌<◌, ◌==◌, ◌≡◌, refl, sym, ap, ◌∙◌, inl, inr, Bool-cases, List, [],
  ◌∷◌, ◌++◌, Result, ok, err, panic, ◌>>=◌, length, if◌then◌else◌, arith, leb, leb→le,
}
use stratified_hash_tree.Error.{Error}
use stratified_hash_tree.Formula.Tree.{Addr}
use stratified_hash_tree.Formula.Roots.Tiling.{Tiles}
use stratified_hash_tree.Formula.Roots.Spine.{Tiles-bounds, spine_height, rest_multiple}
use stratified_hash_tree.Formula.Roots.Access.{root-IsAligned, spine_height-le}
use stratified_hash_tree.Formula.Roots.Limits.{upper_limits, fill, fill_left, fill_all, blank}
use stratified_hash_tree.Formula.Roots.Limits.Farthest.{last_at, last_one, last_right, last_left}
use stratified_hash_tree.Formula.Roots.Limits.Joined.{last_at-Reaches}
use stratified_hash_tree.Formula.Roots.Limits.Filled.{
  nth, length-blank, nth-blank, fill-Fills, nth-past, length-upper_limits, nth-upper_limits,
}

bind_assoc :
    (r : Result Error (List ℕ)) (f g : List ℕ → Result Error (List ℕ))
    → ((r >>= f) >>= g) ≡ (r >>= λ x. (f x >>= g))
bind_assoc (ok x) f g = refl
bind_assoc (err e) f g = refl
bind_assoc panic f g = refl

bind_same :
    (r : Result Error (List ℕ)) (f g : List ℕ → Result Error (List ℕ))
    → ((x : List ℕ) → f x ≡ g x)
    → (r >>= f) ≡ (r >>= g)
bind_same (ok x) f g same = same x
bind_same (err e) f g same = refl
bind_same panic f g same = refl

-- The last round of the fold.
abbrev last_round : Addr → List ℕ → Result Error (List ℕ)
last_round a filled = fill filled (0 ∷ upper_limits a)

fill_left-one : (acc : List ℕ) (a : Addr) → fill_left acc (a ∷ []) ≡ last_round a acc
unfolding fill_left
fill_left-one acc a = back (fill acc (0 ∷ upper_limits a))
  where
    back : (r : Result Error (List ℕ)) → (r >>= λ x. ok x) ≡ r
    back (ok x) = refl
    back (err e) = refl
    back panic = refl

fill_left-append :
    (acc : List ℕ) (xs : List Addr) (a : Addr)
    → fill_left acc (xs ++ (a ∷ [])) ≡ (fill_left acc xs >>= last_round a)
unfolding fill_left
fill_left-append acc [] a = fill_left-one acc a
fill_left-append acc (x ∷ xs) a =
    bind_same (fill acc (0 ∷ upper_limits x)) (λ f. fill_left f (xs ++ (a ∷ [])))
      (λ f. (fill_left f xs >>= last_round a)) (λ f. fill_left-append f xs a)
    ∙ sym (bind_assoc (fill acc (0 ∷ upper_limits x)) (λ f. fill_left f xs) (last_round a))

fill_all-append :
    (acc : List ℕ) (xs : List Addr) (b a : Addr)
    → fill_all acc ((xs ++ (b ∷ [])) ++ (a ∷ [])) ≡ (fill_all acc (xs ++ (b ∷ [])) >>= last_round a)
unfolding fill_all
fill_all-append acc [] b a =
    bind_same (fill acc (upper_limits b)) (λ f. fill_left f (a ∷ []))
      (λ f. (fill_left f [] >>= last_round a)) (λ f. fill_left-append f [] a)
    ∙ sym (bind_assoc (fill acc (upper_limits b)) (λ f. fill_left f []) (last_round a))
fill_all-append acc (x ∷ xs) b a =
    bind_same (fill acc (upper_limits x)) (λ f. fill_left f ((xs ++ (b ∷ [])) ++ (a ∷ [])))
      (λ f. (fill_left f (xs ++ (b ∷ [])) >>= last_round a))
      (λ f. fill_left-append f (xs ++ (b ∷ [])) a)
    ∙ sym
        (bind_assoc (fill acc (upper_limits x)) (λ f. fill_left f (xs ++ (b ∷ []))) (last_round a))

-- The leftmost root comes last in the fold.
fill_reverse :
    (acc : List ℕ) (a b : Addr) (rest : List Addr)
    → fill_all acc (reverse (a ∷ b ∷ rest)) ≡ (fill_all acc (reverse (b ∷ rest)) >>= last_round a)
fill_reverse acc a b rest =
    ap (fill_all acc)
      (reverse-cons a (b ∷ rest) ∙ ap (λ (l : List Addr). l ++ (a ∷ [])) (reverse-cons b rest))
    ∙ fill_all-append acc (reverse rest) b a
    ∙ ap (λ (l : List Addr). (fill_all acc l >>= last_round a)) (sym (reverse-cons b rest))

fill_single :
    (acc : List ℕ) (a : Addr) → fill_all acc (reverse (a ∷ [])) ≡ fill acc (upper_limits a)
unfolding fill_all fill_left
fill_single acc a = back (fill acc (upper_limits a))
  where
    back : (r : Result Error (List ℕ)) → (r >>= λ x. ok x) ≡ r
    back (ok x) = refl
    back (err e) = refl
    back panic = refl

-- The fold over the roots after leaf `lo` has the last leaf of each distance up to the height of
-- their joining node, and nothing beyond it.
pub record Folded (size lo : ℕ) (roots : List Addr) : Type 0 where
  pub filled : List ℕ
  pub succeeds : fill_all (blank size) (reverse roots) ≡ ok filled
  pub size_kept : length filled ≡ size
  pub within : (d : ℕ) → d ≤ spine_height roots → nth filled d ≡ last_at lo roots d
  pub past : (d : ℕ) → spine_height roots < d → nth filled d ≡ 0

module _ (n : ℕ) (room : n < 2 ^ 64) where
  single-Folded :
      (size bound lo : ℕ) (a : Addr)
      → bound ≤ 64
      → Tiles bound lo n (a ∷ [])
      → a.j < size
      → Folded size lo (a ∷ [])
  unfolding spine_height
  single-Folded size bound lo a hb t fits =
      let f =
        fill-Fills (blank size) (upper_limits a)
          (omega (arith, length-upper_limits a, length-blank size)) in
      let first : (d : ℕ) → nth f.filled d ≡ nth (upper_limits a) d =
        λ d. f.each d ∙ rw (nth-blank size d) refl in
      record {
        filled = f.filled;
        succeeds = fill_single (blank size) a ∙ f.succeeds;
        size_kept = f.size ∙ length-blank size;
        within = λ d le.
            (first d
              ∙ nth-upper_limits lo d a (omega (arith, t.2, t.3, room)) (omega (arith, t.0, hb))
                  (root-IsAligned bound lo n a [] t) t.2 le
              ∙ sym (last_one lo d a));
        past = λ d lt.
            (first d ∙ nth-past (upper_limits a) d (omega (arith, length-upper_limits a, lt)));
      }

  pub roots-Folded :
      (size bound lo : ℕ) (a : Addr) (rest : List Addr)
      → bound ≤ 64
      → lo % 2 ^ bound ≡ 0
      → Tiles bound lo n (a ∷ rest)
      → spine_height (a ∷ rest) < size
      → Folded size lo (a ∷ rest)
  unfolding spine_height nth
  roots-Folded size bound lo a [] hb mult t fits = single-Folded size bound lo a hb t fits
  roots-Folded size bound lo a (b ∷ rest) hb mult t fits =
      let low = spine_height-le a b rest n a.j t.3 (omega arith) in
      let ih =
        roots-Folded size a.j a.i b rest (omega (arith, t.0, hb))
          (rest_multiple bound lo n a (b ∷ rest) t) t.3 (omega (arith, low, fits)) in
      let f =
        fill-Fills ih.filled (0 ∷ upper_limits a)
          (omega (arith, length-upper_limits a, ih.size_kept, fits)) in
      let later : (d : ℕ)
          → spine_height (b ∷ rest) < d
          → nth f.filled d ≡ nth (0 ∷ upper_limits a) d =
        λ d lt. f.each d ∙ rw (ih.past d lt) refl in
      record {
        filled = f.filled;
        succeeds =
            fill_reverse (blank size) a b rest
            ∙ ap (λ (r : Result Error (List ℕ)). (r >>= last_round a)) ih.succeeds
            ∙ f.succeeds;
        size_kept = f.size ∙ ih.size_kept;
        within = λ d le. elim (Bool-cases (leb d (spine_height (b ∷ rest)))) [
          | inl l ↦
              f.each d
              ∙ kept (nth ih.filled d) (last_at a.i (b ∷ rest) d) _ (ih.within d (leb→le _ _ l)) (
                  omega (
                    arith,
                    (last_at-Reaches (spine_height (b ∷ rest)) a.j a.i n d b rest room
                        (rest_multiple bound lo n a (b ∷ rest) t) t.3 (omega arith)
                        (leb→le _ _ l)).above,
                  ))
              ∙ sym (last_right lo d a b rest (leb→le _ _ l))
          | inr r ↦ later d (ground arith) ∙ shifted lo d a b rest t (ground arith) le
        ];
        past = λ d lt.
            (later d (omega (arith, low, lt))
              ∙ nth-past (0 ∷ upper_limits a) d (omega (arith, length-upper_limits a, lt)));
      }
    where
      kept : (x y u : ℕ) → x ≡ y → 0 < y → (if x == 0 then u else x) ≡ y
      kept x y u e pos = ground arith

      shifted :
          (lo d : ℕ) (a b : Addr) (rest : List Addr)
          → Tiles bound lo n (a ∷ b ∷ rest)
          → spine_height (b ∷ rest) < d
          → d ≤ suc a.j
          → nth (0 ∷ upper_limits a) d ≡ last_at lo (a ∷ b ∷ rest) d
      shifted lo zero a b rest t lt le = absurd (omega arith)
      shifted lo (suc d) a b rest t lt le =
          nth-upper_limits lo d a (omega (arith, t.2, Tiles-bounds a.j a.i n (b ∷ rest) t.3, room))
            (omega (arith, t.0, hb)) (root-IsAligned bound lo n a (b ∷ rest) t) t.2 (omega arith)
          ∙ sym (last_left lo d a b rest (omega arith))
