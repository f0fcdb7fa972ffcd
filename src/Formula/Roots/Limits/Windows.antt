-- ===== src/Formula/Roots/Limits/Windows.antt =====
-- The ranges between two limits that follow each other, and the limits of the nearest entries.
use stratified_hash_tree.Prelude.{
  ℕ, zero, suc, ◌-◌, ◌^◌, ◌≤◌, ◌<◌, ◌≡◌, refl, ap, ◌∙◌, some, List, [], ◌∷◌, ◌++◌, length,
  get_elem?, arith,
}
use stratified_hash_tree.Prelude.Words.{add64, sub64}
use stratified_hash_tree.Formula.Arith.Mod.{pow2e_lem}
use stratified_hash_tree.Formula.Tree.{Addr, RangeInclusive}
use stratified_hash_tree.Formula.Roots.Tiling.{Tiles}
use stratified_hash_tree.Formula.Roots.Spine.{spine_height}
use stratified_hash_tree.Formula.Roots.Limits.{
  falling_powers, lower_windows, lower_limits, upper_windows,
}
use stratified_hash_tree.Formula.Roots.Limits.Nearest.{first_at}
use stratified_hash_tree.Formula.Roots.Limits.Filled.{nth}

abbrev pub one : RangeInclusive
one = record { start = 1; end = 1 }

pub upper_window :
    (xs : List ℕ) (h d : ℕ)
    → length xs ≡ suc h
    → d < h
    → get_elem? (upper_windows xs ++ (one ∷ [])) d
      ≡ some (record { start = add64 (nth xs (suc d)) 1; end = nth xs d })
unfolding upper_windows nth
upper_window [] h d size lt = absurd (omega arith)
upper_window (a ∷ []) h d size lt = absurd (omega arith)
upper_window (a ∷ b ∷ rest) h zero size lt = refl
upper_window (a ∷ b ∷ rest) zero (suc d) size lt = absurd (omega arith)
upper_window (a ∷ b ∷ rest) (suc h) (suc d) size lt =
    upper_window (b ∷ rest) h d (omega arith) (omega arith)

pub upper_top :
    (xs : List ℕ) (h : ℕ)
    → length xs ≡ suc h
    → (get_elem? (upper_windows xs ++ (one ∷ [])) h ≡ some one)
      × (length (upper_windows xs ++ (one ∷ [])) ≡ suc h)
unfolding upper_windows
upper_top [] h size = absurd (omega arith)
upper_top (a ∷ []) zero size = (refl, omega arith)
upper_top (a ∷ []) (suc h) size = absurd (omega arith)
upper_top (a ∷ b ∷ rest) zero size = absurd (omega arith)
upper_top (a ∷ b ∷ rest) (suc h) size =
    let (top, count) = upper_top (b ∷ rest) h (omega arith) in (top, omega (arith, count))

pub lower_window :
    (xs : List ℕ) (h d : ℕ)
    → length xs ≡ suc h
    → d < h
    → get_elem? (lower_windows xs) d
      ≡ some (record { start = nth xs (suc d); end = sub64 (nth xs d) 1 })
unfolding lower_windows nth
lower_window [] h d size lt = absurd (omega arith)
lower_window (a ∷ []) h d size lt = absurd (omega arith)
lower_window (a ∷ b ∷ rest) h zero size lt = refl
lower_window (a ∷ b ∷ rest) zero (suc d) size lt = absurd (omega arith)
lower_window (a ∷ b ∷ rest) (suc h) (suc d) size lt =
    lower_window (b ∷ rest) h d (omega arith) (omega arith)

pub length-lower_windows : (xs : List ℕ) → length (lower_windows xs) ≡ length xs - 1
unfolding lower_windows
length-lower_windows [] = omega arith
length-lower_windows (a ∷ []) = omega arith
length-lower_windows (a ∷ b ∷ rest) = omega (arith, length-lower_windows (b ∷ rest))

length-falling_powers : (h : ℕ) → length (falling_powers h) ≡ suc h
unfolding falling_powers
length-falling_powers zero = refl
length-falling_powers (suc h) = ap suc (length-falling_powers h)

nth-falling_powers : (h d : ℕ) → h < 64 → d ≤ h → nth (falling_powers h) d ≡ 2 ^ (h - d)
unfolding falling_powers nth
nth-falling_powers zero zero room le = pow2e_lem 0 (omega arith)
nth-falling_powers zero (suc d) room le = absurd (omega arith)
nth-falling_powers (suc h) zero room le =
    pow2e_lem (suc h) room ∙ ap (λ (x : ℕ). 2 ^ x) (omega arith)
nth-falling_powers (suc h) (suc d) room le =
    nth-falling_powers h d (omega arith) (omega arith) ∙ ap (λ (x : ℕ). 2 ^ x) (omega arith)

pub length-lower_limits :
    (n : ℕ) (a : Addr) (rest : List Addr)
    → length (lower_limits n (a ∷ rest)) ≡ suc (spine_height (a ∷ rest))
unfolding lower_limits spine_height
length-lower_limits n a [] = length-falling_powers a.j
length-lower_limits n a (b ∷ rest) = ap suc (length-falling_powers a.j)

-- The limits of the nearest entries are the first leaf at each distance.
pub nth-lower_limits :
    (n d : ℕ) (a : Addr) (rest : List Addr)
    → Tiles 64 0 n (a ∷ rest)
    → d ≤ spine_height (a ∷ rest)
    → nth (lower_limits n (a ∷ rest)) d ≡ first_at 0 n (spine_height (a ∷ rest)) d
unfolding lower_limits spine_height first_at nth
nth-lower_limits n zero a [] t le =
    let all : a.j - 0 ≡ a.j = omega arith in
    nth-falling_powers a.j 0 t.0 (omega arith) ∙ ap (λ (x : ℕ). 2 ^ x) all ∙ omega (arith, t.2, t.3)
nth-lower_limits n (suc d) a [] t le = nth-falling_powers a.j (suc d) t.0 le ∙ omega arith
nth-lower_limits n zero a (b ∷ rest) t le = refl
nth-lower_limits n (suc d) a (b ∷ rest) t le =
    let same : a.j - d ≡ suc a.j - suc d = omega arith in
    nth-falling_powers a.j d t.0 (omega arith) ∙ ap (λ (x : ℕ). 2 ^ x) same ∙ omega arith
