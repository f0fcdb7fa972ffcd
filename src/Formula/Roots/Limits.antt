-- ===== src/Formula/Roots/Limits.antt =====
-- src/formula.rs: the ranges of entries at each distance from the latest one, for the farthest and
-- the nearest of them.
pub mod Nearest
pub mod Farthest
pub mod Joined
pub mod Filled
pub mod Folded
pub mod Windows
pub mod Extremes
pub mod Bounds
use mathlib.Core.List.{reverse}
use stratified_hash_tree.Prelude.{
  ℕ, zero, suc, ◌+◌, ◌==◌, ◌≡◌, refl, List, [], ◌∷◌, ◌++◌, Result, ok, panic, ◌>>=◌, if◌then◌else◌,
}
use stratified_hash_tree.Prelude.Words.{add64, sub64}
use stratified_hash_tree.Error.{Error}
use stratified_hash_tree.Formula.Arith.{pow2e, ceil_log2}
use stratified_hash_tree.Formula.Tree.{Addr, RangeInclusive, range}
use stratified_hash_tree.Formula.Roots.{pbst_roots}

-- `(0..=h).map(|d| pow2e(h - d))`.
unfoldable pub falling_powers : ℕ → List ℕ
unfolding pow2e
falling_powers zero = pow2e 0 ∷ []
falling_powers (suc h) = pow2e (suc h) ∷ falling_powers h

-- `windows(2)` of the lower limits.
unfoldable pub lower_windows : List ℕ → List RangeInclusive
lower_windows [] = []
lower_windows (a ∷ []) = []
lower_windows (a ∷ b ∷ rest) = record { start = b; end = sub64 a 1 } ∷ lower_windows (b ∷ rest)

unfoldable pub lower_limits : ℕ → List Addr → List ℕ
unfolding falling_powers
lower_limits n [] = []
lower_limits n (root ∷ []) = falling_powers root.j
lower_limits n (root ∷ next ∷ rest) = n ∷ falling_powers root.j

-- `offset + (n + 1 - pow2e(d))` for the distances from `d` on, so many.
unfoldable pub upper_steps : ℕ → ℕ → ℕ → ℕ → List ℕ
unfolding pow2e
upper_steps zero d offset n = []
upper_steps (suc count) d offset n =
    add64 offset (sub64 (add64 n 1) (pow2e d)) ∷ upper_steps count (suc d) offset n

unfoldable pub upper_limits : Addr → List ℕ
unfolding upper_steps
upper_limits root = upper_steps (suc root.j) 0 (sub64 (range root.i root.j).start 1) (pow2e root.j)

-- The first entry that is not zero counts. There must be a place for each.
unfoldable pub fill : List ℕ → List ℕ → Result Error (List ℕ)
fill acc [] = ok acc
fill [] (u ∷ upper) = panic
fill (a ∷ acc) (u ∷ upper) = do rest ← fill acc upper; ok ((if a == 0 then u else a) ∷ rest)

-- The roots from the last one on; all but the rightmost are one step further.
unfoldable pub fill_left : List ℕ → List Addr → Result Error (List ℕ)
unfolding fill upper_limits
fill_left acc [] = ok acc
fill_left acc (root ∷ rest) = do filled ← fill acc (0 ∷ upper_limits root); fill_left filled rest

unfoldable pub fill_all : List ℕ → List Addr → Result Error (List ℕ)
unfolding fill_left
fill_all acc [] = ok acc
fill_all acc (root ∷ rest) = do filled ← fill acc (upper_limits root); fill_left filled rest

-- `windows(2)` of the upper limits.
unfoldable pub upper_windows : List ℕ → List RangeInclusive
upper_windows [] = []
upper_windows (a ∷ []) = []
upper_windows (a ∷ b ∷ rest) = record { start = add64 b 1; end = a } ∷ upper_windows (b ∷ rest)

unfoldable pub blank : ℕ → List ℕ
blank zero = []
blank (suc count) = 0 ∷ blank count

-- The upper and the lower limits.
unfoldable pub entry_access_distance_limits :
    ℕ → Result Error (List RangeInclusive × List RangeInclusive)
unfolding lower_limits lower_windows fill_all upper_windows blank
entry_access_distance_limits n = if n == 0 then ok ([], []) else (do
  let roots = pbst_roots n
  let lower = record { start = n; end = n } ∷ lower_windows (lower_limits n roots)
  upper ← fill_all (blank (suc (ceil_log2 n))) (reverse roots)
  ok (upper_windows upper ++ (record { start = 1; end = 1 } ∷ []), lower))
