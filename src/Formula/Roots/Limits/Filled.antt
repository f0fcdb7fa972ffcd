-- ===== src/Formula/Roots/Limits/Filled.antt =====
-- What one round of the fold over the roots does: the limits of a root, and where they go.
use stratified_hash_tree.Prelude.{
  ℕ, zero, suc, ◌+◌, ◌-◌, ◌^◌, ◌≤◌, ◌<◌, ◌==◌, ◌≡◌, refl, ap, ◌∙◌, List, [], ◌∷◌, Result, ok,
  length, if◌then◌else◌, arith,
}
use stratified_hash_tree.Prelude.Words.{
  add64, sub64, add64_of_lt, sub64_of_le, two_pow_pos, two_pow_le,
}
use stratified_hash_tree.Error.{Error}
use stratified_hash_tree.Formula.Arith.{pow2e}
use stratified_hash_tree.Formula.Arith.Mod.{pow2e_lem}
use stratified_hash_tree.Formula.Tree.{Addr, RangeInclusive, range}
use stratified_hash_tree.Formula.Tree.Nodes.{IsAligned, range_lem}
use stratified_hash_tree.Formula.Roots.Limits.{upper_steps, upper_limits, fill, blank}

-- The number at a place of a list, 0 past its end.
unfoldable pub nth : List ℕ → ℕ → ℕ
nth [] d = 0
nth (x ∷ xs) zero = x
nth (x ∷ xs) (suc d) = nth xs d

pub length-blank : (count : ℕ) → length (blank count) ≡ count
unfolding blank
length-blank zero = refl
length-blank (suc count) = ap suc (length-blank count)

pub nth-blank : (count d : ℕ) → nth (blank count) d ≡ 0
unfolding blank nth
nth-blank zero d = refl
nth-blank (suc count) zero = refl
nth-blank (suc count) (suc d) = nth-blank count d

-- The operation succeeds, keeps the first number of each place, and the length.
pub record Fills (acc upper : List ℕ) (result : Result Error (List ℕ)) : Type 0 where
  pub filled : List ℕ
  pub succeeds : result ≡ ok filled
  pub size : length filled ≡ length acc
  pub each : (d : ℕ) → nth filled d ≡ (if nth acc d == 0 then nth upper d else nth acc d)

fill-cons :
    (a u : ℕ) (acc upper rest : List ℕ)
    → fill acc upper ≡ ok rest
    → fill (a ∷ acc) (u ∷ upper) ≡ ok ((if a == 0 then u else a) ∷ rest)
unfolding fill
fill-cons a u acc upper rest e = rw (fill, e) refl

fill_none : (n : ℕ) → n ≡ (if n == 0 then 0 else n)
fill_none n = ground arith

pub fill-Fills : (acc upper : List ℕ) → length upper ≤ length acc → Fills acc upper (fill acc upper)
unfolding fill nth
fill-Fills acc [] le = record {
  filled = acc;
  succeeds = refl;
  size = refl;
  each = λ d. fill_none (nth acc d);
}
fill-Fills [] (u ∷ upper) le = absurd (omega arith)
fill-Fills (a ∷ acc) (u ∷ upper) le =
    let rest = fill-Fills acc upper (omega arith) in
    record {
      filled = (if a == 0 then u else a) ∷ rest.filled;
      succeeds = fill-cons a u acc upper rest.filled rest.succeeds;
      size = ap suc rest.size;
      each = places a u acc upper rest.filled rest.each;
    }
  where
    places :
        (a u : ℕ) (acc upper filled : List ℕ)
        → ((d : ℕ) → nth filled d ≡ (if nth acc d == 0 then nth upper d else nth acc d))
        → (d : ℕ)
        → nth ((if a == 0 then u else a) ∷ filled) d
          ≡ (if nth (a ∷ acc) d == 0 then nth (u ∷ upper) d else nth (a ∷ acc) d)
    places a u acc upper filled each zero = refl
    places a u acc upper filled each (suc d) = each d

-- The limits of one tree.
step_lem :
    (lo j d : ℕ)
    → lo + 2 ^ j < 2 ^ 64
    → j < 64
    → d ≤ j
    → add64 lo (sub64 (add64 (2 ^ j) 1) (pow2e d)) ≡ lo + 2 ^ j + 1 - 2 ^ d
step_lem lo j d room hj le =
    let small = two_pow_le {a = d} {b = j} le in
    let pos = two_pow_pos d in
    let top = two_pow_le {a = j} {b = 63} (omega arith) in
    rw
      (
        pow2e_lem d (omega arith),
        add64_of_lt (2 ^ j) 1 (omega arith),
        sub64_of_le (2 ^ j + 1) (2 ^ d) (omega arith) (omega arith),
        add64_of_lt lo (2 ^ j + 1 - 2 ^ d) (omega arith),
      )
      (omega arith)

length-upper_steps : (count d offset n : ℕ) → length (upper_steps count d offset n) ≡ count
unfolding upper_steps
length-upper_steps zero d offset n = refl
length-upper_steps (suc count) d offset n = ap suc (length-upper_steps count (suc d) offset n)

nth-upper_steps :
    (lo j count from d : ℕ)
    → lo + 2 ^ j < 2 ^ 64
    → j < 64
    → from + count ≤ suc j
    → d < count
    → nth (upper_steps count from lo (2 ^ j)) d ≡ lo + 2 ^ j + 1 - 2 ^ (from + d)
unfolding upper_steps nth
nth-upper_steps lo j zero from d room hj fits lt = absurd (omega arith)
nth-upper_steps lo j (suc count) from zero room hj fits lt =
    step_lem lo j from room hj (omega arith) ∙ ap (λ (x : ℕ). lo + 2 ^ j + 1 - 2 ^ x) (omega arith)
nth-upper_steps lo j (suc count) from (suc d) room hj fits lt =
    nth-upper_steps lo j count (suc from) d room hj (omega arith) (omega arith)
    ∙ ap (λ (x : ℕ). lo + 2 ^ j + 1 - 2 ^ x) (omega arith)

pub nth-past : (xs : List ℕ) (d : ℕ) → length xs ≤ d → nth xs d ≡ 0
unfolding nth
nth-past [] d le = refl
nth-past (x ∷ xs) zero le = absurd (omega arith)
nth-past (x ∷ xs) (suc d) le = nth-past xs d (omega arith)

pub length-upper_limits : (root : Addr) → length (upper_limits root) ≡ suc root.j
unfolding upper_limits
length-upper_limits root = length-upper_steps _ _ _ _

pub nth-upper_limits :
    (lo d : ℕ) (a : Addr)
    → lo + 2 ^ a.j < 2 ^ 64
    → a.j < 64
    → IsAligned lo a.i a.j
    → a.i ≡ lo + 2 ^ a.j
    → d ≤ a.j
    → nth (upper_limits a) d ≡ lo + 2 ^ a.j + 1 - 2 ^ d
unfolding upper_limits
nth-upper_limits lo d a room hj aligned e le =
    let leaves = range_lem lo a.i a.j (omega arith) (omega arith) aligned in
    let offset : sub64 (range a.i a.j).start 1 ≡ lo =
      ap (λ (r : RangeInclusive). sub64 r.start 1) leaves
      ∙ sub64_of_le (lo + 1) 1 (omega arith) (omega (arith, two_pow_pos a.j))
      ∙ omega arith in
    rw (offset, pow2e_lem a.j hj)
      (nth-upper_steps lo a.j (suc a.j) 0 d room hj (omega arith) (omega arith)
        ∙ ap (λ (x : ℕ). lo + 2 ^ a.j + 1 - 2 ^ x) (omega arith))
