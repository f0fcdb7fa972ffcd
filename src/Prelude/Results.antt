-- ===== src/Prelude/Results.antt =====
-- The library's `Result` (src/lib.rs), with `?` as bind, and the panic of `unwrap` and `panic!` as
-- a third outcome.
use mathlib.Core.Path.{◌≡◌, refl, sym}
use mathlib.Core.Option.{Option, none, some}

pub data Result {ℓ} (E A : Type ℓ) : Type ℓ where
  ok : A → Result E A
  err : E → Result E A
  panic : Result E A

infixl 5 ◌>>=◌ ◌>>◌
abbrev pub ◌>>=◌ {ℓ} : {E A B : Type ℓ} → Result E A → (A → Result E B) → Result E B
ok a >>= f = f a
err e >>= f = err e
panic >>= f = panic

abbrev pub ◌>>◌ {ℓ} : {E A B : Type ℓ} → Result E A → Result E B → Result E B
m >> k = m >>= λ _. k

-- `unwrap` of an option.
abbrev pub unwrap {ℓ} : {E A : Type ℓ} → Option A → Result E A
unwrap none = panic
unwrap (some a) = ok a

-- A bind that succeeded had a first part that did, and the rest went on from its value.
pub >>=-eq-ok {ℓ} :
    {E A B : Type ℓ} (first : Result E A) (next : A → Result E B) {result : B}
    → ok result ≡ (first >>= next)
    → (value : A) × (first ≡ ok value) × (next value ≡ ok result)
>>=-eq-ok panic next success = cc
>>=-eq-ok (err problem) next success = cc
>>=-eq-ok (ok value) next success = (value, refl, sym success)
