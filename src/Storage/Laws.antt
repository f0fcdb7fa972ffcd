-- ===== src/Storage/Laws.antt =====
-- What the tree relies on in a storage: it is a stack of entries, each read at its own
-- position.
use stratified_hash_tree.Prelude.{
  ℕ, suc, ◌+◌, ◌≡◌, refl, Option, none, some, true, List, [], ◌∷◌, ◌++◌, All, length, take, arith,
  Result, ok, err, panic,
}
use stratified_hash_tree.Entry.{Entry}
use stratified_hash_tree.Storage.{Storage, Visitor, called}
use stratified_hash_tree.Error.{Error}

abbrev pub position_of : Entry → ℕ
position_of e = e.enode.meta.address.position

-- The newest entry of a stack.
abbrev pub newest : List Entry → Option Entry
newest [] = none
newest (e ∷ es) = some e

-- Entries put on a stack one after the other.
abbrev pub pile : List Entry → List Entry → List Entry
pile [] es = es
pile (e ∷ later) es = pile later (e ∷ es)

pub length-pile : (later es : List Entry) → length (pile later es) ≡ length later + length es
length-pile [] es = omega arith
length-pile (e ∷ later) es = omega (arith, length-pile later (e ∷ es))

-- What a callback makes of a list of entries, and how many it was given, after `read` before.
unfoldable pub visit : {X C : Type 0} → ℕ → List Entry → Visitor X C → C → Result Error ℕ × C
visit read [] callback c = (ok read, c)
visit read (e ∷ es) callback c = called (λ c'. visit (suc read) es callback c') (callback e c)

-- What follows a call of the callback matters only where it returns.
pub called_agree :
    {X A C : Type 0} (next next' : C → Result Error A × C) (result : Result X Unit × C)
    → ((c : C) → next c ≡ next' c)
    → called next result ≡ called next' result
called_agree next next' (ok done, c) agree = agree c
called_agree next next' (err e, c) agree = refl
called_agree next next' (panic, c) agree = refl

-- From the position of an entry of the stack on, `scan` gives the callback this entry and the later
-- ones, the older first, as many as it is asked for.
abbrev pub Scans : (S : Storage) → S.Reader → List Entry → Type 1
Scans S r es =
    (later earlier : List Entry) (e : Entry)
    → es ≡ pile (e ∷ later) earlier
    → (X C : Type 0) (count : ℕ) (callback : Visitor X C) (c : C)
    → S.scan r (position_of e) count callback c ≡ visit 0 (take count (e ∷ later)) callback c

-- `Holds st es p`: the state has the entries `es`, the newest first, and the next goes to `p`.
-- `Fits p e`: the entry can be stored at `p`, with room behind it. `next p e`: the position after
-- it.
pub record Lawful (S : Storage) : Type 1 where
  pub Holds : S.State → List Entry → ℕ → Type 0
  pub Fits : ℕ → Entry → Type 0
  pub next : ℕ → Entry → ℕ
  pub put_lem :
      (st : S.State) (es : List Entry) (p : ℕ) (e : Entry)
      → Holds st es p
      → Fits p e
      → (st' : S.State) × (S.put st p e ≡ (ok (next p e), st')) × Holds st' (e ∷ es) (next p e)
  pub read_lem :
      (st : S.State) (es : List Entry) (p : ℕ)
      → Holds st es p
      → (r : S.Reader) × (S.reader st ≡ ok r)
        × All (λ e. S.read r (position_of e) ≡ ok e) es
        × Scans S r es
  pub last_lem :
      (st : S.State) (es : List Entry) (p : ℕ)
      → Holds st es p
      → (st' : S.State) × (S.last st ≡ (ok (newest es, p), st')) × Holds st' es p
  pub truncate_lem :
      (st : S.State) (dropped es : List Entry) (e : Entry) (p : ℕ)
      → Holds st (dropped ++ (e ∷ es)) p
      → (st' : S.State) × (S.truncate st (position_of e) ≡ (ok true, st'))
        × Holds st' es (position_of e)
