-- ===== src/Storage/Kvs/Lawful.antt =====
-- `MemKVS` is a lawful storage: the entry of number `k` stands under the key `k`.
use mathlib.Core.Path.{subst}
use native.Mathlib.Decide.{dec_le}
use stratified_hash_tree.Prelude.{
  ℕ, suc, ◌+◌, ◌^◌, ◌≤◌, ◌<◌, ◌≡◌, refl, not, sym, ap, ◌∙◌, none, some, Bool, true, false, List, [],
  ◌∷◌, ◌++◌, All, arith, ok, ◌==◌, length, length-append,
}
use stratified_hash_tree.Prelude.Map.{
  lookup, insert, lookup-insert, Unique, length-insert, insert-Unique,
}
use stratified_hash_tree.Prelude.Words.{add64, add64_of_lt}
use stratified_hash_tree.Entry.{Entry}
use stratified_hash_tree.Storage.Laws.{position_of, newest, pile, length-pile, Scans, Lawful}
use stratified_hash_tree.Storage.Kvs.Ahead.{Ahead, scan-visit}
use stratified_hash_tree.Storage.Kvs.Cut.{Cut, remove_from-Cut}
use stratified_hash_tree.Storage.Kvs.{Kvs, kvs_storage, last, put, reader, read, truncate}

-- The entries stand at their own positions, which count down to 1.
abbrev pub Filed : Kvs → List Entry → Type 0
Filed st [] = Unit
Filed st (e ∷ es) =
    (position_of e ≡ suc (length es)) × (lookup (suc (length es)) st ≡ some e) × Filed st es

pub record KvsHolds (st : Kvs) (es : List Entry) (p : ℕ) : Type 0 where
  pub next_position : p ≡ suc (length es)
  pub in_range : p < 2 ^ 63
  pub count : length st ≡ length es
  pub unique : Unique st
  pub filed : Filed st es
  pub nothing_later : (i : ℕ) → length es < i → lookup i st ≡ none

-- A state that agrees below a bound still has the entries below it.
Filed-agree :
    (st st' : Kvs) (bound : ℕ) (es : List Entry)
    → length es < bound
    → ((i : ℕ) → i < bound → lookup i st' ≡ lookup i st)
    → Filed st es
    → Filed st' es
Filed-agree st st' bound [] small agree filed = tt
Filed-agree st st' bound (e ∷ es) small agree filed = (
  filed.0,
  agree (suc (length es)) small ∙ filed.1,
  Filed-agree st st' bound es (omega arith) agree filed.2,
)

put-Filed :
    (st : Kvs) (es : List Entry) (p : ℕ) (e : Entry)
    → KvsHolds st es p
    → position_of e ≡ p
    → Filed (insert p e st) (e ∷ es)
put-Filed st es p e h at = (
  at ∙ h.next_position,
  lookup-insert p (suc (length es)) e st
      ∙ (let here : (p == suc (length es)) ≡ true = ground (arith, h.next_position) in
          rw here refl),
  Filed-agree st (insert p e st) p es (omega (arith, h.next_position))
      (λ i lt.
        lookup-insert p i e st ∙ (let other : (p == i) ≡ false = ground arith in rw other refl))
      h.filed,
)

pub put-KvsHolds :
    (st : Kvs) (es : List Entry) (p : ℕ) (e : Entry)
    → KvsHolds st es p
    → position_of e ≡ p
    → suc p < 2 ^ 63
    → KvsHolds (insert p e st) (e ∷ es) (suc p)
put-KvsHolds st es p e h at room = record {
  next_position = ap suc h.next_position;
  in_range = room;
  count = length-insert p e st absent ∙ ap suc h.count;
  unique = insert-Unique p e st h.unique;
  filed = put-Filed st es p e h at;
  nothing_later = λ i lt.
      lookup-insert p i e st
      ∙ (let other : (p == i) ≡ false = ground (arith, h.next_position) in
          rw other (h.nothing_later i (omega arith)));
}
  where
    absent : lookup p st ≡ none
    absent = h.nothing_later p (omega (arith, h.next_position))

pub put_step :
    (st : Kvs) (es : List Entry) (p : ℕ) (e : Entry)
    → KvsHolds st es p
    → suc p < 2 ^ 63
    → put st p e ≡ (ok (suc p), insert p e st)
unfolding put
put_step st es p e h room =
    let count : length (insert p e st) ≡ p =
      length-insert p e st (h.nothing_later p (omega (arith, h.next_position)))
      ∙ ap suc h.count
      ∙ sym h.next_position in
    let next : add64 (length (insert p e st)) 1 ≡ suc p =
      ap (λ (n : ℕ). add64 n 1) count ∙ add64_of_lt p 1 (omega arith) ∙ omega arith in
    ap (λ (n : ℕ). (ok n, insert p e st)) next

pub read-Filed :
    (st : Kvs) (es : List Entry) → Filed st es → All (λ e. read st (position_of e) ≡ ok e) es
unfolding read
read-Filed st [] filed = tt
read-Filed st (e ∷ es) filed = (
  (let found : lookup (position_of e) st ≡ some e = ap (λ (i : ℕ). lookup i st) filed.0 ∙ filed.1 in
      rw (read, found) refl),
  read-Filed st es filed.2,
)

pub last_step :
    (st : Kvs) (es : List Entry) (p : ℕ) → KvsHolds st es p → last st ≡ (ok (newest es, p), st)
unfolding last
last_step st [] p h =
    let count : (length st == 0) ≡ true = ground (arith, h.count) in
    rw (last, count) (ap (λ (n : ℕ). (ok (none, n), st)) (sym h.next_position))
last_step st (e ∷ es) p h =
    let count : (length st == 0) ≡ false = ground (arith, h.count) in
    let found : lookup (length st) st ≡ some e = ap (λ (n : ℕ). lookup n st) h.count ∙ h.filed.1 in
    let next : add64 (length st) 1 ≡ p =
      add64_of_lt (length st) 1 (omega (arith, h.count, h.next_position, h.in_range))
      ∙ omega (arith, h.count, h.next_position) in
    rw (last, count, found, next) refl

Filed-present :
    (st : Kvs) (es : List Entry)
    → Filed st es
    → (i : ℕ) → 0 < i
    → i ≤ length es
    → (e : Entry) × (lookup i st ≡ some e)
Filed-present st [] filed i pos le = absurd (omega arith)
Filed-present st (e ∷ es) filed i pos le = elim (dec_le i (length es)) [
  | yes before ↦ Filed-present st es filed.2 i pos before
  | no last ↦
      let here : i ≡ suc (length es) = omega arith in
      (e, ap (λ (k : ℕ). lookup k st) here ∙ filed.1)
]

Filed-append : (st : Kvs) (xs es : List Entry) → Filed st (xs ++ es) → Filed st es
Filed-append st [] es filed = filed
Filed-append st (x ∷ xs) es filed = Filed-append st xs es filed.2

Filed-pile : (st : Kvs) (later es : List Entry) → Filed st (pile later es) → Filed st es
Filed-pile st [] es filed = filed
Filed-pile st (e ∷ later) es filed = (Filed-pile st later (e ∷ es) filed).2

-- The later entries of a stack stand behind the earlier ones.
Filed-Ahead :
    (st : Kvs) (later es : List Entry)
    → Filed st (pile later es)
    → ((i : ℕ) → length (pile later es) < i → lookup i st ≡ none)
    → Ahead st (suc (length es)) later
Filed-Ahead st [] es filed absent = absent (suc (length es)) (omega arith)
Filed-Ahead st (e ∷ later) es filed absent =
    ((Filed-pile st later (e ∷ es) filed).1, Filed-Ahead st later (e ∷ es) filed absent)

pub scan-KvsHolds :
    (st : Kvs) (es : List Entry) (p : ℕ) → KvsHolds st es p → Scans kvs_storage st es
scan-KvsHolds st es p h later earlier e whole X C count callback c =
    let filed = subst (Filed st) whole h.filed in
    let here : position_of e ≡ suc (length earlier) = (Filed-pile st later (e ∷ earlier) filed).0 in
    scan-visit st (position_of e) count (e ∷ later) callback c
      (omega (
        arith,
        here,
        ap length whole,
        length-pile later (e ∷ earlier),
        h.next_position,
        h.in_range,
      ))
      (subst (λ (k : ℕ). Ahead st k (e ∷ later)) (sym here)
        (Filed-Ahead st (e ∷ later) earlier filed
          (λ i lt. h.nothing_later i (omega (arith, ap length whole)))))

truncate_step :
    (st : Kvs) (p d : ℕ)
    → (cut : Cut (length st) p (suc d) st) → truncate st p ≡ (ok true, cut.rest)
unfolding truncate
truncate_step st p d cut =
    let moved : (p + suc d == p) ≡ false = ground arith in
    rw (truncate, cut.removes) (ap (λ (b : Bool). (ok (not b), cut.rest)) moved)

-- From a state that holds a stack of entries, `truncate` to the position of one of them returns
-- true and leaves a state that holds those below it, the next position being that one.
pub truncate-KvsHolds :
    (st : Kvs) (dropped es : List Entry) (e : Entry) (p : ℕ)
    → KvsHolds st (dropped ++ (e ∷ es)) p
    → (st' : Kvs) × (truncate st (position_of e) ≡ (ok true, st')) × KvsHolds st' es (position_of e)
truncate-KvsHolds st dropped es e p h = (
  cut.rest,
  truncate_step st (position_of e) (length dropped) cut,
  record {
    next_position = filed.0;
    in_range = omega (arith, filed.0, total, h.next_position, h.in_range);
    count = omega (arith, cut.count, h.count, total);
    unique = cut.unique;
    filed = Filed-agree st cut.rest (position_of e) es (omega (arith, filed.0)) cut.below filed.2;
    nothing_later = λ i lt. cut.above i (omega (arith, filed.0));
  },
)
  where
    filed : Filed st (e ∷ es)
    filed = Filed-append st dropped (e ∷ es) h.filed

    total : length (dropped ++ (e ∷ es)) ≡ length dropped + suc (length es)
    total = length-append dropped (e ∷ es)

    cut : Cut (length st) (position_of e) (suc (length dropped)) st
    cut =
        remove_from-Cut (length st) (suc (length dropped)) (position_of e) st
          (omega (arith, h.count, total))
          (omega (arith, filed.0, total, h.next_position, h.in_range)) h.unique
          (λ i le lt.
            Filed-present st (dropped ++ (e ∷ es)) h.filed i (omega (arith, filed.0))
              (omega (arith, filed.0, total)))
          (λ i le. h.nothing_later i (omega (arith, filed.0, total)))

pub reader_step : (st : Kvs) → reader st ≡ ok st
unfolding reader
reader_step st = refl

-- An entry fits at its own position, while fewer than 2 ^ 63 are stored.
abbrev pub KvsFits : ℕ → Entry → Type 0
KvsFits p e = (position_of e ≡ p) × (suc p < 2 ^ 63)

abbrev pub kvs-Lawful : Lawful kvs_storage
kvs-Lawful = record {
  Holds = KvsHolds;
  Fits = KvsFits;
  next = λ p e. suc p;
  put_lem =
      λ st es p e h f. (insert p e st, put_step st es p e h f.1, put-KvsHolds st es p e h f.0 f.1);
  read_lem = λ st es p h. (st, reader_step st, read-Filed st es h.filed, scan-KvsHolds st es p h);
  last_lem = λ st es p h. (st, last_step st es p h, h);
  truncate_lem = truncate-KvsHolds;
}

-- The empty storage.
pub empty-KvsHolds : kvs-Lawful.Holds [] [] 1
unfolding lookup
empty-KvsHolds = record {
  next_position = refl;
  in_range = omega arith;
  count = refl;
  unique = tt;
  filed = tt;
  nothing_later = λ i lt. refl;
}
