-- ===== src/Storage.antt =====
-- src/storage.rs: what the tree asks of a storage. A reader is a cursor that goes to a position
-- before each read, so its own position is not part of the interface.
pub mod Laws
pub mod Kvs
pub mod Device
pub mod Block
pub mod Rocks
use stratified_hash_tree.Prelude.{ℕ, Option, Bool, Result, ok, err, panic}
use stratified_hash_tree.Error.{Error, callback}
use stratified_hash_tree.Entry.{Entry}

-- The callback of `scan`: it is given the entries one by one, may stop with an error of its own,
-- and keeps a state.
abbrev pub Visitor : Type 0 → Type 0 → Type 0
Visitor X C = Entry → C → Result X Unit × C

-- `callback(data).map_err(...)?`: go on once the callback has returned.
abbrev pub called :
    {X A C : Type 0} → (C → Result Error A × C) → Result X Unit × C → Result Error A × C
called next (ok done, c) = next c
called next (err e, c) = (err callback, c)
called next (panic, c) = (panic, c)

pub record Storage : Type 1 where
  pub State : Type 0
  pub Reader : Type 0
  pub first : State → Result Error (Option Entry × ℕ) × State
  pub last : State → Result Error (Option Entry × ℕ) × State
  pub put : State → ℕ → Entry → Result Error ℕ × State
  pub truncate : State → ℕ → Result Error Bool × State
  pub reader : State → Result Error Reader
  pub read : Reader → ℕ → Result Error Entry
  pub scan : {X C : Type 0} → Reader → ℕ → ℕ → Visitor X C → C → Result Error ℕ × C
