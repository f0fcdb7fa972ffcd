-- ===== src/Formula.antt =====
-- src/formula.rs: the index arithmetic of the hash tree, in four parts.
pub mod Arith
pub mod Tree
pub mod Roots
pub mod Model
