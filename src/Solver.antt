-- ===== src/Solver.antt =====
-- The trait solver's data, crates/sage-ir/src/check/solve.
pub mod Subst
pub mod AntiUnify
