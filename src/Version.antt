-- ===== src/Version.antt =====
-- crates/sage-ir/src/check/infer/version.rs: the domains of inference variables and the tree of
-- versions that owns them.
pub mod Domain
pub mod Tree
pub mod Examples
