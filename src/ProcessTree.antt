-- ===== src/ProcessTree.antt =====
-- The process tree that a shutdown of src/native_runtime.rs terminates.
pub mod Defs
pub mod Fresh
pub mod Plan
pub mod Protected
