-- ===== src/Shutdown.antt =====
-- The shutdown of a process tree (src/native_runtime.rs) and its results (src/shutdown.rs).
pub mod Defs
pub mod Counts
pub mod Spared
pub mod Callers
pub mod Parse
