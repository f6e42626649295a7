-- ===== src/History.antt =====
-- How many exited shells src/native_runtime.rs still lists.
pub mod Defs
pub mod Kept
pub mod Recent
