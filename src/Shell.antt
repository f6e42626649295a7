-- ===== src/Shell.antt =====
-- src/native_runtime.rs: the shell records, and how they are written to `meta.json` and read back.
pub mod Record
pub mod Names
pub mod Persist
pub mod Adopt
