-- ===== src/IndexCache.antt =====
-- `IndexCache` of src/log_window.rs: the indexes of the logs that were read last.
pub mod Defs
pub mod Valid
pub mod Borrow
