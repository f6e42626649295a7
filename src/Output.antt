-- ===== src/Output.antt =====
-- The output subscriptions of src/native_runtime.rs.
pub mod Map
pub mod Defs
pub mod Counted
pub mod Delivery
