-- ===== src/LogProjection.antt =====
-- src/log_projection.rs: the data of a projected record, and the viewport arithmetic.
pub mod Defs
pub mod Viewport
pub mod Pointer
pub mod Project
pub mod Bounded
pub mod Preview
