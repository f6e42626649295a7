-- ===== src/LogCodecs.antt =====
-- The codecs that a shell's record names for its logs (src/log_window.rs).
pub mod Defs
pub mod Checked
