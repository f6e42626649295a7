-- ===== src/Bytes.antt =====
-- Byte sequences: the little-endian words of the index file and the equality of byte slices
-- (src/log_window.rs), and the hexadecimal printer (src/native_runtime.rs).
pub mod Words
pub mod Compare
pub mod Hex
