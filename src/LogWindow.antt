-- ===== src/LogWindow.antt =====
-- src/log_window.rs: `LineIndex::window` and `LineIndex::raw`, over the index of LogIndex.antt.
pub mod Defs
pub mod Ops
pub mod Spanned
pub mod Fill
pub mod Window
pub mod Raw
