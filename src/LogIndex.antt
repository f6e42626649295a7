-- ===== src/LogIndex.antt =====
-- src/log_window.rs: the line index over one append-only log (`LineIndex`).
--
-- Each access to the file system sees the log as it is at that moment: a `World` gives the `Source`
-- at every tick, and an operation names the ticks of its accesses, so a log that is replaced,
-- truncated, reset or appended to between two accesses is a `World` that differs at two ticks.
-- Bytes are numbers, an `i64` time is its bit pattern (the code only compares times), and the
-- anonymous index file is the list of its bytes.
pub mod Defs
pub mod Ops
pub mod Lines
pub mod Indexed
pub mod Rounds
pub mod Progress
pub mod Refresh
pub mod Reuse
pub mod Total
pub mod Cut
pub mod Snapshot
