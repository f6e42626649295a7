-- ===== src/Manager.antt =====
-- The manager of the shells (src/native_runtime.rs): its table of live shells, the records on disk and
-- the lifecycle events, with the operations that read and change them.
pub mod Defs
pub mod Spawn
pub mod Access
pub mod Terminate
pub mod Reactor
pub mod Reaped
pub mod Valid
pub mod Moves
pub mod Ends
pub mod Starts
pub mod Runs
pub mod Published
pub mod Closed
pub mod Ended
pub mod Apply
pub mod Started
pub mod Applied
pub mod Launched
