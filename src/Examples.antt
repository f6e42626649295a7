-- ===== src/Examples.antt =====
-- Concrete logs, caches, records and channels, at which the theorems are applied.
mod Log
mod Window
mod Cache
mod Shell
mod Output
mod Processes
mod Codecs
mod History
mod Manager
mod Spec
mod Frames
mod Apply
mod Answers
