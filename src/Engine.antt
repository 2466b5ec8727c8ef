-- ===== src/Engine.antt =====
-- internal/engine: the torrents that the daemon tracks, and every operation on them.
pub mod Library
pub mod Types
pub mod State
pub mod Flow
pub mod Snapshot
pub mod Guard
pub mod Check
pub mod Session
pub mod Ops
pub mod Relocate
pub mod Restore
pub mod Label
pub mod Seed
pub mod Tick
pub mod Metadata
pub mod Stream
pub mod Calls
pub mod Sample
pub mod Tests
