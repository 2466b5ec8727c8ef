-- ===== src/Ipc.antt =====
-- internal/ipc: what a request of a client does to the daemon, and what it is answered.
pub mod Protocol
pub mod Server
pub mod Client
pub mod Replies
pub mod Histories
pub mod Previews
pub mod Refinement
pub mod Tests
