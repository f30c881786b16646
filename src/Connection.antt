-- ===== src/Connection.antt =====
-- crates/supervisor-core/src/connection.rs: the one outbound connection to the dispatch service.
pub mod Gate
pub mod Backoff
pub mod CancelAck
pub mod Session
pub mod Timers
pub mod Worker
pub mod Server
pub mod Connect
pub mod Drain
pub mod Ownership
pub mod Bounds
pub mod Waiting
pub mod Cancel
pub mod Run
