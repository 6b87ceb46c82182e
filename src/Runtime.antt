-- ===== src/Runtime.antt =====
-- The crate of the runtime, crates/easycon-runtime/src.
pub mod Table
pub mod Arbiter
pub mod Lifecycle
pub mod Events
pub mod Cancellation
pub mod Operation
pub mod Deadline
pub mod Clock
pub mod Supervisor
pub mod Publish
