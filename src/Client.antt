-- ===== src/Client.antt =====
-- crates/meshquill-core/src/client.rs: the client of a companion device, which sends a command,
-- waits for its answer, and passes on every other packet.
pub mod Tables
pub mod Queue
pub mod TableLaws
pub mod State
pub mod Checks
pub mod Packets
pub mod Wait
pub mod Session
pub mod Inbox
pub mod Queries
pub mod Commands
pub mod Remote
pub mod Invariant
pub mod Primitives
pub mod Rules
pub mod Loops
pub mod SessionLaws
pub mod InboxLaws
pub mod RemoteLaws
pub mod Operation
pub mod OperationLaws
pub mod Reach
pub mod Awaiting
pub mod Deadline
pub mod Writing
pub mod Signing
pub mod Survival
pub mod Passing
pub mod Tracking
pub mod Deferred
pub mod Contacts
mod Runs
