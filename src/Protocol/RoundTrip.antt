-- ===== src/Protocol/RoundTrip.antt =====
-- What the companion is told and what it reports have one layout: a record that a builder of
-- crates/meshquill-core/src/protocol.rs writes is read back by the parser of the matching packet.
pub mod Padding
pub mod Values
pub mod Channel
pub mod Layout
pub mod Contact
pub mod Update
pub mod Variable
pub mod Route
pub mod Scope
pub mod Runs
