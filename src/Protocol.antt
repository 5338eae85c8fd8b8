-- ===== src/Protocol.antt =====
-- crates/meshquill-core/src/protocol.rs: one companion packet, in both directions.
pub mod CommandCode
pub mod PacketCode
pub mod Packet
pub mod Command
pub mod Parse
pub mod Safety
pub mod Requests
pub mod Entry
pub mod Selector
pub mod CustomVars
pub mod Ranges
pub mod Layouts
pub mod Lengths
pub mod Discovery
pub mod RoundTrip
pub mod Runs
