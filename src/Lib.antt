-- ===== src/Lib.antt =====
-- Verification of meshquill: the wire protocol of the core crate, from the bytes of a serial or TCP
-- link to typed packets and back, the client that speaks it, and the reconnect delays of the MQTT
-- bridge.
--
-- The program. A companion device speaks frames over a link. `crates/meshquill-core/src/framing.rs`
-- wraps one packet in a frame and takes frames from a receive buffer;
-- `crates/meshquill-core/src/protocol.rs` parses the packet of a frame and builds the packet of a
-- command; `crates/meshquill-core/src/domain.rs` holds the values that packets and events carry;
-- `crates/meshquill-core/src/error.rs` holds the errors. A transport reads frames with
-- `OuterDecoder` and writes what `OuterEncoder` gives; `crates/meshquill-core/src/client.rs` gives
-- each payload read to `Packet::parse`, answers the caller of a command or publishes an `Event`,
-- and writes what `Command::encode` gives.
--
-- The files.
--   Common        shared names, with lists over native numbers, Boolean tests, byte slices with
--                 Rust's bounds checks, UTF-8 and searching in the modules below it. `Outcome` is
--                 what a Rust call does: a value, an error, or a panic.
--   Error         the errors (`error.rs`).
--   Platform      what the sources take from outside: 64-bit floats, hex and SHA-256, as a
--                 parameter of the definitions that use them.
--   Domain        the records and enumerations of `domain.rs`; Domain.Values its checked
--                 constructors and `ControlData::node_discovery_response`, Domain.Discovery the
--                 proofs about the latter.
--   Framing       `OuterEncoder`, `OuterDecoder` and `decode_frames`. The receive buffer is a list
--                 that a step takes and gives back. Framing.Step, .Frames and .Totality hold the
--                 proofs.
--   Protocol      `protocol.rs`: CommandCode and PacketCode (the selectors), Packet (the packets,
--                 `into_event`, `code`), Parse (`Packet::parse`, the parsers in the modules below
--                 it), Command (`Command` and the checks that builders share, the builders in the
--                 modules below it). Entry, Safety, Selector, Layouts, Lengths, CustomVars,
--                 Ranges, Discovery, Requests and RoundTrip hold the proofs about them.
--   Client        `crates/meshquill-core/src/client.rs`: Tables (the two bounded tables of
--                 acknowledgements), State (`Client`, and the transport as a script), Checks,
--                 Packets (`read_next_packet`, `parse_packet`, `publish_event`,
--                 `update_tracking`), Wait (`send_raw` and the loops that wait for an answer),
--                 Session, Inbox, Queries, Commands and Remote (the public methods), Operation (all
--                 of them as one type, and the states that they lead to). Queue, TableLaws,
--                 Survival, Passing and Tracking hold the proofs about the tables, Survival and
--                 Passing those about a table while packets come; Invariant, Primitives, Rules,
--                 Loops, SessionLaws, InboxLaws, RemoteLaws, OperationLaws and Reach those about
--                 the invariant; Awaiting, Deferred, Deadline, Writing, Signing and Contacts the
--                 others.
--   Remote        `crates/meshquill-core/src/remote.rs`: the payloads of requests to a remote device,
--                 in Remote.Answers the parsers of its answers and in Remote.Telemetry that of
--                 telemetry summaries; AnswerSafety, SummarySafety, Safety and Acl hold the proofs.
--   Backoff       `crates/meshquill-mqtt/src/backoff.rs`, the delays between attempts of the MQTT
--                 bridge to reconnect.
--   Modules named Runs hold tests and the theorems at concrete inputs.
--
-- Conventions. A byte is a natural number, and a byte string is a list of them; a Rust string is
-- the list of its bytes. A builder's name is the source's. Bit fields are read by division and
-- remainder; a signed integer is the value of its bit pattern. An index or a range outside a slice
-- is a panic, as in Rust. The decoder's loop runs on fuel, as many rounds as the buffer has bytes;
-- each frame takes three bytes at least, so that the fuel is enough.
--
-- The client's calls take a state and give it back, after an error too. What its transport does is
-- a script in that state, over which the theorems quantify: what each read gives and how many
-- nanoseconds after the one before, what `try_read` finds, and how writes, connects and disconnects
-- end. A loop of reads is a recursion over what is still to arrive, so that every call with a
-- timeout ends; `next_event`, which has none, has no result while nothing arrives. Events are the
-- list of those sent to the broadcast channel. The loop of `drain_ready_packets_before_sync` counts
-- down from the bound that the source gives it; `slice::chunks` has as much fuel as bytes, and so
-- has the loop of `parse_summary_payload`, each turn of which reads one.
--
-- Not modelled. Debug and Display output, serde, zeroizing on drop, hex conversions and
-- `Message::delivery_fingerprint`; the messages of `InvalidArgument`; what a slow receiver of
-- events loses, and futures that are dropped before they end; the managed session and the parser
-- of remote telemetry samples of the core crate, and the other crates (transports, store, hooks,
-- the rest of the MQTT bridge, command line, Python bindings), which use sockets, databases,
-- processes and third-party runtimes.
pub mod Common
pub mod Error
pub mod Platform
pub mod Domain
pub mod Framing
pub mod Protocol
pub mod Client
pub mod Remote
pub mod Backoff
