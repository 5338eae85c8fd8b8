-- ===== src/Error.antt =====
-- crates/meshquill-core/src/error.rs: the errors of the core crate. Of `InvalidArgument` the field is
-- kept and the formatted message is left out; of `Io` the kind of the `std::io::Error` is kept.
use meshquill.Common.{ℕ, String, Option}

pub data PacketDisplay : Type 0 where
  raw : ℕ → PacketDisplay

-- `invalid_packet_length code minimum actual`, `oversized_packet_payload actual maximum`.
pub data ParseError : Type 0 where
  unknown_packet_code : ℕ → ParseError
  invalid_packet_length : PacketDisplay → ℕ → ℕ → ParseError
  oversized_packet_payload : ℕ → ℕ → ParseError
  invalid_utf8_payload : String → ParseError
  malformed : String → ParseError

-- The kinds of `std::io::ErrorKind` that the core crate names, and all others.
pub data IoKind : Type 0 where
  connection_aborted connection_reset broken_pipe not_connected unexpected_eof other : IoKind

-- `backpressure queue capacity`, `payload_too_large maximum actual`.
pub data TransportError : Type 0 where
  not_connected reconnect_unsupported timeout closed : TransportError
  io : IoKind → TransportError
  reconnect_failed : String → TransportError
  backpressure : String → ℕ → TransportError
  payload_too_large : ℕ → ℕ → TransportError

pub data CoreError : Type 0 where
  transport : TransportError → CoreError
  parse : ParseError → CoreError
  timeout disconnected actor_stopped authentication_failed : CoreError
  protocol_invariant : String → CoreError
  device_rejected : String → Option ℕ → CoreError
  feature_disabled : String → CoreError
  invalid_argument : String → CoreError
  invalid_utf8 : String → CoreError
