-- ===== src/Protocol/Parse/Messages.antt =====
-- Parsers of messages, send confirmations, acknowledgements, the clock and contact cards. The
-- signal-to-noise ratio of a message counts quarters of a decibel.
use meshquill.Common.Utf8.{ascii, Text}
use meshquill.Common.{
  Bool, List, Option, at, if◌then◌else◌, leb, length, ltb, none, ok, read_i8, read_u32, reject_if,
  slice, slice_from, some, ℕ, ◌&&◌, ◌++◌, ◌+◌, ◌==◌, ◌>>=◌, ◌>>◌,
}
use meshquill.Error.{malformed}
use meshquill.Domain.{MessageSource, MessageStatus}
use meshquill.Protocol.PacketCode.{PacketCode}
use meshquill.Protocol.Packet.{Packet}
use meshquill.Protocol.Parse.Pieces.{
  Parsed, require_len, require_exact_len, then_read, decode_text, message_route,
}

-- The text type 2 carries four signature bytes at the cursor; the result has the cursor behind
-- them.
unfoldable pub parse_text_signature : List ℕ → PacketCode → ℕ → ℕ → Parsed (Option (List ℕ) × ℕ)
unfolding require_len
parse_text_signature raw code txt_type cursor =
    if txt_type == 2
    then (do
      require_len raw (cursor + 4) code
      bytes ← slice raw cursor (cursor + 4)
      ok (some bytes, cursor + 4))
    else ok (none, cursor)

module _ {F64 : Type 0} where
  unfoldable pub parse_msg_sent : List ℕ → Parsed (Packet F64)
  unfolding require_len
  parse_msg_sent raw = do
    require_len raw 10 PacketCode.msg_sent
    expected_ack ← slice raw 2 6
    destination_type ← at raw 1
    suggested_timeout_ms ← read_u32 raw 6
    ok (Packet.msg_sent destination_type expected_ack suggested_timeout_ms)

  unfoldable pub parse_contact_msg : (List ℕ → Text) → List ℕ → Bool → Parsed (Packet F64)
  unfolding require_len parse_text_signature decode_text message_route
  parse_contact_msg hex_encode raw is_v3 = do
    let code = if is_v3 then PacketCode.contact_msg_recv_v3 else PacketCode.contact_msg_recv
    require_len raw (if is_v3 then 16 else 13) code
    snr ← then_read is_v3 (read_i8 raw 1)
    let prefix_start = if is_v3 then 4 else 1
    route_byte ← at raw (prefix_start + 6)
    prefix_bytes ← slice raw prefix_start (prefix_start + 6)
    txt_type ← at raw (prefix_start + 7)
    sender_timestamp ← read_u32 raw (prefix_start + 8)
    (signature, cursor) ← parse_text_signature raw code txt_type (prefix_start + 12)
    text_bytes ← slice_from raw cursor
    text ← decode_text text_bytes (if is_v3 then "ContactMsg.text_v3" else "ContactMsg.text")
    ok (
        Packet.contact_msg (record {
          observation_id = none;
          source = MessageSource.direct (hex_encode prefix_bytes);
          route = message_route route_byte;
          txt_type = txt_type;
          sender_timestamp = sender_timestamp;
          signature = signature;
          text = text;
          snr = snr;
          status = MessageStatus.received;
        }))

  unfoldable pub parse_channel_msg : List ℕ → Bool → Parsed (Packet F64)
  unfolding require_len decode_text message_route
  parse_channel_msg raw is_v3 = do
    let code = if is_v3 then PacketCode.channel_msg_recv_v3 else PacketCode.channel_msg_recv
    require_len raw (if is_v3 then 11 else 8) code
    snr ← then_read is_v3 (read_i8 raw 1)
    let cursor = if is_v3 then 4 else 1
    channel_idx ← at raw cursor
    route_byte ← at raw (cursor + 1)
    txt_type ← at raw (cursor + 2)
    sender_timestamp ← read_u32 raw (cursor + 3)
    text_bytes ← slice_from raw (cursor + 7)
    text ← decode_text text_bytes (if is_v3 then "ChannelMsg.text_v3" else "ChannelMsg.text")
    ok (
        Packet.channel_msg (record {
          observation_id = none;
          source = MessageSource.channel channel_idx;
          route = message_route route_byte;
          txt_type = txt_type;
          sender_timestamp = sender_timestamp;
          signature = none;
          text = text;
          snr = snr;
          status = MessageStatus.received;
        }))

  unfoldable pub parse_current_time : List ℕ → Parsed (Packet F64)
  unfolding require_exact_len
  parse_current_time raw = do
    require_exact_len raw 5 PacketCode.current_time
    timestamp ← read_u32 raw 1
    ok (Packet.current_time timestamp)

  unfoldable pub parse_contact_uri : (List ℕ → Text) → List ℕ → Parsed (Packet F64)
  unfolding require_len
  parse_contact_uri hex_encode raw = do
    require_len raw 2 PacketCode.contact_uri
    card ← slice_from raw 1
    ok (Packet.contact_uri (record { uri = ascii "meshcore://" ++ hex_encode card; card = card }))

  unfoldable pub parse_ack : List ℕ → Parsed (Packet F64)
  unfolding require_len
  parse_ack raw = do
    require_len raw 5 PacketCode.ack
    reject_if (leb 6 (length raw) && ltb (length raw) 9)
        (malformed "ACK packet contains a truncated trip-time field")
    code ← slice raw 1 5
    trip_time_ms ← then_read (leb 9 (length raw)) (read_u32 raw 5)
    ok (Packet.ack (record { code = code; trip_time_ms = trip_time_ms }))
