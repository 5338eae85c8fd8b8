-- ===== src/Protocol/Parse.antt =====
-- crates/meshquill-core/src/protocol.rs: `Packet::parse`. The parsers that it calls are in the
-- modules below.
pub mod Pieces
pub mod Session
pub mod Messages
pub mod Records
pub mod Settings
pub mod Lists
use meshquill.Common.{
  List, at, false, length, ltb, ok, reject_if, slice_from, true, ℕ, ◌==◌, ◌>>=◌, ◌>>◌,
}
use meshquill.Error.{malformed, oversized_packet_payload}
use meshquill.Platform.{Platform}
use meshquill.Protocol.PacketCode
use meshquill.Protocol.PacketCode.{PacketCode, from_u8}
use meshquill.Protocol.Packet.{Packet}
use Pieces.{Parsed}
use Session.{
  parse_ok, parse_error, parse_private_key, parse_disabled, parse_sign_start, parse_signature,
  parse_login_success, parse_login_failed, parse_telemetry_response, parse_binary_response,
  parse_control_data, parse_path_discovery,
}
use Messages.{
  parse_msg_sent, parse_contact_msg, parse_channel_msg, parse_current_time, parse_contact_uri,
  parse_ack,
}
use Records.{
  parse_contact_start, parse_contact, parse_contact_end, parse_self_info, parse_device_info,
  parse_remote_status,
}
use Settings.{
  parse_battery, parse_tuning_params, parse_auto_add_config, parse_advert_path, parse_channel_info,
  parse_default_flood_scope,
}
use Lists.{parse_custom_vars, parse_allowed_repeat_frequencies, parse_stats}

abbrev pub max_inner_payload : ℕ
max_inner_payload = 176

-- A packet that is passed on unread.
unfoldable pub unread : {F64 : Type 0} → List ℕ → ℕ → Parsed (Packet F64)
unread raw code = do payload ← slice_from raw 1; ok (Packet.unknown code payload)

module _ (p : Platform) where
  open p use {F64, hex_encode, sha256}

  -- The arms of the match on the selector; `code` is the first byte.
  unfoldable pub dispatch : PacketCode → List ℕ → ℕ → Parsed (Packet F64)
  dispatch PacketCode.ok raw code = parse_ok raw
  dispatch PacketCode.error raw code = ok (parse_error raw)
  dispatch PacketCode.contact_start raw code = parse_contact_start raw
  dispatch PacketCode.contact raw code = parse_contact p raw
  dispatch PacketCode.contact_end raw code = parse_contact_end raw
  dispatch PacketCode.self_info raw code = parse_self_info p raw
  dispatch PacketCode.msg_sent raw code = parse_msg_sent raw
  dispatch PacketCode.contact_msg_recv raw code = parse_contact_msg hex_encode raw false
  dispatch PacketCode.contact_msg_recv_v3 raw code = parse_contact_msg hex_encode raw true
  dispatch PacketCode.channel_msg_recv raw code = parse_channel_msg raw false
  dispatch PacketCode.channel_msg_recv_v3 raw code = parse_channel_msg raw true
  dispatch PacketCode.current_time raw code = parse_current_time raw
  dispatch PacketCode.no_more_msgs raw code = ok Packet.no_more_msgs
  dispatch PacketCode.contact_uri raw code = parse_contact_uri hex_encode raw
  dispatch PacketCode.battery raw code = parse_battery raw
  dispatch PacketCode.device_info raw code = parse_device_info raw
  dispatch PacketCode.private_key raw code = parse_private_key raw
  dispatch PacketCode.disabled raw code = parse_disabled raw
  dispatch PacketCode.channel_info raw code = parse_channel_info sha256 raw
  dispatch PacketCode.sign_start raw code = parse_sign_start raw
  dispatch PacketCode.signature raw code = parse_signature raw
  dispatch PacketCode.custom_vars raw code = parse_custom_vars raw
  dispatch PacketCode.advert_path raw code = parse_advert_path raw
  dispatch PacketCode.tuning_params raw code = parse_tuning_params raw
  dispatch PacketCode.stats raw code = parse_stats raw
  dispatch PacketCode.autoadd_config raw code = parse_auto_add_config raw
  dispatch PacketCode.allowed_repeat_freq raw code = parse_allowed_repeat_frequencies raw
  dispatch PacketCode.default_flood_scope raw code = parse_default_flood_scope raw
  dispatch PacketCode.ack raw code = parse_ack raw
  dispatch PacketCode.messages_waiting raw code = ok Packet.messages_waiting
  dispatch PacketCode.login_success raw code = parse_login_success raw
  dispatch PacketCode.login_failed raw code = parse_login_failed raw
  dispatch PacketCode.status_response raw code = parse_remote_status raw
  dispatch PacketCode.telemetry_response raw code = parse_telemetry_response raw
  dispatch PacketCode.binary_response raw code = parse_binary_response raw
  dispatch PacketCode.path_discovery_response raw code = parse_path_discovery raw
  dispatch PacketCode.control_data raw code = parse_control_data raw
  dispatch PacketCode.advertisement raw code = unread raw code
  dispatch PacketCode.path_update raw code = unread raw code
  dispatch PacketCode.raw_data raw code = unread raw code
  dispatch PacketCode.log_data raw code = unread raw code
  dispatch PacketCode.trace_data raw code = unread raw code
  dispatch PacketCode.new_advert raw code = unread raw code
  dispatch PacketCode.contact_deleted raw code = unread raw code
  dispatch PacketCode.contacts_full raw code = unread raw code
  dispatch PacketCode.channel_data_recv raw code = unread raw code
  dispatch (PacketCode.unknown value) raw code = unread raw value

  -- `Packet::parse`
  unfoldable pub parse : List ℕ → Parsed (Packet F64)
  unfolding dispatch
  parse raw = do
    reject_if (length raw == 0) (malformed "empty packet")
    reject_if (ltb max_inner_payload (length raw))
        (oversized_packet_payload (length raw) max_inner_payload)
    code ← at raw 0
    dispatch (from_u8 code) raw code
