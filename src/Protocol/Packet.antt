-- ===== src/Protocol/Packet.antt =====
-- crates/meshquill-core/src/protocol.rs: the packets that the companion sends, the selector that a
-- packet reports, and the event that it becomes.
use meshquill.Common.{List, Option, [], none, some, ℕ, ◌∷◌}
use meshquill.Domain.{
  Contact, SelfInfo, Message, ContactUri, BatteryInfo, DeviceInfo, PrivateKeyMaterial, Signature,
  ChannelInfo, TuningParams, CustomVariables, AdvertPath, DeviceStats, AutoAddConfig,
  FrequencyRange, DefaultFloodScope, Ack, LoginSession, RemoteStatus, TelemetryResponse,
  BinaryResponse, ControlData, PathDiscovery, Event,
}
use meshquill.Protocol.PacketCode.{PacketCode, from_u8}

-- `msg_sent destination_type expected_ack suggested_timeout_ms`, `unknown code payload`.
pub data Packet (F64 : Type 0) : Type 0 where
  ok : Option ℕ → Packet F64
  error : Option ℕ → Packet F64
  contact_start : ℕ → Packet F64
  contact : Contact F64 → Packet F64
  contact_end : ℕ → Packet F64
  self_info : SelfInfo F64 → Packet F64
  msg_sent : ℕ → List ℕ → ℕ → Packet F64
  contact_msg : Message → Packet F64
  channel_msg : Message → Packet F64
  current_time : ℕ → Packet F64
  no_more_msgs : Packet F64
  contact_uri : ContactUri → Packet F64
  battery : BatteryInfo → Packet F64
  device_info : DeviceInfo → Packet F64
  private_key : PrivateKeyMaterial → Packet F64
  disabled : Packet F64
  sign_start : ℕ → Packet F64
  signature : Signature → Packet F64
  channel_info : ChannelInfo → Packet F64
  tuning_params : TuningParams → Packet F64
  custom_variables : CustomVariables → Packet F64
  advert_path : AdvertPath → Packet F64
  device_stats : DeviceStats → Packet F64
  auto_add_config : AutoAddConfig → Packet F64
  allowed_repeat_frequencies : List FrequencyRange → Packet F64
  default_flood_scope : DefaultFloodScope → Packet F64
  ack : Ack → Packet F64
  messages_waiting : Packet F64
  login_success : LoginSession → Packet F64
  login_failed : List ℕ → Packet F64
  remote_status : RemoteStatus → Packet F64
  telemetry_response : TelemetryResponse → Packet F64
  binary_response : BinaryResponse → Packet F64
  control_data : ControlData → Packet F64
  path_discovery : PathDiscovery → Packet F64
  unknown : ℕ → List ℕ → Packet F64

-- `Packet::into_event`
unfoldable pub into_event : {F64 : Type 0} → Packet F64 → Option (Event F64)
into_event (ok value) = none
into_event (error code) = none
into_event (contact_start count) = none
into_event (private_key key) = none
into_event disabled = none
into_event (sign_start max_data_bytes) = none
into_event (contact c) = some (Event.contacts (c ∷ []) 0)
into_event (contact_end lastmod) = some (Event.contacts [] lastmod)
into_event (self_info info) = some (Event.self_info info)
into_event (msg_sent destination_type expected_ack suggested_timeout_ms) =
    some (Event.message_sent destination_type expected_ack suggested_timeout_ms)
into_event (contact_msg m) = some (Event.message m)
into_event (channel_msg m) = some (Event.message m)
into_event (current_time timestamp) = some (Event.current_time timestamp)
into_event (contact_uri uri) = some (Event.contact_uri uri)
into_event (battery info) = some (Event.battery info.level info.used_kb info.total_kb)
into_event (device_info info) = some (Event.device_info info)
into_event (channel_info info) = some (Event.channel_info info.idx info.name info.secret_hash)
into_event (tuning_params params) = some (Event.tuning_params params)
into_event (custom_variables vars) = some (Event.custom_variables vars)
into_event (advert_path path) = some (Event.advert_path path)
into_event (device_stats stats) = some (Event.device_stats stats)
into_event (auto_add_config config) = some (Event.auto_add_config config)
into_event (allowed_repeat_frequencies ranges) = some (Event.allowed_repeat_frequencies ranges)
into_event (default_flood_scope scope) = some (Event.default_flood_scope scope)
into_event (login_success session) = some (Event.login_succeeded session)
into_event (login_failed pubkey_prefix) = some (Event.login_failed pubkey_prefix)
into_event (remote_status status) = some (Event.remote_status status)
into_event (telemetry_response response) = some (Event.telemetry response)
into_event (binary_response response) = some (Event.binary_response response)
into_event (control_data control) = some (Event.control_data control)
into_event (path_discovery path) = some (Event.path_discovery path)
into_event (signature s) = some (Event.signature s)
into_event (ack a) = some (Event.ack a)
into_event no_more_msgs = some Event.inbox_empty
into_event messages_waiting = some Event.messages_waiting
into_event (unknown code payload) = some (Event.unknown_packet code payload)

-- `Packet::code`
unfoldable pub packet_code : {F64 : Type 0} → Packet F64 → PacketCode
packet_code (ok value) = PacketCode.ok
packet_code (error code) = PacketCode.error
packet_code (contact_start count) = PacketCode.contact_start
packet_code (contact c) = PacketCode.contact
packet_code (contact_end lastmod) = PacketCode.contact_end
packet_code (self_info info) = PacketCode.self_info
packet_code (msg_sent destination_type expected_ack suggested_timeout_ms) = PacketCode.msg_sent
packet_code (contact_msg m) = PacketCode.contact_msg_recv
packet_code (channel_msg m) = PacketCode.channel_msg_recv
packet_code (current_time timestamp) = PacketCode.current_time
packet_code no_more_msgs = PacketCode.no_more_msgs
packet_code (contact_uri uri) = PacketCode.contact_uri
packet_code (battery info) = PacketCode.battery
packet_code (device_info info) = PacketCode.device_info
packet_code (private_key key) = PacketCode.private_key
packet_code disabled = PacketCode.disabled
packet_code (sign_start max_data_bytes) = PacketCode.sign_start
packet_code (signature s) = PacketCode.signature
packet_code (channel_info info) = PacketCode.channel_info
packet_code (tuning_params params) = PacketCode.tuning_params
packet_code (custom_variables vars) = PacketCode.custom_vars
packet_code (advert_path path) = PacketCode.advert_path
packet_code (device_stats stats) = PacketCode.stats
packet_code (auto_add_config config) = PacketCode.autoadd_config
packet_code (allowed_repeat_frequencies ranges) = PacketCode.allowed_repeat_freq
packet_code (default_flood_scope scope) = PacketCode.default_flood_scope
packet_code (ack a) = PacketCode.ack
packet_code messages_waiting = PacketCode.messages_waiting
packet_code (login_success session) = PacketCode.login_success
packet_code (login_failed pubkey_prefix) = PacketCode.login_failed
packet_code (remote_status status) = PacketCode.status_response
packet_code (telemetry_response response) = PacketCode.telemetry_response
packet_code (binary_response response) = PacketCode.binary_response
packet_code (control_data control) = PacketCode.control_data
packet_code (path_discovery path) = PacketCode.path_discovery_response
packet_code (unknown code payload) = from_u8 code
