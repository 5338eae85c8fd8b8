-- ===== src/Domain.antt =====
-- crates/meshquill-core/src/domain.rs: the values that packets carry. Integers of every width are
-- numbers, fixed byte arrays and vectors are lists of bytes, and a `String` is the list of its
-- UTF-8 bytes. An `f32` that the parser makes is a quarter of a small integer, which is exact, so
-- it is kept as that integer (`last_snr` and `snr` count quarters); an `f64` is the `Platform`'s.
pub mod Values
pub mod Discovery
mod Runs
use meshquill.Common.{ℕ, Bool, Option, List, ℤ}
use meshquill.Common.Utf8.{Text}

pub record PublicKey : Type 0 where
  pub bytes : List ℕ

pub record PrivateKeyMaterial : Type 0 where
  pub bytes : List ℕ

pub record MeshPath : Type 0 where
  pub bytes : List ℕ

pub record Scope : Type 0 where
  pub name : Option Text
  pub key : List ℕ

pub data FloodScope : Type 0 where
  default unscoped : FloodScope
  key : List ℕ → FloodScope

pub record BatteryInfo : Type 0 where
  pub level : ℕ
  pub used_kb : Option ℕ
  pub total_kb : Option ℕ

pub record RadioParams : Type 0 where
  pub frequency_khz : ℕ
  pub bandwidth_hz : ℕ
  pub spreading_factor : ℕ
  pub coding_rate : ℕ
  pub repeat : Option Bool

pub record TuningParams : Type 0 where
  pub rx_delay : ℕ
  pub airtime_factor : ℕ

pub record CustomVariable : Type 0 where
  pub key : Text
  pub value : Text

pub record CustomVariables : Type 0 where
  pub raw : List ℕ
  pub entries : List CustomVariable

pub data ContactRoute : Type 0 where
  flood : ContactRoute
  -- the hash mode and the hop count
  path : ℕ → ℕ → ContactRoute

pub record AdvertPath : Type 0 where
  pub received_at : ℕ
  pub route : ContactRoute
  pub path : MeshPath

pub data StatsType : Type 0 where
  core radio packets : StatsType

pub record CoreStats : Type 0 where
  pub battery_mv : ℕ
  pub uptime_seconds : ℕ
  pub errors : ℕ
  pub queue_length : ℕ

pub record RadioStats : Type 0 where
  pub noise_floor : ℤ
  pub last_rssi : ℤ
  pub last_snr : ℤ
  pub tx_airtime_seconds : ℕ
  pub rx_airtime_seconds : ℕ

pub record PacketStats : Type 0 where
  pub recv : ℕ
  pub sent : ℕ
  pub flood_recv : ℕ
  pub flood_sent : ℕ
  pub direct_recv : ℕ
  pub direct_sent : ℕ
  pub recv_errors : Option ℕ

-- The fields of each variant are a record.
pub data DeviceStats : Type 0 where
  core : CoreStats → DeviceStats
  radio : RadioStats → DeviceStats
  packets : PacketStats → DeviceStats

pub record LoginSession : Type 0 where
  pub permissions : ℕ
  pub pubkey_prefix : List ℕ
  pub server_timestamp : Option ℕ
  pub acl_permissions : Option ℕ
  pub firmware_version_level : Option ℕ

pub record RemoteStatus : Type 0 where
  pub pubkey_prefix : List ℕ
  pub battery_mv : ℕ
  pub tx_queue_length : ℕ
  pub noise_floor : ℤ
  pub last_rssi : ℤ
  pub packets_received : ℕ
  pub packets_sent : ℕ
  pub tx_airtime_seconds : ℕ
  pub uptime_seconds : ℕ
  pub sent_flood : ℕ
  pub sent_direct : ℕ
  pub received_flood : ℕ
  pub received_direct : ℕ
  pub error_events : ℕ
  pub last_snr : ℤ
  pub direct_duplicates : ℕ
  pub flood_duplicates : ℕ
  pub rx_airtime_seconds : ℕ
  pub receive_errors : Option ℕ

pub record TelemetryResponse : Type 0 where
  pub pubkey_prefix : List ℕ
  pub payload : List ℕ

pub record BinaryResponse : Type 0 where
  pub tag : List ℕ
  pub payload : List ℕ

pub record ControlData : Type 0 where
  pub snr_qdb : ℤ
  pub rssi : ℤ
  pub path_len : ℕ
  pub payload : List ℕ

pub record NodeDiscoveryResponse : Type 0 where
  pub node_type : ℕ
  pub inbound_snr_qdb : ℤ
  pub tag : ℕ
  pub public_key : List ℕ

pub record PathDiscovery : Type 0 where
  pub pubkey_prefix : List ℕ
  pub outbound_route : ContactRoute
  pub outbound_path : MeshPath
  pub inbound_route : ContactRoute
  pub inbound_path : MeshPath

pub record Signature : Type 0 where
  pub bytes : List ℕ

pub record AutoAddConfig : Type 0 where
  pub config : ℕ
  pub max_hops : Option ℕ

pub record FrequencyRange : Type 0 where
  pub lower_khz : ℕ
  pub upper_khz : ℕ

pub data DefaultFloodScope : Type 0 where
  unconfigured : DefaultFloodScope
  configured : Scope → DefaultFloodScope

pub record ContactUri : Type 0 where
  pub uri : Text
  pub card : List ℕ

pub data ContactType : Type 0 where
  chat repeater room sensor : ContactType
  unknown : ℕ → ContactType

pub record Contact (F64 : Type 0) : Type 0 where
  pub public_key : PublicKey
  pub contact_type : ContactType
  pub flags : ℕ
  pub route : ContactRoute
  pub out_path : MeshPath
  pub adv_name : Text
  pub last_advert : ℕ
  pub adv_lat : F64
  pub adv_lon : F64
  pub lastmod : ℕ

pub record SelfInfo (F64 : Type 0) : Type 0 where
  pub advertising_type : ℕ
  pub tx_power : ℕ
  pub max_tx_power : ℕ
  pub public_key : PublicKey
  pub adv_lat : F64
  pub adv_lon : F64
  pub multi_acks : ℕ
  pub advert_loc_policy : ℕ
  pub telemetry_mode_env : ℕ
  pub telemetry_mode_loc : ℕ
  pub telemetry_mode_base : ℕ
  pub manual_add_contacts : Bool
  pub radio_frequency_mhz : F64
  pub radio_bandwidth_khz : F64
  pub radio_spreading_factor : ℕ
  pub radio_coding_rate : ℕ
  pub name : Text

pub record DeviceInfo : Type 0 where
  pub protocol_version : ℕ
  pub max_contacts : Option ℕ
  pub max_channels : Option ℕ
  pub ble_pin : Option ℕ
  pub firmware_build : Option Text
  pub model : Option Text
  pub firmware_version : Option Text
  pub repeat_enabled : Option Bool
  pub path_hash_mode : Option ℕ

pub data MessageStatus : Type 0 where
  received queued acked : MessageStatus
  sent : Option ℕ → MessageStatus
  failed : Text → MessageStatus

pub data MessageSource : Type 0 where
  direct : Text → MessageSource
  channel : ℕ → MessageSource

pub data MessageRoute : Type 0 where
  direct : MessageRoute
  path : ℕ → ℕ → MessageRoute

pub record Message : Type 0 where
  pub observation_id : Option ℕ
  pub source : MessageSource
  pub route : MessageRoute
  pub txt_type : ℕ
  pub sender_timestamp : ℕ
  pub signature : Option (List ℕ)
  pub text : Text
  pub snr : Option ℤ
  pub status : MessageStatus

pub record Ack : Type 0 where
  pub code : List ℕ
  pub trip_time_ms : Option ℕ

pub record CommandTracking : Type 0 where
  pub ack_code : List ℕ
  pub timeout_ms : ℕ

pub record ContactSnapshot (F64 : Type 0) : Type 0 where
  pub contacts : List (Contact F64)
  pub lastmod : ℕ

pub record ChannelInfo : Type 0 where
  pub idx : ℕ
  pub name : Text
  pub secret_hash : Option ℕ
  pub secret : Option (List ℕ)

pub data Event (F64 : Type 0) : Type 0 where
  connected disconnected inbox_empty messages_waiting : Event F64
  contacts : List (Contact F64) → ℕ → Event F64
  self_info : SelfInfo F64 → Event F64
  device_info : DeviceInfo → Event F64
  message : Message → Event F64
  channel_info : ℕ → Text → Option ℕ → Event F64
  ack : Ack → Event F64
  message_sent : ℕ → List ℕ → ℕ → Event F64
  current_time : ℕ → Event F64
  battery : ℕ → Option ℕ → Option ℕ → Event F64
  contact_uri : ContactUri → Event F64
  tuning_params : TuningParams → Event F64
  custom_variables : CustomVariables → Event F64
  advert_path : AdvertPath → Event F64
  device_stats : DeviceStats → Event F64
  auto_add_config : AutoAddConfig → Event F64
  allowed_repeat_frequencies : List FrequencyRange → Event F64
  default_flood_scope : DefaultFloodScope → Event F64
  login_succeeded : LoginSession → Event F64
  login_failed : List ℕ → Event F64
  remote_status : RemoteStatus → Event F64
  telemetry : TelemetryResponse → Event F64
  binary_response : BinaryResponse → Event F64
  control_data : ControlData → Event F64
  path_discovery : PathDiscovery → Event F64
  signature : Signature → Event F64
  protocol_error : Text → Event F64
  unknown_packet : ℕ → List ℕ → Event F64
