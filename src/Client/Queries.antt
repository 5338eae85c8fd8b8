-- ===== src/Client/Queries.antt =====
-- The queries that wait for one packet, and the commands that wait for `OK`.
use meshquill.Domain.{
  StatsType, AdvertPath, AutoAddConfig, BatteryInfo, ChannelInfo, Contact, ContactUri,
  CustomVariables, DefaultFloodScope, DeviceStats, FrequencyRange, TelemetryResponse, TuningParams,
}
use meshquill.Platform.{Platform}
use meshquill.Protocol.Packet.{Packet}
use meshquill.Common.{List, Option, none, some, ℕ}
use meshquill.Client.Wait.{send_command_expect}
use meshquill.Client.State.{◌>>=◌, lift, Call}
use meshquill.Protocol.Command.Device
use meshquill.Protocol.Command.Peers

-- What each query takes from a packet.
module _ {F64 : Type 0} where
  abbrev get_time_of : Packet F64 → Option ℕ
  get_time_of (Packet.current_time value) = some value
  get_time_of other = none

  abbrev get_battery_of : Packet F64 → Option BatteryInfo
  get_battery_of (Packet.battery info) = some info
  get_battery_of other = none

  abbrev get_tuning_of : Packet F64 → Option TuningParams
  get_tuning_of (Packet.tuning_params params) = some params
  get_tuning_of other = none

  abbrev get_auto_add_config_of : Packet F64 → Option AutoAddConfig
  get_auto_add_config_of (Packet.auto_add_config config) = some config
  get_auto_add_config_of other = none

  abbrev get_custom_vars_of : Packet F64 → Option CustomVariables
  get_custom_vars_of (Packet.custom_variables vars) = some vars
  get_custom_vars_of other = none

  abbrev get_stats_of : Packet F64 → Option DeviceStats
  get_stats_of (Packet.device_stats stats) = some stats
  get_stats_of other = none

  abbrev get_allowed_repeat_frequencies_of : Packet F64 → Option (List FrequencyRange)
  get_allowed_repeat_frequencies_of (Packet.allowed_repeat_frequencies ranges) = some ranges
  get_allowed_repeat_frequencies_of other = none

  abbrev get_default_flood_scope_of : Packet F64 → Option DefaultFloodScope
  get_default_flood_scope_of (Packet.default_flood_scope scope) = some scope
  get_default_flood_scope_of other = none

  abbrev get_channel_of : Packet F64 → Option ChannelInfo
  get_channel_of (Packet.channel_info info) = some info
  get_channel_of other = none

  abbrev get_self_telemetry_of : Packet F64 → Option TelemetryResponse
  get_self_telemetry_of (Packet.telemetry_response response) = some response
  get_self_telemetry_of other = none

  abbrev export_contact_of : Packet F64 → Option ContactUri
  export_contact_of (Packet.contact_uri uri) = some uri
  export_contact_of other = none

  abbrev get_contact_of : Packet F64 → Option (Contact F64)
  get_contact_of (Packet.contact contact) = some contact
  get_contact_of other = none

  abbrev get_advert_path_of : Packet F64 → Option AdvertPath
  get_advert_path_of (Packet.advert_path path) = some path
  get_advert_path_of other = none

module _ (p : Platform) where
  open p use {F64}

  unfoldable pub get_time : Call F64 ℕ
  unfolding send_command_expect Device.get_time
  get_time = send_command_expect p Device.get_time "time query" get_time_of

  unfoldable pub get_battery : Call F64 BatteryInfo
  unfolding send_command_expect Device.get_battery
  get_battery = send_command_expect p Device.get_battery "battery query" get_battery_of

  unfoldable pub get_tuning : Call F64 TuningParams
  unfolding send_command_expect Device.get_tuning
  get_tuning = send_command_expect p Device.get_tuning "tuning query" get_tuning_of

  unfoldable pub get_auto_add_config : Call F64 AutoAddConfig
  unfolding send_command_expect Device.get_auto_add_config
  get_auto_add_config =
      send_command_expect p Device.get_auto_add_config "auto-add config query"
        get_auto_add_config_of

  unfoldable pub get_custom_vars : Call F64 CustomVariables
  unfolding send_command_expect Device.get_custom_vars
  get_custom_vars =
      send_command_expect p Device.get_custom_vars "custom-variable query" get_custom_vars_of

  unfoldable pub get_stats : StatsType → Call F64 DeviceStats
  unfolding send_command_expect Device.get_stats
  get_stats stats_type =
      send_command_expect p (Device.get_stats stats_type) "statistics query" get_stats_of

  unfoldable pub get_allowed_repeat_frequencies : Call F64 (List FrequencyRange)
  unfolding send_command_expect Device.get_allowed_repeat_frequencies
  get_allowed_repeat_frequencies =
      send_command_expect p Device.get_allowed_repeat_frequencies "allowed repeat-frequency query"
        get_allowed_repeat_frequencies_of

  unfoldable pub get_default_flood_scope : Call F64 DefaultFloodScope
  unfolding send_command_expect Device.get_default_flood_scope
  get_default_flood_scope =
      send_command_expect p Device.get_default_flood_scope "default flood-scope query"
        get_default_flood_scope_of

  unfoldable pub get_channel : ℕ → Call F64 ChannelInfo
  unfolding send_command_expect Peers.get_channel
  get_channel idx = send_command_expect p (Peers.get_channel idx) "channel query" get_channel_of

  unfoldable pub get_self_telemetry : Call F64 TelemetryResponse
  unfolding send_command_expect Device.get_self_telemetry
  get_self_telemetry =
      send_command_expect p Device.get_self_telemetry "self telemetry query" get_self_telemetry_of

  unfoldable pub export_contact : Option (List ℕ) → Call F64 ContactUri
  unfolding send_command_expect Peers.export_contact
  export_contact public_key = do
    command ← lift (Peers.export_contact public_key)
    send_command_expect p command "contact export" export_contact_of

  unfoldable pub get_contact : List ℕ → Call F64 (Contact F64)
  unfolding send_command_expect Peers.get_contact
  get_contact public_key = do
    command ← lift (Peers.get_contact public_key)
    send_command_expect p command "contact query" get_contact_of

  unfoldable pub get_advert_path : List ℕ → Call F64 AdvertPath
  unfolding send_command_expect Peers.get_advert_path
  get_advert_path public_key = do
    command ← lift (Peers.get_advert_path public_key)
    send_command_expect p command "advert path query" get_advert_path_of
