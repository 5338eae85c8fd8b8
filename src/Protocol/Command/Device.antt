-- ===== src/Protocol/Command/Device.antt =====
-- The builders for the device, its settings, signing and its private key.
use meshquill.Common.Utf8.{ascii}
use meshquill.Common.{
  Bool, List, Option, [], false, if◌then◌else◌, length, ltb, negsuc, none, pattern_of, pos,
  reject_if, replicate, some, true, u32_to_le, ℕ, ℤ, ◌++◌, ◌==◌, ◌>>=◌, ◌>>◌, ◌∷◌,
}
use meshquill.Error.{invalid_argument}
use meshquill.Platform.{Platform}
use meshquill.Domain.{
  RadioParams, TuningParams, AutoAddConfig, StatsType, FloodScope, PrivateKeyMaterial,
}
use meshquill.Protocol.CommandCode.{CommandCode}
use meshquill.Protocol.Command.{
  Text, Command, Built, without_payload, checked, validate_text_field, refuse_nul,
  validate_custom_component, validate_range, copy_into, i32_to_le, scaled_coordinate,
}

unfoldable pub app_start : Command
app_start = record { code = CommandCode.app_start; payload = 0x03 ∷ ascii "      mccli" }

unfoldable pub device_query : Command
device_query = record { code = CommandCode.device_query; payload = 0x03 ∷ [] }

unfoldable pub get_time : Command
get_time = record { code = CommandCode.get_device_time; payload = [] }

unfoldable pub set_time : ℕ → Command
unfolding u32_to_le
set_time value = record { code = CommandCode.set_device_time; payload = u32_to_le value }

unfoldable pub get_battery : Command
unfolding without_payload
get_battery = without_payload CommandCode.get_batt_and_storage

unfoldable pub send_self_advert : Bool → Command
send_self_advert flood = record {
  code = CommandCode.send_self_advert;
  payload = if flood then 1 ∷ [] else [];
}

unfoldable pub set_advert_name : Text → Built Command
unfolding validate_text_field refuse_nul checked
set_advert_name name = do
  validate_text_field name 31 "name"
  refuse_nul name "name"
  checked CommandCode.set_advert_name name

-- `power_dbm < -9`
abbrev pub below_minus_nine : ℤ → Bool
below_minus_nine (pos n) = false
below_minus_nine (negsuc n) = ltb 8 n

unfoldable pub set_tx_power : ℤ → Built Command
unfolding checked pattern_of
set_tx_power power_dbm = do
  reject_if (below_minus_nine power_dbm) (invalid_argument "power_dbm")
  checked CommandCode.set_tx_power (pattern_of 8 power_dbm ∷ [])

abbrev pub bool_byte : Bool → ℕ
bool_byte true = 1
bool_byte false = 0

abbrev pub repeat_bytes : Option Bool → List ℕ
repeat_bytes none = []
repeat_bytes (some repeat) = bool_byte repeat ∷ []

unfoldable pub set_radio_params : RadioParams → Built Command
unfolding validate_range checked u32_to_le
set_radio_params params = do
  validate_range params.frequency_khz 150000 2500000 "frequency_khz"
  validate_range params.bandwidth_hz 7000 500000 "bandwidth_hz"
  validate_range params.spreading_factor 5 12 "spreading_factor"
  validate_range params.coding_rate 5 8 "coding_rate"
  checked CommandCode.set_radio_params (
      u32_to_le params.frequency_khz
      ++ (u32_to_le params.bandwidth_hz
          ++ (params.spreading_factor ∷ params.coding_rate ∷ repeat_bytes params.repeat)))

unfoldable pub set_tuning : TuningParams → Command
unfolding u32_to_le
set_tuning params = record {
  code = CommandCode.set_tuning_params;
  payload = u32_to_le params.rx_delay ++ (u32_to_le params.airtime_factor ++ (0 ∷ 0 ∷ []));
}

unfoldable pub get_tuning : Command
unfolding without_payload
get_tuning = without_payload CommandCode.get_tuning_params

abbrev pub hops_exceed : Option ℕ → Bool
hops_exceed none = false
hops_exceed (some max_hops) = ltb 64 max_hops

abbrev pub optional_byte : Option ℕ → List ℕ
optional_byte none = []
optional_byte (some b) = b ∷ []

unfoldable pub set_auto_add_config : AutoAddConfig → Built Command
unfolding checked
set_auto_add_config config = do
  reject_if (hops_exceed config.max_hops) (invalid_argument "max_hops")
  checked CommandCode.set_auto_add_config (config.config ∷ optional_byte config.max_hops)

unfoldable pub get_auto_add_config : Command
unfolding without_payload
get_auto_add_config = without_payload CommandCode.get_auto_add_config

unfoldable pub get_custom_vars : Command
unfolding without_payload
get_custom_vars = without_payload CommandCode.get_custom_vars

unfoldable pub set_custom_var : Text → Text → Built Command
unfolding validate_custom_component checked
set_custom_var key value = do
  validate_custom_component key "key"
  validate_custom_component value "value"
  checked CommandCode.set_custom_var (key ++ (b':' ∷ value))

abbrev pub stats_byte : StatsType → ℕ
stats_byte StatsType.core = 0
stats_byte StatsType.radio = 1
stats_byte StatsType.packets = 2

unfoldable pub get_stats : StatsType → Command
get_stats stats_type = record { code = CommandCode.get_stats; payload = stats_byte stats_type ∷ [] }

unfoldable pub get_allowed_repeat_frequencies : Command
unfolding without_payload
get_allowed_repeat_frequencies = without_payload CommandCode.get_allowed_repeat_freq

unfoldable pub set_path_hash_mode : ℕ → Built Command
unfolding checked
set_path_hash_mode mode = do
  reject_if (ltb 2 mode) (invalid_argument "mode")
  checked CommandCode.set_path_hash_mode (0 ∷ mode ∷ [])

abbrev pub scope_bytes : FloodScope → List ℕ
scope_bytes FloodScope.default = 0 ∷ []
scope_bytes FloodScope.unscoped = 1 ∷ []
scope_bytes (FloodScope.key k) = 0 ∷ k

unfoldable pub set_flood_scope : FloodScope → Command
set_flood_scope scope = record { code = CommandCode.set_flood_scope; payload = scope_bytes scope }

unfoldable pub set_default_flood_scope : Text → List ℕ → Built Command
unfolding validate_text_field refuse_nul checked copy_into
set_default_flood_scope name key = do
  validate_text_field name 30 "name"
  refuse_nul name "name"
  named ← copy_into (replicate 47 0) 0 (length name) name
  payload ← copy_into named 31 47 key
  checked CommandCode.set_default_flood_scope payload

unfoldable pub clear_default_flood_scope : Command
unfolding without_payload
clear_default_flood_scope = without_payload CommandCode.set_default_flood_scope

unfoldable pub get_default_flood_scope : Command
unfolding without_payload
get_default_flood_scope = without_payload CommandCode.get_default_flood_scope

unfoldable pub get_self_telemetry : Command
get_self_telemetry = record { code = CommandCode.send_telemetry_req; payload = 0 ∷ 0 ∷ 0 ∷ [] }

unfoldable pub sign_start : Command
unfolding without_payload
sign_start = without_payload CommandCode.sign_start

unfoldable pub sign_data : List ℕ → Built Command
unfolding checked
sign_data chunk = do
  reject_if (length chunk == 0) (invalid_argument "chunk")
  checked CommandCode.sign_data chunk

unfoldable pub sign_finish : Command
unfolding without_payload
sign_finish = without_payload CommandCode.sign_finish

unfoldable pub export_private_key : Command
unfolding without_payload
export_private_key = without_payload CommandCode.export_private_key

unfoldable pub import_private_key : PrivateKeyMaterial → Command
import_private_key key = record { code = CommandCode.import_private_key; payload = key.bytes }

unfoldable pub set_device_pin : ℕ → Built Command
unfolding checked u32_to_le
set_device_pin pin = do
  reject_if (ltb 999999 pin) (invalid_argument "pin")
  checked CommandCode.set_device_pin (u32_to_le pin)

unfoldable pub reboot : Command
reboot = record { code = CommandCode.reboot; payload = ascii "reboot" }

unfoldable pub factory_reset : Command
factory_reset = record { code = CommandCode.factory_reset; payload = ascii "reset" }

module _ (p : Platform) where
  open p use {F64, of_i32}

  unfoldable pub set_coordinates : F64 → F64 → Built Command
  unfolding scaled_coordinate checked i32_to_le
  set_coordinates latitude longitude = do
    lat ← scaled_coordinate p latitude (of_i32 (negsuc 89)) (of_i32 (pos 90)) "latitude"
    lon ← scaled_coordinate p longitude (of_i32 (negsuc 179)) (of_i32 (pos 180)) "longitude"
    checked CommandCode.set_advert_lat_lon (i32_to_le lat ++ (i32_to_le lon ++ i32_to_le (pos 0)))
