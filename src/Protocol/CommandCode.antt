-- ===== src/Protocol/CommandCode.antt =====
-- crates/meshquill-core/src/protocol.rs: the command selectors.
use meshquill.Common.{ℕ, ◌≡◌, refl, List, [], ◌∷◌, arith, arm, arm_inv}
use meshquill.Common.{Outcome, ok}
use meshquill.Error.{ParseError}

pub data CommandCode : Type 0 where
  app_start send_txt_msg send_channel_txt_msg get_contacts get_device_time : CommandCode
  set_device_time send_self_advert set_advert_name add_update_contact sync_next_message :
      CommandCode
  set_radio_params set_tx_power reset_path set_advert_lat_lon remove_contact : CommandCode
  share_contact export_contact import_contact reboot get_batt_and_storage : CommandCode
  set_tuning_params device_query export_private_key import_private_key send_raw_data : CommandCode
  send_login send_status_req has_connection logout get_contact_by_key get_channel : CommandCode
  set_channel sign_start sign_data sign_finish send_trace_path set_device_pin : CommandCode
  set_other_params send_telemetry_req get_custom_vars set_custom_var get_advert_path : CommandCode
  get_tuning_params binary_req factory_reset path_discovery set_flood_scope : CommandCode
  send_control_data get_stats send_anon_req set_auto_add_config get_auto_add_config : CommandCode
  get_allowed_repeat_freq set_path_hash_mode send_channel_data set_default_flood_scope : CommandCode
  get_default_flood_scope : CommandCode
  unknown : ℕ → CommandCode

unfoldable pub to_u8 : CommandCode → ℕ
to_u8 app_start = 0x01
to_u8 send_txt_msg = 0x02
to_u8 send_channel_txt_msg = 0x03
to_u8 get_contacts = 0x04
to_u8 get_device_time = 0x05
to_u8 set_device_time = 0x06
to_u8 send_self_advert = 0x07
to_u8 set_advert_name = 0x08
to_u8 add_update_contact = 0x09
to_u8 sync_next_message = 0x0a
to_u8 set_radio_params = 0x0b
to_u8 set_tx_power = 0x0c
to_u8 reset_path = 0x0d
to_u8 set_advert_lat_lon = 0x0e
to_u8 remove_contact = 0x0f
to_u8 share_contact = 0x10
to_u8 export_contact = 0x11
to_u8 import_contact = 0x12
to_u8 reboot = 0x13
to_u8 get_batt_and_storage = 0x14
to_u8 set_tuning_params = 0x15
to_u8 device_query = 0x16
to_u8 export_private_key = 0x17
to_u8 import_private_key = 0x18
to_u8 send_raw_data = 0x19
to_u8 send_login = 0x1a
to_u8 send_status_req = 0x1b
to_u8 has_connection = 0x1c
to_u8 logout = 0x1d
to_u8 get_contact_by_key = 0x1e
to_u8 get_channel = 0x1f
to_u8 set_channel = 0x20
to_u8 sign_start = 0x21
to_u8 sign_data = 0x22
to_u8 sign_finish = 0x23
to_u8 send_trace_path = 0x24
to_u8 set_device_pin = 0x25
to_u8 set_other_params = 0x26
to_u8 send_telemetry_req = 0x27
to_u8 get_custom_vars = 0x28
to_u8 set_custom_var = 0x29
to_u8 get_advert_path = 0x2a
to_u8 get_tuning_params = 0x2b
to_u8 binary_req = 0x32
to_u8 factory_reset = 0x33
to_u8 path_discovery = 0x34
to_u8 set_flood_scope = 0x36
to_u8 send_control_data = 0x37
to_u8 get_stats = 0x38
to_u8 send_anon_req = 0x39
to_u8 set_auto_add_config = 0x3a
to_u8 get_auto_add_config = 0x3b
to_u8 get_allowed_repeat_freq = 0x3c
to_u8 set_path_hash_mode = 0x3d
to_u8 send_channel_data = 0x3e
to_u8 set_default_flood_scope = 0x3f
to_u8 get_default_flood_scope = 0x40
to_u8 (unknown value) = value

-- The arms of the match on the code, in order; any other code is `unknown`.
abbrev arms : List (ℕ × CommandCode)
arms =
    (0x01, app_start)
    ∷ (0x02, send_txt_msg)
    ∷ (0x03, send_channel_txt_msg)
    ∷ (0x04, get_contacts)
    ∷ (0x05, get_device_time)
    ∷ (0x06, set_device_time)
    ∷ (0x07, send_self_advert)
    ∷ (0x08, set_advert_name)
    ∷ (0x09, add_update_contact)
    ∷ (0x0a, sync_next_message)
    ∷ (0x0b, set_radio_params)
    ∷ (0x0c, set_tx_power)
    ∷ (0x0d, reset_path)
    ∷ (0x0e, set_advert_lat_lon)
    ∷ (0x0f, remove_contact)
    ∷ (0x10, share_contact)
    ∷ (0x11, export_contact)
    ∷ (0x12, import_contact)
    ∷ (0x13, reboot)
    ∷ (0x14, get_batt_and_storage)
    ∷ (0x15, set_tuning_params)
    ∷ (0x16, device_query)
    ∷ (0x17, export_private_key)
    ∷ (0x18, import_private_key)
    ∷ (0x19, send_raw_data)
    ∷ (0x1a, send_login)
    ∷ (0x1b, send_status_req)
    ∷ (0x1c, has_connection)
    ∷ (0x1d, logout)
    ∷ (0x1e, get_contact_by_key)
    ∷ (0x1f, get_channel)
    ∷ (0x20, set_channel)
    ∷ (0x21, sign_start)
    ∷ (0x22, sign_data)
    ∷ (0x23, sign_finish)
    ∷ (0x24, send_trace_path)
    ∷ (0x25, set_device_pin)
    ∷ (0x26, set_other_params)
    ∷ (0x27, send_telemetry_req)
    ∷ (0x28, get_custom_vars)
    ∷ (0x29, set_custom_var)
    ∷ (0x2a, get_advert_path)
    ∷ (0x2b, get_tuning_params)
    ∷ (0x32, binary_req)
    ∷ (0x33, factory_reset)
    ∷ (0x34, path_discovery)
    ∷ (0x36, set_flood_scope)
    ∷ (0x37, send_control_data)
    ∷ (0x38, get_stats)
    ∷ (0x39, send_anon_req)
    ∷ (0x3a, set_auto_add_config)
    ∷ (0x3b, get_auto_add_config)
    ∷ (0x3c, get_allowed_repeat_freq)
    ∷ (0x3d, set_path_hash_mode)
    ∷ (0x3e, send_channel_data)
    ∷ (0x3f, set_default_flood_scope)
    ∷ (0x40, get_default_flood_scope)
    ∷ []

unfoldable pub try_from : ℕ → Outcome ParseError CommandCode
try_from code = ok (arm arms code (unknown code))

abbrev pub IsListed : CommandCode → Type 0
IsListed (unknown value) = ⊥
IsListed _ = Unit

-- Every byte is accepted, and is the code of the variant that it is read as.
pub to_u8-try_from : (code : ℕ) → (c : CommandCode) × (try_from code ≡ ok c) × (to_u8 c ≡ code)
unfolding to_u8 try_from
to_u8-try_from code = (
  arm arms code (unknown code),
  refl,
  arm_inv (λ n c. to_u8 c ≡ n) arms code (unknown code) (omega arith) refl,
)

-- Every variant but `unknown` is read back from its code.
pub try_from-to_u8 : (c : CommandCode) → IsListed c → try_from (to_u8 c) ≡ ok c
unfolding to_u8 try_from
try_from-to_u8 (unknown value) h = absurd h
try_from-to_u8 _ h = refl
