-- ===== src/Protocol/Requests.antt =====
-- Every builder that can refuse, as one type of requests: what it builds fits a companion packet.
pub mod Bounds
pub mod Safety
use meshquill.Common.Utf8.{Text}
use meshquill.Common.{Bool, List, Option, ℕ, ℤ}
use meshquill.Error.{CoreError}
use meshquill.Platform.{Platform}
use meshquill.Domain.{Contact, ContactRoute, MeshPath, RadioParams, AutoAddConfig}
use meshquill.Protocol.CommandCode.{CommandCode}
use meshquill.Protocol.Command.{Built, Command}
use meshquill.Protocol.Command.Device
use meshquill.Protocol.Command.Peers

-- A call of a builder, with its arguments.
pub data Request (F64 : Type 0) : Type 0 where
  set_advert_name : Text → Request F64
  set_coordinates : F64 → F64 → Request F64
  set_tx_power : ℤ → Request F64
  set_radio_params : RadioParams → Request F64
  set_auto_add_config : AutoAddConfig → Request F64
  set_custom_var : Text → Text → Request F64
  set_path_hash_mode : ℕ → Request F64
  set_default_flood_scope : Text → List ℕ → Request F64
  sign_data : List ℕ → Request F64
  set_device_pin : ℕ → Request F64
  reset_path remove_contact share_contact get_contact get_advert_path : List ℕ → Request F64
  update_contact : Contact F64 → Request F64
  export_contact : Option (List ℕ) → Request F64
  import_contact : List ℕ → Request F64
  set_channel : ℕ → Text → List ℕ → Request F64
  send_login : List ℕ → Text → Request F64
  send_status_request has_connection logout discover_path : List ℕ → Request F64
  send_binary_request : List ℕ → ℕ → List ℕ → Request F64
  send_anonymous_request : List ℕ → ℕ → ContactRoute → MeshPath → Request F64
  send_node_discovery : ℕ → Bool → ℕ → Option ℕ → Request F64

module _ (p : Platform) where
  open p use {F64}

  unfoldable pub build : Request F64 → Built Command
  build (set_advert_name name) = Device.set_advert_name name
  build (set_coordinates latitude longitude) = Device.set_coordinates p latitude longitude
  build (set_tx_power power_dbm) = Device.set_tx_power power_dbm
  build (set_radio_params params) = Device.set_radio_params params
  build (set_auto_add_config config) = Device.set_auto_add_config config
  build (set_custom_var key value) = Device.set_custom_var key value
  build (set_path_hash_mode mode) = Device.set_path_hash_mode mode
  build (set_default_flood_scope name key) = Device.set_default_flood_scope name key
  build (sign_data chunk) = Device.sign_data chunk
  build (set_device_pin pin) = Device.set_device_pin pin
  build (reset_path key) = Peers.reset_path key
  build (remove_contact key) = Peers.remove_contact key
  build (share_contact key) = Peers.share_contact key
  build (get_contact key) = Peers.get_contact key
  build (get_advert_path key) = Peers.get_advert_path key
  build (update_contact contact) = Peers.update_contact p contact
  build (export_contact key) = Peers.export_contact key
  build (import_contact card) = Peers.import_contact card
  build (set_channel idx name secret) = Peers.set_channel idx name secret
  build (send_login key password) = Peers.send_login key password
  build (send_status_request key) = Peers.send_status_request key
  build (has_connection key) = Peers.has_connection key
  build (logout key) = Peers.logout key
  build (discover_path key) = Peers.discover_path key
  build (send_binary_request key request_type bytes) =
      Peers.send_binary_request key request_type bytes
  build (send_anonymous_request key request_type reply_route reply_path) =
      Peers.send_anonymous_request key request_type reply_route reply_path
  build (send_node_discovery filter prefix_only tag since) =
      Peers.send_node_discovery filter prefix_only tag since

-- The selector of a request.
abbrev pub selector : {F64 : Type 0} → Request F64 → CommandCode
selector (set_advert_name name) = CommandCode.set_advert_name
selector (set_coordinates latitude longitude) = CommandCode.set_advert_lat_lon
selector (set_tx_power power_dbm) = CommandCode.set_tx_power
selector (set_radio_params params) = CommandCode.set_radio_params
selector (set_auto_add_config config) = CommandCode.set_auto_add_config
selector (set_custom_var key value) = CommandCode.set_custom_var
selector (set_path_hash_mode mode) = CommandCode.set_path_hash_mode
selector (set_default_flood_scope name key) = CommandCode.set_default_flood_scope
selector (sign_data chunk) = CommandCode.sign_data
selector (set_device_pin pin) = CommandCode.set_device_pin
selector (reset_path key) = CommandCode.reset_path
selector (remove_contact key) = CommandCode.remove_contact
selector (share_contact key) = CommandCode.share_contact
selector (get_contact key) = CommandCode.get_contact_by_key
selector (get_advert_path key) = CommandCode.get_advert_path
selector (update_contact contact) = CommandCode.add_update_contact
selector (export_contact key) = CommandCode.export_contact
selector (import_contact card) = CommandCode.import_contact
selector (set_channel idx name secret) = CommandCode.set_channel
selector (send_login key password) = CommandCode.send_login
selector (send_status_request key) = CommandCode.send_status_req
selector (has_connection key) = CommandCode.has_connection
selector (logout key) = CommandCode.logout
selector (discover_path key) = CommandCode.path_discovery
selector (send_binary_request key request_type bytes) = CommandCode.binary_req
selector (send_anonymous_request key request_type reply_route reply_path) =
    CommandCode.send_anon_req
selector (send_node_discovery filter prefix_only tag since) = CommandCode.send_control_data
