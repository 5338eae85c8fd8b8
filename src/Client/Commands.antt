-- ===== src/Client/Commands.antt =====
-- The commands that wait for `OK`, and those that end the session.
use meshquill.Common.Utf8.{Text}
use meshquill.Domain.{AutoAddConfig, Contact, FloodScope, RadioParams, TuningParams}
use meshquill.Platform.{Platform}
use meshquill.Common.{Bool, List, Option, ℕ, ℤ}
use meshquill.Client.Wait.{send_command_expect_ok, send_disconnect_command}
use meshquill.Client.State.{◌>>=◌, lift, Call}
use meshquill.Protocol.Command.Device
use meshquill.Protocol.Command.Peers

module _ (p : Platform) where
  open p use {F64}

  unfoldable pub set_time : ℕ → Call F64 (Unit {0})
  unfolding send_command_expect_ok Device.set_time
  set_time value = send_command_expect_ok p (Device.set_time value)

  unfoldable pub send_self_advert : Bool → Call F64 (Unit {0})
  unfolding send_command_expect_ok Device.send_self_advert
  send_self_advert flood = send_command_expect_ok p (Device.send_self_advert flood)

  unfoldable pub set_tuning : TuningParams → Call F64 (Unit {0})
  unfolding send_command_expect_ok Device.set_tuning
  set_tuning params = send_command_expect_ok p (Device.set_tuning params)

  unfoldable pub set_flood_scope : FloodScope → Call F64 (Unit {0})
  unfolding send_command_expect_ok Device.set_flood_scope
  set_flood_scope scope = send_command_expect_ok p (Device.set_flood_scope scope)

  unfoldable pub clear_default_flood_scope : Call F64 (Unit {0})
  unfolding send_command_expect_ok Device.clear_default_flood_scope
  clear_default_flood_scope = send_command_expect_ok p Device.clear_default_flood_scope

  unfoldable pub clear_channel : ℕ → Call F64 (Unit {0})
  unfolding send_command_expect_ok Peers.clear_channel
  clear_channel idx = send_command_expect_ok p (Peers.clear_channel idx)

  unfoldable pub set_advert_name : Text → Call F64 (Unit {0})
  unfolding send_command_expect_ok Device.set_advert_name
  set_advert_name name = do
    command ← lift (Device.set_advert_name name)
    send_command_expect_ok p command

  unfoldable pub set_coordinates : F64 → F64 → Call F64 (Unit {0})
  unfolding send_command_expect_ok Device.set_coordinates
  set_coordinates latitude longitude = do
    command ← lift (Device.set_coordinates p latitude longitude)
    send_command_expect_ok p command

  unfoldable pub set_tx_power : ℤ → Call F64 (Unit {0})
  unfolding send_command_expect_ok Device.set_tx_power
  set_tx_power power_dbm = do
    command ← lift (Device.set_tx_power power_dbm)
    send_command_expect_ok p command

  unfoldable pub set_radio_params : RadioParams → Call F64 (Unit {0})
  unfolding send_command_expect_ok Device.set_radio_params
  set_radio_params params = do
    command ← lift (Device.set_radio_params params)
    send_command_expect_ok p command

  unfoldable pub reset_path : List ℕ → Call F64 (Unit {0})
  unfolding send_command_expect_ok Peers.reset_path
  reset_path public_key = do
    command ← lift (Peers.reset_path public_key)
    send_command_expect_ok p command

  unfoldable pub update_contact : Contact F64 → Call F64 (Unit {0})
  unfolding send_command_expect_ok Peers.update_contact
  update_contact contact = do
    command ← lift (Peers.update_contact p contact)
    send_command_expect_ok p command

  unfoldable pub share_contact : List ℕ → Call F64 (Unit {0})
  unfolding send_command_expect_ok Peers.share_contact
  share_contact public_key = do
    command ← lift (Peers.share_contact public_key)
    send_command_expect_ok p command

  unfoldable pub import_contact : List ℕ → Call F64 (Unit {0})
  unfolding send_command_expect_ok Peers.import_contact
  import_contact card = do
    command ← lift (Peers.import_contact card)
    send_command_expect_ok p command

  unfoldable pub set_auto_add_config : AutoAddConfig → Call F64 (Unit {0})
  unfolding send_command_expect_ok Device.set_auto_add_config
  set_auto_add_config config = do
    command ← lift (Device.set_auto_add_config config)
    send_command_expect_ok p command

  unfoldable pub set_custom_var : Text → Text → Call F64 (Unit {0})
  unfolding send_command_expect_ok Device.set_custom_var
  set_custom_var key value = do
    command ← lift (Device.set_custom_var key value)
    send_command_expect_ok p command

  unfoldable pub set_path_hash_mode : ℕ → Call F64 (Unit {0})
  unfolding send_command_expect_ok Device.set_path_hash_mode
  set_path_hash_mode mode = do
    command ← lift (Device.set_path_hash_mode mode)
    send_command_expect_ok p command

  unfoldable pub set_default_flood_scope : Text → List ℕ → Call F64 (Unit {0})
  unfolding send_command_expect_ok Device.set_default_flood_scope
  set_default_flood_scope name key = do
    command ← lift (Device.set_default_flood_scope name key)
    send_command_expect_ok p command

  unfoldable pub set_channel : ℕ → Text → List ℕ → Call F64 (Unit {0})
  unfolding send_command_expect_ok Peers.set_channel
  set_channel idx name secret = do
    command ← lift (Peers.set_channel idx name secret)
    send_command_expect_ok p command

  unfoldable pub remove_contact : List ℕ → Call F64 (Unit {0})
  unfolding send_command_expect_ok Peers.remove_contact
  remove_contact public_key = do
    command ← lift (Peers.remove_contact public_key)
    send_command_expect_ok p command

  unfoldable pub logout : List ℕ → Call F64 (Unit {0})
  unfolding send_command_expect_ok Peers.logout
  logout public_key = do command ← lift (Peers.logout public_key); send_command_expect_ok p command

  unfoldable pub send_node_discovery : ℕ → Bool → ℕ → Option ℕ → Call F64 (Unit {0})
  unfolding send_command_expect_ok Peers.send_node_discovery
  send_node_discovery filter prefix_only tag since = do
    command ← lift (Peers.send_node_discovery filter prefix_only tag since)
    send_command_expect_ok p command

  unfoldable pub set_device_pin : ℕ → Call F64 (Unit {0})
  unfolding send_command_expect_ok Device.set_device_pin
  set_device_pin pin = do
    command ← lift (Device.set_device_pin pin)
    send_command_expect_ok p command

module _ {F64 : Type 0} where
  unfoldable pub reboot : Call F64 (Unit {0})
  unfolding send_disconnect_command Device.reboot
  reboot = send_disconnect_command Device.reboot

  unfoldable pub factory_reset : Call F64 (Unit {0})
  unfolding send_disconnect_command Device.factory_reset
  factory_reset = send_disconnect_command Device.factory_reset
