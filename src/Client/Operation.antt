-- ===== src/Client/Operation.antt =====
-- Every method of the client that reaches the device, as one type of operations, and the states
-- that a client can come to.
use meshquill.Client.State.{◌>>=◌}
use meshquill.Common.Utf8.{Text}
use meshquill.Client.SessionLaws.{left_by}
use meshquill.Platform.{Platform}
use meshquill.Client.State.{with_valid_timeout, Script, Client, pure, Call}
use meshquill.Domain.{
  PrivateKeyMaterial, MeshPath, ContactRoute, AutoAddConfig, Contact, RadioParams, FloodScope,
  TuningParams, StatsType,
}
use meshquill.Common.{Bool, List, Option, ℕ, ℤ}
use meshquill.Client.Session
use meshquill.Client.Inbox
use meshquill.Client.Queries
use meshquill.Client.Commands
use meshquill.Client.Remote

-- An exchange of the connected client: a command and its answer.
pub data Exchange (F64 : Type 0) : Type 0 where
  init : Exchange F64
  collect_contacts : Option ℕ → Exchange F64
  list_contacts : Option ℕ → Exchange F64
  list_contacts_snapshot : Option ℕ → Exchange F64
  query_device_info : Exchange F64
  get_path_hash_mode : Exchange F64
  get_time : Exchange F64
  get_battery : Exchange F64
  get_tuning : Exchange F64
  get_auto_add_config : Exchange F64
  get_custom_vars : Exchange F64
  get_stats : StatsType → Exchange F64
  get_allowed_repeat_frequencies : Exchange F64
  get_default_flood_scope : Exchange F64
  get_channel : ℕ → Exchange F64
  get_self_telemetry : Exchange F64
  export_contact : Option (List ℕ) → Exchange F64
  get_contact : List ℕ → Exchange F64
  get_advert_path : List ℕ → Exchange F64
  set_time : ℕ → Exchange F64
  send_self_advert : Bool → Exchange F64
  set_tuning : TuningParams → Exchange F64
  set_flood_scope : FloodScope → Exchange F64
  clear_default_flood_scope : Exchange F64
  clear_channel : ℕ → Exchange F64
  set_advert_name : Text → Exchange F64
  set_coordinates : F64 → F64 → Exchange F64
  set_tx_power : ℤ → Exchange F64
  set_radio_params : RadioParams → Exchange F64
  reset_path : List ℕ → Exchange F64
  update_contact : Contact F64 → Exchange F64
  share_contact : List ℕ → Exchange F64
  import_contact : List ℕ → Exchange F64
  set_auto_add_config : AutoAddConfig → Exchange F64
  set_custom_var : Text → Text → Exchange F64
  set_path_hash_mode : ℕ → Exchange F64
  set_default_flood_scope : Text → List ℕ → Exchange F64
  set_channel : ℕ → Text → List ℕ → Exchange F64
  remove_contact : List ℕ → Exchange F64
  logout : List ℕ → Exchange F64
  send_node_discovery : ℕ → Bool → ℕ → Option ℕ → Exchange F64
  set_device_pin : ℕ → Exchange F64
  login : List ℕ → Text → Exchange F64
  remote_status : List ℕ → Exchange F64
  binary_request : List ℕ → ℕ → List ℕ → Exchange F64
  anonymous_request : List ℕ → ℕ → ContactRoute → MeshPath → Exchange F64
  discover_path : List ℕ → Exchange F64
  has_connection : List ℕ → Exchange F64
  sign : List ℕ → Exchange F64
  export_private_key : Exchange F64
  import_private_key : PrivateKeyMaterial → Exchange F64
  send_direct_text : ℤ → List ℕ → ℕ → Text → Exchange F64
  send_direct_command : ℤ → List ℕ → ℕ → Text → Exchange F64
  send_channel_message : ℤ → ℕ → ℕ → Text → Exchange F64
  reboot : Exchange F64
  factory_reset : Exchange F64

pub data Operation (F64 : Type 0) : Type 0 where
  connect : Operation F64
  reconnect : Operation F64
  disconnect : Operation F64
  next_event : Operation F64
  sync_next_message : Operation F64
  wait_for_ack : List ℕ → Option ℕ → Operation F64
  exchange : Exchange F64 → Operation F64

-- A call without its value.
abbrev pub done : {F64 A : Type 0} → Call F64 A → Call F64 (Unit {0})
done m = m >>= λ _. pure tt

module _ (p : Platform) where
  open p use {F64}

  unfoldable pub perform : Exchange F64 → Call F64 (Unit {0})
  unfolding Session.init Session.collect_contacts Session.list_contacts
      Session.list_contacts_snapshot Session.query_device_info Session.get_path_hash_mode
      Queries.get_time Queries.get_battery Queries.get_tuning Queries.get_auto_add_config
      Queries.get_custom_vars Queries.get_stats Queries.get_allowed_repeat_frequencies
      Queries.get_default_flood_scope Queries.get_channel Queries.get_self_telemetry
      Queries.export_contact Queries.get_contact Queries.get_advert_path Commands.set_time
      Commands.send_self_advert Commands.set_tuning Commands.set_flood_scope
      Commands.clear_default_flood_scope Commands.clear_channel Commands.set_advert_name
      Commands.set_coordinates Commands.set_tx_power Commands.set_radio_params Commands.reset_path
      Commands.update_contact Commands.share_contact Commands.import_contact
      Commands.set_auto_add_config Commands.set_custom_var Commands.set_path_hash_mode
      Commands.set_default_flood_scope Commands.set_channel Commands.remove_contact Commands.logout
      Commands.send_node_discovery Commands.set_device_pin Remote.login Remote.remote_status
      Remote.binary_request Remote.anonymous_request Remote.discover_path Remote.has_connection
      Remote.sign Remote.export_private_key Remote.import_private_key Remote.send_direct_text
      Remote.send_direct_command Remote.send_channel_message Commands.reboot Commands.factory_reset
  perform Exchange.init = done (Session.init p)
  perform (Exchange.collect_contacts a) = done (Session.collect_contacts p a)
  perform (Exchange.list_contacts a) = done (Session.list_contacts p a)
  perform (Exchange.list_contacts_snapshot a) = done (Session.list_contacts_snapshot p a)
  perform Exchange.query_device_info = done (Session.query_device_info p)
  perform Exchange.get_path_hash_mode = done (Session.get_path_hash_mode p)
  perform Exchange.get_time = done (Queries.get_time p)
  perform Exchange.get_battery = done (Queries.get_battery p)
  perform Exchange.get_tuning = done (Queries.get_tuning p)
  perform Exchange.get_auto_add_config = done (Queries.get_auto_add_config p)
  perform Exchange.get_custom_vars = done (Queries.get_custom_vars p)
  perform (Exchange.get_stats a) = done (Queries.get_stats p a)
  perform Exchange.get_allowed_repeat_frequencies = done (Queries.get_allowed_repeat_frequencies p)
  perform Exchange.get_default_flood_scope = done (Queries.get_default_flood_scope p)
  perform (Exchange.get_channel a) = done (Queries.get_channel p a)
  perform Exchange.get_self_telemetry = done (Queries.get_self_telemetry p)
  perform (Exchange.export_contact a) = done (Queries.export_contact p a)
  perform (Exchange.get_contact a) = done (Queries.get_contact p a)
  perform (Exchange.get_advert_path a) = done (Queries.get_advert_path p a)
  perform (Exchange.set_time a) = done (Commands.set_time p a)
  perform (Exchange.send_self_advert a) = done (Commands.send_self_advert p a)
  perform (Exchange.set_tuning a) = done (Commands.set_tuning p a)
  perform (Exchange.set_flood_scope a) = done (Commands.set_flood_scope p a)
  perform Exchange.clear_default_flood_scope = done (Commands.clear_default_flood_scope p)
  perform (Exchange.clear_channel a) = done (Commands.clear_channel p a)
  perform (Exchange.set_advert_name a) = done (Commands.set_advert_name p a)
  perform (Exchange.set_coordinates a b) = done (Commands.set_coordinates p a b)
  perform (Exchange.set_tx_power a) = done (Commands.set_tx_power p a)
  perform (Exchange.set_radio_params a) = done (Commands.set_radio_params p a)
  perform (Exchange.reset_path a) = done (Commands.reset_path p a)
  perform (Exchange.update_contact a) = done (Commands.update_contact p a)
  perform (Exchange.share_contact a) = done (Commands.share_contact p a)
  perform (Exchange.import_contact a) = done (Commands.import_contact p a)
  perform (Exchange.set_auto_add_config a) = done (Commands.set_auto_add_config p a)
  perform (Exchange.set_custom_var a b) = done (Commands.set_custom_var p a b)
  perform (Exchange.set_path_hash_mode a) = done (Commands.set_path_hash_mode p a)
  perform (Exchange.set_default_flood_scope a b) = done (Commands.set_default_flood_scope p a b)
  perform (Exchange.set_channel a b c) = done (Commands.set_channel p a b c)
  perform (Exchange.remove_contact a) = done (Commands.remove_contact p a)
  perform (Exchange.logout a) = done (Commands.logout p a)
  perform (Exchange.send_node_discovery a b c d) = done (Commands.send_node_discovery p a b c d)
  perform (Exchange.set_device_pin a) = done (Commands.set_device_pin p a)
  perform (Exchange.login a b) = done (Remote.login p a b)
  perform (Exchange.remote_status a) = done (Remote.remote_status p a)
  perform (Exchange.binary_request a b c) = done (Remote.binary_request p a b c)
  perform (Exchange.anonymous_request a b c d) = done (Remote.anonymous_request p a b c d)
  perform (Exchange.discover_path a) = done (Remote.discover_path p a)
  perform (Exchange.has_connection a) = done (Remote.has_connection p a)
  perform (Exchange.sign a) = done (Remote.sign p a)
  perform Exchange.export_private_key = done (Remote.export_private_key p)
  perform (Exchange.import_private_key a) = done (Remote.import_private_key p a)
  perform (Exchange.send_direct_text a b c d) = done (Remote.send_direct_text p a b c d)
  perform (Exchange.send_direct_command a b c d) = done (Remote.send_direct_command p a b c d)
  perform (Exchange.send_channel_message a b c d) = done (Remote.send_channel_message p a b c d)
  perform Exchange.reboot = done Commands.reboot
  perform Exchange.factory_reset = done Commands.factory_reset

  -- The client after an operation. `next_event` changes nothing while it waits.
  unfoldable pub after : Operation F64 → Client F64 → Client F64
  unfolding perform Session.connect Session.reconnect Session.disconnect Session.next_event
      Inbox.sync_next_message Inbox.wait_for_ack
  after Operation.connect c = (Session.connect p c).1
  after Operation.reconnect c = (Session.reconnect p c).1
  after Operation.disconnect c = (Session.disconnect c).1
  after Operation.next_event c = left_by (Session.next_event p c) c
  after Operation.sync_next_message c = (Inbox.sync_next_message p c).1
  after (Operation.wait_for_ack ack_code timeout) c = (Inbox.wait_for_ack p ack_code timeout c).1
  after (Operation.exchange e) c = (perform e c).1

  -- The states of a client: a new one, with any timeout, and those that operations lead to.
  pub data Reachable : Client F64 → Type 0 where
    created :
        (script : Script) (request_timeout : ℕ)
        → Reachable (with_valid_timeout script request_timeout)
    operated : (op : Operation F64) (c : Client F64) → Reachable c → Reachable (after op c)
