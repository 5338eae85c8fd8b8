-- ===== src/Client/OperationLaws.antt =====
-- Every state that a client can come to satisfies the invariant.
use meshquill.Client.Remote.{timestamp_of}
use meshquill.Protocol.Packet.{Packet}
use meshquill.Client.Checks.{validate_destination_prefix, validate_text, key_prefix}
use meshquill.Client.Wait.{
  send_command_expect_msg_sent_inner, PacketWait, send_command_expect_ok,
  send_command_expect_msg_sent,
}
use meshquill.Client.RemoteLaws.{Runs-exchange}
use meshquill.Common.Utf8.{Text}
use meshquill.Domain.{
  DeviceInfo, MeshPath, AutoAddConfig, Contact, ContactRoute, FloodScope, RadioParams, StatsType,
  TuningParams,
}
use meshquill.Client.Loops.{Runs-expect_ok, Runs-expect_msg_sent, Runs-expect}
use meshquill.Protocol.Command.{max_inner_payload, Command}
use meshquill.Client.Session.{path_hash_mode_of}
use meshquill.Client.Operation.{done}
use meshquill.Platform.{Platform}
use meshquill.Error.{CoreError}
use meshquill.Client.SessionLaws.{Runs-collect_contacts, Runs-query_device_info, Safe-bind, Safe}
use meshquill.Common.{◌-◌, String, Bool, List, Option, Option-cases, Outcome, inl, inr, true, ℕ, ℤ}
use meshquill.Client.State.{Call, pure, lift}
use meshquill.Client.State.{◌>>=◌}
use meshquill.Client.Session
use meshquill.Client.Queries
use meshquill.Client.Commands
use meshquill.Client.Remote
use meshquill.Protocol.Command.Peers

module _ {F64 : Type 0} where
  Safe-done : {A : Type 0} (m : Call F64 A) → Safe m → Safe (done m)
  Safe-done m s = Safe-bind (λ _. pure tt) (λ _ c v. v) m s

  -- The argument checks of a builder, and then a command.
  Safe-built :
      {A B : Type 0} (o : Outcome CoreError B) (f : B → Call F64 A)
      → ((b : B) → Safe (f b))
      → Safe (lift o >>= f)
  Safe-built o f s = Safe-bind f s (lift o) (λ c v. v)

module _ (p : Platform) where
  open p use {F64}

  Safe-ok : (command : Command) → Safe (send_command_expect_ok p command)
  Safe-ok command = (Runs-expect_ok p command).valid

  -- An exchange with the device of a public key, whose answers carry the key's prefix.
  Safe-prefixed :
      {A : Type 0} (public_key : List ℕ) (built : Outcome CoreError Command) (operation : String)
      (extract : List ℕ → Packet F64 → PacketWait A)
      → Safe (
          lift (key_prefix public_key) >>= λ prefix.
          Remote.exchange p built operation (λ tracking. extract prefix))
  Safe-prefixed public_key built operation extract =
      Safe-built (key_prefix public_key)
        (λ prefix. Remote.exchange p built operation (λ tracking. extract prefix))
        (λ prefix. (Runs-exchange p built operation (λ tracking. extract prefix)).valid)

  -- A text after its check, sent and tracked.
  Safe-tracked :
      (check : Outcome CoreError (Unit {0})) (command : Command)
      → Safe (lift check >>= λ _. send_command_expect_msg_sent p command)
  unfolding send_command_expect_msg_sent
  Safe-tracked check command =
      Safe-built check (λ _. send_command_expect_msg_sent_inner p command true)
        (λ _. (Runs-expect_msg_sent p command true).valid)

  Safe-mode : (info : DeviceInfo) → Safe {F64 = F64} (path_hash_mode_of info)
  unfolding path_hash_mode_of
  Safe-mode info c v = elim (Option-cases info.path_hash_mode) [
    | inl e ↦ rw e v
    | inr (mode, e) ↦ rw e v
  ]

  pub Safe-get_time : Safe (Queries.get_time p)
  unfolding Queries.get_time
  Safe-get_time = (Runs-expect p _ _ _).valid

  pub Safe-get_battery : Safe (Queries.get_battery p)
  unfolding Queries.get_battery
  Safe-get_battery = (Runs-expect p _ _ _).valid

  pub Safe-get_tuning : Safe (Queries.get_tuning p)
  unfolding Queries.get_tuning
  Safe-get_tuning = (Runs-expect p _ _ _).valid

  pub Safe-get_auto_add_config : Safe (Queries.get_auto_add_config p)
  unfolding Queries.get_auto_add_config
  Safe-get_auto_add_config = (Runs-expect p _ _ _).valid

  pub Safe-get_custom_vars : Safe (Queries.get_custom_vars p)
  unfolding Queries.get_custom_vars
  Safe-get_custom_vars = (Runs-expect p _ _ _).valid

  pub Safe-get_stats : (a : StatsType) → Safe (Queries.get_stats p a)
  unfolding Queries.get_stats
  Safe-get_stats a = (Runs-expect p _ _ _).valid

  pub Safe-get_allowed_repeat_frequencies : Safe (Queries.get_allowed_repeat_frequencies p)
  unfolding Queries.get_allowed_repeat_frequencies
  Safe-get_allowed_repeat_frequencies = (Runs-expect p _ _ _).valid

  pub Safe-get_default_flood_scope : Safe (Queries.get_default_flood_scope p)
  unfolding Queries.get_default_flood_scope
  Safe-get_default_flood_scope = (Runs-expect p _ _ _).valid

  pub Safe-get_channel : (a : ℕ) → Safe (Queries.get_channel p a)
  unfolding Queries.get_channel
  Safe-get_channel a = (Runs-expect p _ _ _).valid

  pub Safe-get_self_telemetry : Safe (Queries.get_self_telemetry p)
  unfolding Queries.get_self_telemetry
  Safe-get_self_telemetry = (Runs-expect p _ _ _).valid

  pub Safe-export_contact : (a : Option (List ℕ)) → Safe (Queries.export_contact p a)
  unfolding Queries.export_contact
  Safe-export_contact a = Safe-built _ _ (λ command. (Runs-expect p command _ _).valid)

  pub Safe-get_contact : (a : List ℕ) → Safe (Queries.get_contact p a)
  unfolding Queries.get_contact
  Safe-get_contact a = Safe-built _ _ (λ command. (Runs-expect p command _ _).valid)

  pub Safe-get_advert_path : (a : List ℕ) → Safe (Queries.get_advert_path p a)
  unfolding Queries.get_advert_path
  Safe-get_advert_path a = Safe-built _ _ (λ command. (Runs-expect p command _ _).valid)

  pub Safe-set_time : (a : ℕ) → Safe (Commands.set_time p a)
  unfolding Commands.set_time
  Safe-set_time a = Safe-ok _

  pub Safe-send_self_advert : (a : Bool) → Safe (Commands.send_self_advert p a)
  unfolding Commands.send_self_advert
  Safe-send_self_advert a = Safe-ok _

  pub Safe-set_tuning : (a : TuningParams) → Safe (Commands.set_tuning p a)
  unfolding Commands.set_tuning
  Safe-set_tuning a = Safe-ok _

  pub Safe-set_flood_scope : (a : FloodScope) → Safe (Commands.set_flood_scope p a)
  unfolding Commands.set_flood_scope
  Safe-set_flood_scope a = Safe-ok _

  pub Safe-clear_default_flood_scope : Safe (Commands.clear_default_flood_scope p)
  unfolding Commands.clear_default_flood_scope
  Safe-clear_default_flood_scope = Safe-ok _

  pub Safe-clear_channel : (a : ℕ) → Safe (Commands.clear_channel p a)
  unfolding Commands.clear_channel
  Safe-clear_channel a = Safe-ok _

  pub Safe-set_advert_name : (a : Text) → Safe (Commands.set_advert_name p a)
  unfolding Commands.set_advert_name
  Safe-set_advert_name a = Safe-built _ _ Safe-ok

  pub Safe-set_coordinates : (a : F64) (b : F64) → Safe (Commands.set_coordinates p a b)
  unfolding Commands.set_coordinates
  Safe-set_coordinates a b = Safe-built _ _ Safe-ok

  pub Safe-set_tx_power : (a : ℤ) → Safe (Commands.set_tx_power p a)
  unfolding Commands.set_tx_power
  Safe-set_tx_power a = Safe-built _ _ Safe-ok

  pub Safe-set_radio_params : (a : RadioParams) → Safe (Commands.set_radio_params p a)
  unfolding Commands.set_radio_params
  Safe-set_radio_params a = Safe-built _ _ Safe-ok

  pub Safe-reset_path : (a : List ℕ) → Safe (Commands.reset_path p a)
  unfolding Commands.reset_path
  Safe-reset_path a = Safe-built _ _ Safe-ok

  pub Safe-update_contact : (a : Contact F64) → Safe (Commands.update_contact p a)
  unfolding Commands.update_contact
  Safe-update_contact a = Safe-built _ _ Safe-ok

  pub Safe-share_contact : (a : List ℕ) → Safe (Commands.share_contact p a)
  unfolding Commands.share_contact
  Safe-share_contact a = Safe-built _ _ Safe-ok

  pub Safe-import_contact : (a : List ℕ) → Safe (Commands.import_contact p a)
  unfolding Commands.import_contact
  Safe-import_contact a = Safe-built _ _ Safe-ok

  pub Safe-set_auto_add_config : (a : AutoAddConfig) → Safe (Commands.set_auto_add_config p a)
  unfolding Commands.set_auto_add_config
  Safe-set_auto_add_config a = Safe-built _ _ Safe-ok

  pub Safe-set_custom_var : (a : Text) (b : Text) → Safe (Commands.set_custom_var p a b)
  unfolding Commands.set_custom_var
  Safe-set_custom_var a b = Safe-built _ _ Safe-ok

  pub Safe-set_path_hash_mode : (a : ℕ) → Safe (Commands.set_path_hash_mode p a)
  unfolding Commands.set_path_hash_mode
  Safe-set_path_hash_mode a = Safe-built _ _ Safe-ok

  pub Safe-set_default_flood_scope :
      (a : Text) (b : List ℕ) → Safe (Commands.set_default_flood_scope p a b)
  unfolding Commands.set_default_flood_scope
  Safe-set_default_flood_scope a b = Safe-built _ _ Safe-ok

  pub Safe-set_channel : (a : ℕ) (b : Text) (c : List ℕ) → Safe (Commands.set_channel p a b c)
  unfolding Commands.set_channel
  Safe-set_channel a b c = Safe-built _ _ Safe-ok

  pub Safe-remove_contact : (a : List ℕ) → Safe (Commands.remove_contact p a)
  unfolding Commands.remove_contact
  Safe-remove_contact a = Safe-built _ _ Safe-ok

  pub Safe-logout : (a : List ℕ) → Safe (Commands.logout p a)
  unfolding Commands.logout
  Safe-logout a = Safe-built _ _ Safe-ok

  pub Safe-send_node_discovery :
      (a : ℕ) (b : Bool) (c : ℕ) (d : Option ℕ) → Safe (Commands.send_node_discovery p a b c d)
  unfolding Commands.send_node_discovery
  Safe-send_node_discovery a b c d = Safe-built _ _ Safe-ok

  pub Safe-set_device_pin : (a : ℕ) → Safe (Commands.set_device_pin p a)
  unfolding Commands.set_device_pin
  Safe-set_device_pin a = Safe-built _ _ Safe-ok

  pub Safe-login : (a : List ℕ) (b : Text) → Safe (Remote.login p a b)
  unfolding Remote.login
  Safe-login a b = Safe-prefixed a (Peers.send_login a b) "remote login" Remote.login_packet

  pub Safe-remote_status : (a : List ℕ) → Safe (Remote.remote_status p a)
  unfolding Remote.remote_status
  Safe-remote_status a =
      Safe-prefixed a (Peers.send_status_request a) "remote status" Remote.status_packet

  pub Safe-discover_path : (a : List ℕ) → Safe (Remote.discover_path p a)
  unfolding Remote.discover_path
  Safe-discover_path a =
      Safe-prefixed a (Peers.discover_path a) "path discovery" Remote.discovery_packet

  pub Safe-binary_request : (a : List ℕ) (b : ℕ) (c : List ℕ) → Safe (Remote.binary_request p a b c)
  unfolding Remote.binary_request
  Safe-binary_request a b c =
      (Runs-exchange p (Peers.send_binary_request a b c) "binary request"
        (λ tracking. Remote.tagged_packet tracking.ack_code)).valid

  pub Safe-anonymous_request :
      (a : List ℕ) (b : ℕ) (c : ContactRoute) (d : MeshPath)
      → Safe (Remote.anonymous_request p a b c d)
  unfolding Remote.anonymous_request
  Safe-anonymous_request a b c d =
      (Runs-exchange p (Peers.send_anonymous_request a b c d) "anonymous request"
        (λ tracking. Remote.tagged_packet tracking.ack_code)).valid

  pub Safe-send_direct_text :
      (a : ℤ) (b : List ℕ) (c : ℕ) (d : Text) → Safe (Remote.send_direct_text p a b c d)
  unfolding Remote.send_direct_text send_command_expect_msg_sent
  Safe-send_direct_text a b c d = Safe-built (validate_destination_prefix b) _ (λ _.
      Safe-tracked (validate_text d (max_inner_payload - 13) "text")
        (Peers.send_direct_text b (timestamp_of a) c d))

  pub Safe-send_direct_command :
      (a : ℤ) (b : List ℕ) (c : ℕ) (d : Text) → Safe (Remote.send_direct_command p a b c d)
  unfolding Remote.send_direct_command send_command_expect_msg_sent
  Safe-send_direct_command a b c d = Safe-built (validate_destination_prefix b) _ (λ _.
      Safe-tracked (validate_text d (max_inner_payload - 13) "command")
        (Peers.send_direct_command b (timestamp_of a) c d))

  pub Safe-send_channel_message :
      (a : ℤ) (b : ℕ) (c : ℕ) (d : Text) → Safe (Remote.send_channel_message p a b c d)
  unfolding Remote.send_channel_message
  Safe-send_channel_message a b c d =
      Safe-built (validate_text d (max_inner_payload - 7) "text")
        (λ _. send_command_expect_ok p (Peers.send_channel b c (timestamp_of a) d))
        (λ _. Safe-ok (Peers.send_channel b c (timestamp_of a) d))

  pub Safe-list_contacts : (a : Option ℕ) → Safe (Session.list_contacts p a)
  unfolding Session.list_contacts
  Safe-list_contacts a =
      Safe-bind (λ collection. pure collection.contacts) (λ _ c v. v) (Session.collect_contacts p a)
        (Runs-collect_contacts p a).valid

  pub Safe-get_path_hash_mode : Safe (Session.get_path_hash_mode p)
  unfolding Session.get_path_hash_mode
  Safe-get_path_hash_mode =
      Safe-bind path_hash_mode_of Safe-mode (Session.query_device_info p)
        (Runs-query_device_info p).valid
