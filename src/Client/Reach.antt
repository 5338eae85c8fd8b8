-- ===== src/Client/Reach.antt =====
-- The states that a client can come to: every operation keeps the invariant.
use meshquill.Client.Operation.{created, operated}
use meshquill.Client.RemoteLaws.{
  Safe-factory_reset, Safe-reboot, Runs-import, Runs-export, Safe-sign, Safe-has_connection,
}
use meshquill.Client.InboxLaws.{Safe-wait_for_ack, Runs-sync_next_message}
use meshquill.Client.OperationLaws.{
  Safe-send_channel_message, Safe-send_direct_command, Safe-send_direct_text, Safe-discover_path,
  Safe-anonymous_request, Safe-binary_request, Safe-remote_status, Safe-login, Safe-set_device_pin,
  Safe-send_node_discovery, Safe-logout, Safe-remove_contact, Safe-set_channel,
  Safe-set_default_flood_scope, Safe-set_path_hash_mode, Safe-set_custom_var,
  Safe-set_auto_add_config, Safe-import_contact, Safe-share_contact, Safe-update_contact,
  Safe-reset_path, Safe-set_radio_params, Safe-set_tx_power, Safe-set_coordinates,
  Safe-set_advert_name, Safe-clear_channel, Safe-clear_default_flood_scope, Safe-set_flood_scope,
  Safe-set_tuning, Safe-send_self_advert, Safe-set_time, Safe-get_advert_path, Safe-get_contact,
  Safe-export_contact, Safe-get_self_telemetry, Safe-get_channel, Safe-get_default_flood_scope,
  Safe-get_allowed_repeat_frequencies, Safe-get_stats, Safe-get_custom_vars,
  Safe-get_auto_add_config, Safe-get_tuning, Safe-get_battery, Safe-get_time,
  Safe-get_path_hash_mode, Safe-list_contacts,
}
use meshquill.Client.Invariant.{WellFormed-empty, Valid}
use meshquill.Client.SessionLaws.{
  Runs-query_device_info, next_event-Valid, Runs-list_contacts_snapshot, Safe-disconnect,
  Safe-reconnect, Runs-collect_contacts, Safe-connect, Runs-init, Safe-bind, Safe,
}
use meshquill.Client.Operation.{Exchange, Operation, Reachable, done, after, perform}
use meshquill.Platform.{Platform}
use meshquill.Client.State.{pure, Script, Client, with_valid_timeout, Call}
use meshquill.Common.{arith, refl, ℕ}
use meshquill.Client.Session
use meshquill.Client.Queries
use meshquill.Client.Commands
use meshquill.Client.Remote

Safe-done : {F64 A : Type 0} (m : Call F64 A) → Safe m → Safe (done m)
Safe-done m s = Safe-bind (λ _. pure tt) (λ _ c v. v) m s

module _ (p : Platform) where
  open p use {F64}

  perform-Valid : (e : Exchange F64) → Safe (perform p e)
  unfolding perform
  perform-Valid Exchange.init = Safe-done (Session.init p) (Runs-init p).valid
  perform-Valid (Exchange.collect_contacts a) =
      Safe-done (Session.collect_contacts p a) (Runs-collect_contacts p a).valid
  perform-Valid (Exchange.list_contacts a) =
      Safe-done (Session.list_contacts p a) (Safe-list_contacts p a)
  perform-Valid (Exchange.list_contacts_snapshot a) =
      Safe-done (Session.list_contacts_snapshot p a) (Runs-list_contacts_snapshot p a).valid
  perform-Valid Exchange.query_device_info =
      Safe-done (Session.query_device_info p) (Runs-query_device_info p).valid
  perform-Valid Exchange.get_path_hash_mode =
      Safe-done (Session.get_path_hash_mode p) (Safe-get_path_hash_mode p)
  perform-Valid Exchange.get_time = Safe-done (Queries.get_time p) (Safe-get_time p)
  perform-Valid Exchange.get_battery = Safe-done (Queries.get_battery p) (Safe-get_battery p)
  perform-Valid Exchange.get_tuning = Safe-done (Queries.get_tuning p) (Safe-get_tuning p)
  perform-Valid Exchange.get_auto_add_config =
      Safe-done (Queries.get_auto_add_config p) (Safe-get_auto_add_config p)
  perform-Valid Exchange.get_custom_vars =
      Safe-done (Queries.get_custom_vars p) (Safe-get_custom_vars p)
  perform-Valid (Exchange.get_stats a) = Safe-done (Queries.get_stats p a) (Safe-get_stats p a)
  perform-Valid Exchange.get_allowed_repeat_frequencies =
      Safe-done (Queries.get_allowed_repeat_frequencies p) (Safe-get_allowed_repeat_frequencies p)
  perform-Valid Exchange.get_default_flood_scope =
      Safe-done (Queries.get_default_flood_scope p) (Safe-get_default_flood_scope p)
  perform-Valid (Exchange.get_channel a) =
      Safe-done (Queries.get_channel p a) (Safe-get_channel p a)
  perform-Valid Exchange.get_self_telemetry =
      Safe-done (Queries.get_self_telemetry p) (Safe-get_self_telemetry p)
  perform-Valid (Exchange.export_contact a) =
      Safe-done (Queries.export_contact p a) (Safe-export_contact p a)
  perform-Valid (Exchange.get_contact a) =
      Safe-done (Queries.get_contact p a) (Safe-get_contact p a)
  perform-Valid (Exchange.get_advert_path a) =
      Safe-done (Queries.get_advert_path p a) (Safe-get_advert_path p a)
  perform-Valid (Exchange.set_time a) = Safe-done (Commands.set_time p a) (Safe-set_time p a)
  perform-Valid (Exchange.send_self_advert a) =
      Safe-done (Commands.send_self_advert p a) (Safe-send_self_advert p a)
  perform-Valid (Exchange.set_tuning a) = Safe-done (Commands.set_tuning p a) (Safe-set_tuning p a)
  perform-Valid (Exchange.set_flood_scope a) =
      Safe-done (Commands.set_flood_scope p a) (Safe-set_flood_scope p a)
  perform-Valid Exchange.clear_default_flood_scope =
      Safe-done (Commands.clear_default_flood_scope p) (Safe-clear_default_flood_scope p)
  perform-Valid (Exchange.clear_channel a) =
      Safe-done (Commands.clear_channel p a) (Safe-clear_channel p a)
  perform-Valid (Exchange.set_advert_name a) =
      Safe-done (Commands.set_advert_name p a) (Safe-set_advert_name p a)
  perform-Valid (Exchange.set_coordinates a b) =
      Safe-done (Commands.set_coordinates p a b) (Safe-set_coordinates p a b)
  perform-Valid (Exchange.set_tx_power a) =
      Safe-done (Commands.set_tx_power p a) (Safe-set_tx_power p a)
  perform-Valid (Exchange.set_radio_params a) =
      Safe-done (Commands.set_radio_params p a) (Safe-set_radio_params p a)
  perform-Valid (Exchange.reset_path a) = Safe-done (Commands.reset_path p a) (Safe-reset_path p a)
  perform-Valid (Exchange.update_contact a) =
      Safe-done (Commands.update_contact p a) (Safe-update_contact p a)
  perform-Valid (Exchange.share_contact a) =
      Safe-done (Commands.share_contact p a) (Safe-share_contact p a)
  perform-Valid (Exchange.import_contact a) =
      Safe-done (Commands.import_contact p a) (Safe-import_contact p a)
  perform-Valid (Exchange.set_auto_add_config a) =
      Safe-done (Commands.set_auto_add_config p a) (Safe-set_auto_add_config p a)
  perform-Valid (Exchange.set_custom_var a b) =
      Safe-done (Commands.set_custom_var p a b) (Safe-set_custom_var p a b)
  perform-Valid (Exchange.set_path_hash_mode a) =
      Safe-done (Commands.set_path_hash_mode p a) (Safe-set_path_hash_mode p a)
  perform-Valid (Exchange.set_default_flood_scope a b) =
      Safe-done (Commands.set_default_flood_scope p a b) (Safe-set_default_flood_scope p a b)
  perform-Valid (Exchange.set_channel a b c) =
      Safe-done (Commands.set_channel p a b c) (Safe-set_channel p a b c)
  perform-Valid (Exchange.remove_contact a) =
      Safe-done (Commands.remove_contact p a) (Safe-remove_contact p a)
  perform-Valid (Exchange.logout a) = Safe-done (Commands.logout p a) (Safe-logout p a)
  perform-Valid (Exchange.send_node_discovery a b c d) =
      Safe-done (Commands.send_node_discovery p a b c d) (Safe-send_node_discovery p a b c d)
  perform-Valid (Exchange.set_device_pin a) =
      Safe-done (Commands.set_device_pin p a) (Safe-set_device_pin p a)
  perform-Valid (Exchange.login a b) = Safe-done (Remote.login p a b) (Safe-login p a b)
  perform-Valid (Exchange.remote_status a) =
      Safe-done (Remote.remote_status p a) (Safe-remote_status p a)
  perform-Valid (Exchange.binary_request a b c) =
      Safe-done (Remote.binary_request p a b c) (Safe-binary_request p a b c)
  perform-Valid (Exchange.anonymous_request a b c d) =
      Safe-done (Remote.anonymous_request p a b c d) (Safe-anonymous_request p a b c d)
  perform-Valid (Exchange.discover_path a) =
      Safe-done (Remote.discover_path p a) (Safe-discover_path p a)
  perform-Valid (Exchange.has_connection a) =
      Safe-done (Remote.has_connection p a) (Safe-has_connection p a)
  perform-Valid (Exchange.sign a) = Safe-done (Remote.sign p a) (Safe-sign p a)
  perform-Valid Exchange.export_private_key =
      Safe-done (Remote.export_private_key p) (Runs-export p).valid
  perform-Valid (Exchange.import_private_key a) =
      Safe-done (Remote.import_private_key p a) (Runs-import p a).valid
  perform-Valid (Exchange.send_direct_text a b c d) =
      Safe-done (Remote.send_direct_text p a b c d) (Safe-send_direct_text p a b c d)
  perform-Valid (Exchange.send_direct_command a b c d) =
      Safe-done (Remote.send_direct_command p a b c d) (Safe-send_direct_command p a b c d)
  perform-Valid (Exchange.send_channel_message a b c d) =
      Safe-done (Remote.send_channel_message p a b c d) (Safe-send_channel_message p a b c d)
  perform-Valid Exchange.reboot = Safe-done Commands.reboot Safe-reboot
  perform-Valid Exchange.factory_reset = Safe-done Commands.factory_reset Safe-factory_reset

  -- Every operation of the client, whether it succeeds or not, keeps the invariant: the tables of
  -- pending and of completed acknowledgements are queues of at most 256 entries with distinct
  -- codes whose order is the map's, the next observation identifier is from 1 to 2^64 - 1, every
  -- payload given to the transport has from 1 to 176 bytes, and a client that is not connected
  -- tracks no acknowledgement and awaits and keeps no sync response.
  after-Valid : (op : Operation F64) (c : Client F64) → Valid c → Valid (after p op c)
  unfolding after
  after-Valid Operation.connect c v = Safe-connect p c v
  after-Valid Operation.reconnect c v = Safe-reconnect p c v
  after-Valid Operation.disconnect c v = Safe-disconnect c v
  after-Valid Operation.next_event c v = next_event-Valid p c v
  after-Valid Operation.sync_next_message c v = (Runs-sync_next_message p).valid c v
  after-Valid (Operation.wait_for_ack ack_code timeout) c v =
      Safe-wait_for_ack p ack_code timeout c v
  after-Valid (Operation.exchange e) c v = perform-Valid e c v

  Valid-with_valid_timeout :
      (script : Script) (request_timeout : ℕ)
      → Valid {F64 = F64} (with_valid_timeout script request_timeout)
  unfolding with_valid_timeout
  Valid-with_valid_timeout script request_timeout = record {
    pending_table = WellFormed-empty;
    completed_table = WellFormed-empty;
    id_range = (omega arith, omega arith);
    sizes = tt;
    cleared = λ n. (refl, refl, refl, refl);
  }

  -- The invariant holds in every state that a new client, with whatever timeout and transport,
  -- comes to by any sequence of operations.
  pub Reachable-Valid : (c : Client F64) → Reachable p c → Valid c
  Reachable-Valid _ (created script request_timeout) =
      Valid-with_valid_timeout script request_timeout
  Reachable-Valid _ (operated op c r) = after-Valid op c (Reachable-Valid c r)
