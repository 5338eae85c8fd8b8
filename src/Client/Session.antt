-- ===== src/Client/Session.antt =====
-- Opening and closing a session, unsolicited events, contacts and device metadata.
use meshquill.Client.Wait.{Reaction, stop}
use meshquill.Client.State.{◌>>=◌, ◌>>◌, pure, raise, Client, Call, Arrival, modify}
use meshquill.Error.{protocol_invariant, CoreError}
use meshquill.Protocol.Packet.{into_event, Packet}
use meshquill.Platform.{Platform}
use meshquill.Client.Packets.{
  update_tracking, read_next_packet_with_timeout, received, retain_sync_response, pass_on,
  publish_event,
}
use meshquill.Domain.{SelfInfo, Contact, ContactSnapshot, DeviceInfo, Event}
use meshquill.Common.{
  Bool, false, List, Option, Outcome, [], err, none, ok, panic, some, true, ℕ, ◌++◌, ◌+◌, ◌∷◌,
}
use meshquill.Client.Wait.{await, send_only, unless_error, Reaction, stop}
use meshquill.Client.State.{
  clear_sync_tracking, transport_connect, clear_tracking, ensure_connected, mark_disconnected,
  publish_domain_event, transport_disconnect, ◌>>=◌, ◌>>◌, pure, raise, Client, Call, Arrival,
  modify,
}
use meshquill.Protocol.Command.Device.{app_start, device_query}
use meshquill.Protocol.Command.Peers.{get_contacts}

pub record ContactCollection (F64 : Type 0) : Type 0 where
  pub contacts : List (Contact F64)
  pub lastmod : Option ℕ

module _ {F64 : Type 0} where
  unfoldable pub init_arms : Packet F64 → Reaction F64 (SelfInfo F64)
  unfolding publish_event unless_error
  init_arms (Packet.self_info info) = stop (λ c. (ok info, publish_event (Packet.self_info info) c))
  init_arms other = unless_error (protocol_invariant "APP_START returned an error") other

  -- The end of `connect` and `reconnect`: a session that did not start is closed.
  unfoldable pub opened : Outcome CoreError (SelfInfo F64) → Call F64 (SelfInfo F64)
  unfolding transport_disconnect mark_disconnected
  opened (ok info) c = (ok info, publish_domain_event Event.connected c)
  opened (err e) c = (err e, mark_disconnected (transport_disconnect c).1)
  opened panic c = (panic, c)

  unfoldable pub disconnect : Call F64 (Unit {0})
  unfolding transport_disconnect mark_disconnected
  disconnect c = let result = transport_disconnect c in (result.0, mark_disconnected result.1)

  abbrev pub set_connected : Client F64 → Client F64
  set_connected c = record c { connected = true }

  -- An event that is returned is published too.
  unfoldable pub emitted : Option (Event F64) → Call F64 (Option (Event F64))
  emitted none c = (ok none, c)
  emitted (some event) c = (ok (some event), publish_domain_event event c)

  unfoldable pub contact_arms :
      Packet F64
      → List (Contact F64)
      → (List (Contact F64) → Call F64 (ContactCollection F64))
      → Call F64 (ContactCollection F64)
  unfolding pass_on
  contact_arms (Packet.contact contact) contacts next = next (contacts ++ (contact ∷ []))
  contact_arms (Packet.contact_end lastmod) contacts next =
      pure (record { contacts = contacts; lastmod = some lastmod })
  contact_arms Packet.no_more_msgs contacts next =
      pure (record { contacts = contacts; lastmod = none })
  contact_arms (Packet.error code) contacts next =
      raise (protocol_invariant "contact request returned an error")
  contact_arms other contacts next = modify (pass_on other) >> next contacts

  unfoldable pub snapshot_of : ContactCollection F64 → Call F64 (ContactSnapshot F64)
  snapshot_of collection = elim collection.lastmod [
    | none ↦ raise (protocol_invariant "contact snapshot ended without a last-modified marker")
    | some lastmod ↦ pure (record { contacts = collection.contacts; lastmod = lastmod })
  ]

  unfoldable pub device_info_arms : Packet F64 → Reaction F64 DeviceInfo
  unfolding unless_error
  device_info_arms (Packet.device_info info) = stop (pure info)
  device_info_arms other = unless_error (protocol_invariant "device query returned an error") other

  unfoldable pub path_hash_mode_of : DeviceInfo → Call F64 ℕ
  path_hash_mode_of info = elim info.path_hash_mode [
    | none ↦ raise (protocol_invariant "device info does not include path hash mode")
    | some mode ↦ pure mode
  ]

module _ (p : Platform) where
  open p use {F64}

  unfoldable pub init : Call F64 (SelfInfo F64)
  unfolding ensure_connected send_only app_start await init_arms
  init = do ensure_connected; send_only app_start; await p init_arms

  -- `self.connected = true; match self.init().await { .. }`
  unfoldable pub start_session : Call F64 (SelfInfo F64)
  unfolding init opened
  start_session c = let started = init (set_connected c) in opened started.0 started.1

  unfoldable pub connect : Call F64 (SelfInfo F64)
  unfolding clear_tracking clear_sync_tracking transport_connect start_session
  connect = do
    modify (λ c. clear_sync_tracking (clear_tracking c))
    transport_connect
    start_session

  unfoldable pub reconnect : Call F64 (SelfInfo F64)
  unfolding mark_disconnected transport_connect start_session
  reconnect = do modify mark_disconnected; transport_connect; start_session

  -- `next_event` from the packet on.
  unfoldable pub unsolicited : Packet F64 → Call F64 (Option (Event F64))
  unfolding retain_sync_response update_tracking emitted into_event
  unsolicited packet c =
      emitted (into_event packet) (update_tracking packet (retain_sync_response packet c))

  -- The read of `next_event` has no limit: `none` when nothing is left to arrive.
  unfoldable pub next_unsolicited :
      List Arrival → Client F64 → Option (Outcome CoreError (Option (Event F64)) × Client F64)
  unfolding received unsolicited
  next_unsolicited [] c = none
  next_unsolicited (a ∷ arrivals) c = some (
      (received p a.what >>= unsolicited)
        (record c { clock = c.clock + a.delay; arrivals = arrivals }))

  -- `next_event` with the flag `connected`.
  unfoldable pub unsolicited_if :
      Bool → Client F64 → Option (Outcome CoreError (Option (Event F64)) × Client F64)
  unfolding next_unsolicited
  unsolicited_if true c = next_unsolicited c.arrivals c
  unsolicited_if false c = some (err CoreError.disconnected, c)

  unfoldable pub next_event :
      Client F64 → Option (Outcome CoreError (Option (Event F64)) × Client F64)
  unfolding unsolicited_if
  next_event c = unsolicited_if c.connected c

  -- The loop of `collect_contacts`.
  unfoldable pub collect : List Arrival → List (Contact F64) → Call F64 (ContactCollection F64)
  unfolding read_next_packet_with_timeout contact_arms
  collect [] contacts c = (read_next_packet_with_timeout p >>= λ packet. raise CoreError.timeout) c
  collect (a ∷ arrivals) contacts c =
      (read_next_packet_with_timeout p >>= λ packet.
      contact_arms packet contacts (collect arrivals))
        c

  unfoldable pub collect_contacts : Option ℕ → Call F64 (ContactCollection F64)
  unfolding ensure_connected send_only get_contacts collect
  collect_contacts lastmod = do
    ensure_connected
    send_only (get_contacts lastmod)
    λ c. collect c.arrivals [] c

  unfoldable pub list_contacts : Option ℕ → Call F64 (List (Contact F64))
  unfolding collect_contacts
  list_contacts lastmod = do collection ← collect_contacts lastmod; pure collection.contacts

  unfoldable pub list_contacts_snapshot : Option ℕ → Call F64 (ContactSnapshot F64)
  unfolding collect_contacts snapshot_of
  list_contacts_snapshot lastmod = do collection ← collect_contacts lastmod; snapshot_of collection

  unfoldable pub query_device_info : Call F64 DeviceInfo
  unfolding ensure_connected send_only device_query await device_info_arms
  query_device_info = do ensure_connected; send_only device_query; await p device_info_arms

  unfoldable pub get_path_hash_mode : Call F64 ℕ
  unfolding query_device_info path_hash_mode_of
  get_path_hash_mode = do info ← query_device_info; path_hash_mode_of info
