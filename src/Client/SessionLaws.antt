-- ===== src/Client/SessionLaws.antt =====
-- Sessions keep the invariant: opening and closing, unsolicited events, contacts.
use meshquill.Protocol.Command.Peers.{get_contacts}
use meshquill.Client.Packets.{received, read_next_packet_with_timeout, pass_on}
use meshquill.Protocol.Command.Device.{device_query, app_start}
use meshquill.Client.Loops.{read_then, Keeps-await, Fine-unless_error, Fine-stop}
use meshquill.Client.Rules.{Keeps-received, Keeps-send_raw, fine_stop, Fine}
use meshquill.Protocol.Command.{encode, Command}
use meshquill.Protocol.Packet.{into_event, Packet}
use meshquill.Domain.{Contact, Event, SelfInfo}
use meshquill.Client.Primitives.{
  Stable-pass_on, Stable-publish_event, Stable-unsolicited, Valid-mark_disconnected,
}
use meshquill.Platform.{Platform}
use meshquill.Client.Wait.{await, send_raw, send_only}
use meshquill.Client.Session.{
  unsolicited_if, next_unsolicited, collect_contacts, list_contacts_snapshot, next_event,
  query_device_info, snapshot_of, ContactCollection, collect, connect, init, reconnect,
  set_connected, start_session, unsolicited, contact_arms, device_info_arms, disconnect, emitted,
  init_arms, opened,
}
use meshquill.Error.{protocol_invariant, CoreError, TransportError}
use meshquill.Client.Invariant.{
  Runs-ensure_connected, Keeps-Runs, Keeps-modify, Keeps-bind, Keeps-raise, Keeps-pure, Runs-bind,
  Keeps, Runs, WellFormed-empty, Valid,
}
use meshquill.Common.{
  if◌then◌else◌, Bool, false, true, ◌+◌, Option-cases, inl, inr, ℕ, ◌≡◌, List, Option, Outcome, [],
  err, none, ok, panic, refl, some, ◌∷◌,
}
use meshquill.Client.State.{
  ensure_connected, Arrival, mark_disconnected, answer, clear_sync_tracking, ended, proceed,
  clear_tracking, transport_connect, transport_disconnect, ◌>>=◌, ◌>>◌, raise, Client, Call, modify,
}

-- A call that keeps the invariant, whatever it returns.
module _ {F64 : Type 0} where
  abbrev pub Safe : {A : Type 0} → Call F64 A → Type 0
  Safe m = (c : Client F64) → Valid c → Valid (m c).1

  pub Safe-proceed :
      {A B : Type 0} (f : A → Call F64 B)
      → ((a : A) → Safe (f a))
      → (o : Outcome CoreError A) → (c : Client F64) → Valid c
      → Valid (proceed f o c).1
  Safe-proceed f s (ok a) c v = s a c v
  Safe-proceed f s (err e) c v = v
  Safe-proceed f s panic c v = v

  pub Safe-bind :
      {A B : Type 0} (f : A → Call F64 B)
      → ((a : A) → Safe (f a))
      → (m : Call F64 A) → Safe m
      → Safe (m >>= f)
  Safe-bind f s m sm c v = Safe-proceed f s (m c).0 (m c).1 (sm c v)

  guarded-Valid :
      {A : Type 0} (m : Call F64 A) (b : Bool) (c : Client F64)
      → Valid c
      → c.connected ≡ b
      → ((d : Client F64) → Valid d → d.connected ≡ true → Valid (m d).1)
      → Valid
          (proceed {A = Unit {0}} (λ _. m) (if b then ok tt else err CoreError.disconnected) c).1
  guarded-Valid m true c v h k = k c v h
  guarded-Valid m false c v h k = v

  -- What follows `ensure_connected` starts connected.
  pub Safe-guarded :
      {A : Type 0} (m : Call F64 A)
      → ((c : Client F64) → Valid c → c.connected ≡ true → Valid (m c).1)
      → Safe (ensure_connected >> m)
  unfolding ensure_connected
  Safe-guarded m k c v = guarded-Valid m c.connected c v refl k

  Safe-ended : (o : Option TransportError) → Safe {A = Unit {0}} (ended o)
  Safe-ended none c v = v
  Safe-ended (some e) c v = v

  Safe-transport_connect : Safe {A = Unit {0}} transport_connect
  unfolding transport_connect
  Safe-transport_connect c v = Safe-ended (answer c.connect_ends) _ v

  pub Safe-transport_disconnect : Safe {A = Unit {0}} transport_disconnect
  unfolding transport_disconnect
  Safe-transport_disconnect c v = Safe-ended (answer c.disconnect_ends) _ v

  Valid-set_connected : (c : Client F64) → Valid c → Valid (set_connected c)
  Valid-set_connected c v = record {
    pending_table = v.pending_table;
    completed_table = v.completed_table;
    id_range = v.id_range;
    sizes = v.sizes;
    cleared = λ n. cc;
  }

  Valid-clear : (c : Client F64) → Valid c → Valid (clear_sync_tracking (clear_tracking c))
  unfolding clear_tracking clear_sync_tracking
  Valid-clear c v = record {
    pending_table = WellFormed-empty;
    completed_table = WellFormed-empty;
    id_range = v.id_range;
    sizes = v.sizes;
    cleared = λ n. (refl, refl, refl, refl);
  }

  pub Safe-disconnect : Safe {A = Unit {0}} disconnect
  unfolding disconnect
  Safe-disconnect c v =
      Valid-mark_disconnected (transport_disconnect c).1 (Safe-transport_disconnect c v)

  Safe-opened : (o : Outcome CoreError (SelfInfo F64)) → Safe {A = SelfInfo F64} (opened o)
  unfolding opened
  Safe-opened (ok info) c v = v
  Safe-opened (err e) c v =
      Valid-mark_disconnected (transport_disconnect c).1 (Safe-transport_disconnect c v)
  Safe-opened panic c v = v

  Fine-init_arms : (packet : Packet F64) → Fine (init_arms packet)
  unfolding init_arms
  Fine-init_arms (Packet.self_info info) = fine_stop _ (record {
    valid = λ c v h. (Stable-publish_event (Packet.self_info info)).valid c v h;
    connected = λ c a h e. (Stable-publish_event (Packet.self_info info)).connected c h;
  })
  Fine-init_arms other = Fine-unless_error (protocol_invariant "APP_START returned an error") other

  Fine-device_info_arms : (packet : Packet F64) → Fine (device_info_arms packet)
  unfolding device_info_arms
  Fine-device_info_arms (Packet.device_info info) = Fine-stop info
  Fine-device_info_arms other =
      Fine-unless_error (protocol_invariant "device query returned an error") other

  Keeps-emitted : (o : Option (Event F64)) → Keeps (emitted o)
  unfolding emitted
  Keeps-emitted none = Keeps-pure none
  Keeps-emitted (some event) = record { valid = λ c v h. v; connected = λ c a h e. h }

  Keeps-contact_arms :
      (packet : Packet F64) (contacts : List (Contact F64))
      (next : List (Contact F64) → Call F64 (ContactCollection F64))
      → ((cs : List (Contact F64)) → Keeps (next cs))
      → Keeps (contact_arms packet contacts next)
  unfolding contact_arms
  Keeps-contact_arms (Packet.contact contact) contacts next k = k _
  Keeps-contact_arms (Packet.contact_end lastmod) contacts next k = Keeps-pure _
  Keeps-contact_arms Packet.no_more_msgs contacts next k = Keeps-pure _
  Keeps-contact_arms (Packet.error code) contacts next k = Keeps-raise _
  Keeps-contact_arms other contacts next k =
      Keeps-bind (λ _. next contacts) (λ _. k contacts) (modify (pass_on other))
        (Keeps-modify (pass_on other) (Stable-pass_on other))

  pub Runs-send_only : (command : Command) → Runs {F64 = F64} (send_only command)
  unfolding send_only
  Runs-send_only command =
      Runs-bind (λ _. send_raw (encode command)) (λ _. Keeps-send_raw (encode command))
        ensure_connected Runs-ensure_connected

-- The client after a call that may wait for ever.
abbrev pub left_by :
    {F64 A : Type 0} → Option (Outcome CoreError A × Client F64) → Client F64 → Client F64
left_by none c = c
left_by (some result) c = result.1

module _ (p : Platform) where
  open p use {F64}

  pub Runs-init : Runs (init p)
  unfolding init
  Runs-init =
      Runs-bind (λ _. send_only app_start >> await p init_arms)
        (λ _.
          Keeps-bind (λ _. await p init_arms) (λ _. Keeps-await p init_arms Fine-init_arms)
            (send_only app_start) (Keeps-Runs (send_only app_start) (Runs-send_only app_start)))
        ensure_connected Runs-ensure_connected

  Safe-start_session : Safe (start_session p)
  unfolding start_session
  Safe-start_session c v =
      Safe-opened (init p (set_connected c)).0 (init p (set_connected c)).1
        (Runs-init.valid (set_connected c) (Valid-set_connected c v))

  pub Safe-connect : Safe (connect p)
  unfolding connect
  Safe-connect c v =
      Safe-bind (λ _. start_session p) (λ _. Safe-start_session) transport_connect
        Safe-transport_connect (clear_sync_tracking (clear_tracking c)) (Valid-clear c v)

  pub Safe-reconnect : Safe (reconnect p)
  unfolding reconnect
  Safe-reconnect c v =
      Safe-bind (λ _. start_session p) (λ _. Safe-start_session) transport_connect
        Safe-transport_connect (mark_disconnected c) (Valid-mark_disconnected c v)

  Keeps-unsolicited : (packet : Packet F64) → Keeps (unsolicited p packet)
  unfolding unsolicited
  Keeps-unsolicited packet = record {
    valid = λ c v h.
        (Keeps-emitted (into_event packet)).valid _ ((Stable-unsolicited packet).valid c v h)
          ((Stable-unsolicited packet).connected c h);
    connected = λ c a h e.
        (Keeps-emitted (into_event packet)).connected _ a
          ((Stable-unsolicited packet).connected c h) e;
  }

  Keeps-collect :
      (arrivals : List Arrival) (contacts : List (Contact F64))
      → Keeps (collect p arrivals contacts)
  unfolding collect read_next_packet_with_timeout
  Keeps-collect [] contacts =
      read_then p (λ c. c.request_timeout) (λ packet. raise CoreError.timeout)
        (λ packet. Keeps-raise CoreError.timeout)
  Keeps-collect (a ∷ arrivals) contacts =
      read_then p (λ c. c.request_timeout)
        (λ packet. contact_arms packet contacts (collect p arrivals))
        (λ packet. Keeps-contact_arms packet contacts (collect p arrivals) (Keeps-collect arrivals))

  pub Runs-collect_contacts : (lastmod : Option ℕ) → Runs (collect_contacts p lastmod)
  unfolding collect_contacts
  Runs-collect_contacts lastmod =
      Runs-bind (λ _. send_only (get_contacts lastmod) >> (λ c. collect p c.arrivals [] c))
        (λ _.
          Keeps-bind (λ _ c. collect p c.arrivals [] c) (λ _. Keeps-collect_all)
            (send_only (get_contacts lastmod))
            (Keeps-Runs (send_only (get_contacts lastmod)) (Runs-send_only (get_contacts lastmod))))
        ensure_connected Runs-ensure_connected
    where
      Keeps-collect_all : Keeps {F64 = F64} (λ c. collect p c.arrivals [] c)
      Keeps-collect_all = record {
        valid = λ c v h. (Keeps-collect c.arrivals []).valid c v h;
        connected = λ c a h e. (Keeps-collect c.arrivals []).connected c a h e;
      }

  Keeps-snapshot_of : (collection : ContactCollection F64) → Keeps (snapshot_of collection)
  unfolding snapshot_of
  Keeps-snapshot_of collection = elim (Option-cases collection.lastmod) [
    | inl e ↦ rw e (Keeps-raise _)
    | inr (lastmod, e) ↦ rw e (Keeps-pure _)
  ]

  pub Runs-list_contacts_snapshot : (lastmod : Option ℕ) → Runs (list_contacts_snapshot p lastmod)
  unfolding list_contacts_snapshot
  Runs-list_contacts_snapshot lastmod =
      Runs-bind snapshot_of Keeps-snapshot_of (collect_contacts p lastmod)
        (Runs-collect_contacts lastmod)

  pub Runs-query_device_info : Runs (query_device_info p)
  unfolding query_device_info
  Runs-query_device_info =
      Runs-bind (λ _. send_only device_query >> await p device_info_arms)
        (λ _.
          Keeps-bind (λ _. await p device_info_arms)
            (λ _. Keeps-await p device_info_arms Fine-device_info_arms) (send_only device_query)
            (Keeps-Runs (send_only device_query) (Runs-send_only device_query)))
        ensure_connected Runs-ensure_connected

  next_unsolicited-Valid :
      (arrivals : List Arrival) (c : Client F64)
      → Valid c
      → c.connected ≡ true
      → Valid (left_by (next_unsolicited p arrivals c) c)
  unfolding next_unsolicited
  next_unsolicited-Valid [] c v h = v
  next_unsolicited-Valid (a ∷ arrivals) c v h =
      (Keeps-bind (unsolicited p) Keeps-unsolicited (received p a.what)
          (Keeps-received p a.what)).valid
        (record c { clock = c.clock + a.delay; arrivals = arrivals }) v h

  unsolicited_if-Valid :
      (b : Bool) (c : Client F64)
      → Valid c
      → c.connected ≡ b
      → Valid (left_by (unsolicited_if p b c) c)
  unfolding unsolicited_if
  unsolicited_if-Valid true c v h = next_unsolicited-Valid c.arrivals c v h
  unsolicited_if-Valid false c v h = v

  pub next_event-Valid : (c : Client F64) → Valid c → Valid (left_by (next_event p c) c)
  unfolding next_event
  next_event-Valid c v = unsolicited_if-Valid c.connected c v refl
