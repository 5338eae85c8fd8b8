-- ===== src/Client/Runs.antt =====
-- The theorems about the client at concrete inputs.
use meshquill.Protocol.Command.Peers
use meshquill.Client.Remote.{has_connection, export_private_key, import_private_key}
use meshquill.Client.Session.{next_event}
use meshquill.Protocol.Parse.Messages.{parse_ack}
use meshquill.Domain.{Ack, PrivateKeyMaterial, Message, MessageSource, MessageRoute, MessageStatus}
use meshquill.Protocol.Parse.Records.{parse_contact_end}
use meshquill.Client.Contacts.{collect-deliveries, contacts_of, arrivals_of, Delivery}
use meshquill.Protocol.RoundTrip.Runs.{parse-contact_packet, read_somebody, contact_packet}
use meshquill.Client.Deadline.{wait_for_packet_bounded}
use meshquill.Client.Reach.{Reachable-Valid}
use meshquill.Client.Inbox.{validate_optional, wait_for_ack}
use meshquill.Client.Remote.{sign, send_chunks, chunks, chunks_within}
use meshquill.Protocol.Parse.Pieces.{require_len, require_exact_len}
use meshquill.Domain.Values.{try_signature}
use meshquill.Protocol.Parse.Session.{parse_signature, parse_ok, parse_sign_start}
use meshquill.Client.Passing.{passed}
use meshquill.Client.Tracking.{tables-refine, wait_for_ack-acknowledged, without, pushed}
use meshquill.Client.Queue.{keys, Distinct, table_of}
use meshquill.Client.Remote.{login_packet}
use meshquill.Client.Packets.{
  pass_on, parsed, parse_packet, received, received_in_time, next_read, read_within, number,
}
use meshquill.Client.Tables.{discard, take_ack, lookup, remember}
use meshquill.Client.Signing.{sign-pieces, chunk_packets, IsChunk, joined}
use meshquill.Client.Session.{collect}
use meshquill.Client.Awaiting.{commands-Refused, Refused}
use meshquill.Client.Invariant.{WellFormed-empty, Valid}
use meshquill.Common.{
  at, read_u32, slice, slice_from, u32_from_le, All, List, Option, [], arith, length, none, ok,
  refl, replicate, same_bytes, some, true, ℕ, ◌++◌, ◌+◌, ◌∷◌, ◌≡◌, ◌≤◌,
}
use meshquill.Client.Wait.{
  sent_as, await_by, wrote, transport_write, write_raw, send_unless_awaiting, send_raw, expected,
  expecting, send_command_expect_msg_sent_inner, send_command_expect_ok, send_command_expect,
  send_disconnect_command, send_only, wait_for_packet, await,
}
use meshquill.Client.State.{
  ensure_connected, answer, later, with_valid_timeout, Client, client_request_timeout, Script,
  Arrival, Read, SyncState,
}
use meshquill.Protocol.Command.Device.{get_time}
use meshquill.Protocol.Runs.{fixed_point}
use meshquill.Client.Operation
use meshquill.Client.Operation.{created, operated, after}
use meshquill.Protocol.Packet.{into_event, Packet}
use meshquill.Protocol.Parse.{parse, dispatch}
use meshquill.Protocol.PacketCode
use meshquill.Protocol.CommandCode
use meshquill.Protocol.Command.{Command, encode, checked}
use meshquill.Protocol.Command.Device

abbrev quiet : Script
quiet = record {
  arrivals = [];
  buffered = [];
  write_ends = [];
  connect_ends = [];
  disconnect_ends = [];
}

abbrev fresh : Client fixed_point.F64
fresh = with_valid_timeout quiet client_request_timeout

-- A connected client of which the script is to come.
abbrev online : List Arrival → Client fixed_point.F64
online arrivals = record fresh { connected = true; arrivals = arrivals }

online-Valid : (arrivals : List Arrival) → Valid (online arrivals)
unfolding with_valid_timeout
online-Valid arrivals = record {
  pending_table = WellFormed-empty;
  completed_table = WellFormed-empty;
  id_range = (omega arith, omega arith);
  sizes = tt;
  cleared = λ n. cc;
}

Reachable-Valid_example : Valid (after fixed_point Operation.connect fresh)
Reachable-Valid_example =
    Reachable-Valid fixed_point (after fixed_point Operation.connect fresh)
      (operated Operation.connect fresh (created quiet client_request_timeout))

abbrev awaiting : Client fixed_point.F64
awaiting = record (online []) { sync_state = SyncState.awaiting_response }

abbrev any_packet : Packet fixed_point.F64 → Option (Packet fixed_point.F64)
any_packet packet = some packet

abbrev some_key : List ℕ
some_key = replicate 32 7

abbrev key_query : Command
key_query = record { code = CommandCode.has_connection; payload = some_key }

builds_query : Peers.has_connection some_key ≡ ok key_query
unfolding Peers.has_connection
builds_query = refl

abbrev own_key : PrivateKeyMaterial
own_key = record { bytes = replicate 64 7 }

commands-Refused_example :
    Refused (send_only get_time) awaiting
    × Refused (send_disconnect_command get_time) awaiting
    × Refused (send_command_expect fixed_point get_time "any" any_packet) awaiting
    × Refused (send_command_expect_ok fixed_point get_time) awaiting
    × Refused (send_command_expect_msg_sent_inner fixed_point get_time true) awaiting
    × Refused (has_connection fixed_point some_key) awaiting
    × Refused (export_private_key fixed_point) awaiting
    × Refused (import_private_key fixed_point own_key) awaiting
commands-Refused_example =
    commands-Refused fixed_point awaiting get_time "any" any_packet true some_key key_query own_key
      refl builds_query

abbrev soon : List ℕ → Arrival
soon raw = record { delay = 7; what = Read.packet raw }

wait_for_packet_bounded_example :
    (wait_for_packet fixed_point 100 "remote login"
      (login_packet (1 ∷ []))
      (online (soon (0x83 ∷ []) ∷ []))).1.clock
    ≤ 0 + 100
unfolding with_valid_timeout
wait_for_packet_bounded_example =
    wait_for_packet_bounded fixed_point 100 "remote login" (login_packet (1 ∷ []))
      (online (soon (0x83 ∷ []) ∷ []))

abbrev signed_bytes : List ℕ
signed_bytes = replicate 64 9

abbrev signer : Client fixed_point.F64
signer = online (
    soon (0x13 ∷ 0 ∷ 200 ∷ 0 ∷ 0 ∷ 0 ∷ [])
    ∷ soon (0x00 ∷ [])
    ∷ soon (0x00 ∷ [])
    ∷ soon (0x14 ∷ signed_bytes)
    ∷ [])

signs : (sign fixed_point (replicate 121 5) signer).0 ≡ ok (record { bytes = signed_bytes })
unfolding with_valid_timeout Device.sign_start Device.sign_data Device.sign_finish checked encode
    CommandCode.to_u8 PacketCode.from_u8 expecting expected later number parse_sign_start parse_ok
    parse_signature try_signature slice_from slice at read_u32 u32_from_le require_exact_len
    require_len sign send_command_expect send_command_expect_ok send_chunks chunks chunks_within
    send_raw send_unless_awaiting write_raw transport_write wrote answer ensure_connected await
    await_by read_within next_read received_in_time received parse_packet parsed parse dispatch
signs = refl

sign-pieces_example :
    (pieces : List (List ℕ)) × (joined pieces ≡ replicate 121 5)
    × All IsChunk pieces
    × ((sign fixed_point (replicate 121 5) signer).1.written
        ≡ [] ++ ((0x21 ∷ []) ∷ (chunk_packets pieces ++ ((0x23 ∷ []) ∷ []))))
unfolding with_valid_timeout
sign-pieces_example =
    sign-pieces fixed_point (replicate 121 5) signer (record { bytes = signed_bytes }) signs

abbrev two_codes : List (List ℕ × ℕ)
two_codes = (1 ∷ 2 ∷ 3 ∷ 4 ∷ [], 10) ∷ (5 ∷ 6 ∷ 7 ∷ 8 ∷ [], 20) ∷ []

abbrev first_code : List ℕ
first_code = 1 ∷ 2 ∷ 3 ∷ 4 ∷ []

tables-refine_example :
    (remember first_code 30 (table_of two_codes) ≡ table_of (pushed first_code 30 two_codes))
    × (take_ack first_code (table_of two_codes)
        ≡ (lookup first_code two_codes, table_of (without first_code two_codes)))
    × (discard first_code (table_of two_codes) ≡ table_of (without first_code two_codes))
    × Distinct (keys (pushed first_code 30 two_codes))
    × (length (pushed first_code 30 two_codes) ≤ 256)
    × (lookup first_code (pushed first_code 30 two_codes) ≡ some 30)
tables-refine_example =
    tables-refine first_code 30 two_codes (unfold same_bytes in (refl, (refl, tt)))

online_now : (arrivals : List Arrival) → (online arrivals).connected ≡ true
online_now arrivals = refl

arrives_now : (arrivals : List Arrival) → (online arrivals).arrivals ≡ arrivals
arrives_now arrivals = refl

abbrev ack_packet : List ℕ
ack_packet = 0x82 ∷ 1 ∷ 2 ∷ 3 ∷ 4 ∷ 80 ∷ 0 ∷ 0 ∷ 0 ∷ []

abbrev first_ack : Ack
first_ack = record { code = first_code; trip_time_ms = some 80 }

parse-ack_packet : parse fixed_point ack_packet ≡ ok (Packet.ack first_ack)
unfolding parse dispatch PacketCode.from_u8 at parse_ack require_len slice read_u32 u32_from_le
parse-ack_packet = refl

-- What comes between: another message is accepted before the acknowledgement, and acknowledged after.
abbrev earlier : List (Packet fixed_point.F64)
earlier = Packet.msg_sent 0 (5 ∷ 6 ∷ 7 ∷ 8 ∷ []) 500 ∷ Packet.messages_waiting ∷ []

abbrev later_packets : List (Packet fixed_point.F64)
later_packets = Packet.ack (record { code = 5 ∷ 6 ∷ 7 ∷ 8 ∷ []; trip_time_ms = none }) ∷ []

wait_for_ack-acknowledged_example :
    (d : Client fixed_point.F64) × (next_event fixed_point (
        passed earlier
          (sent_as true
            (record { ack_code = first_code; timeout_ms = 500 })
            (online (soon ack_packet ∷ []))).1)
      ≡ some (ok (into_event (Packet.ack first_ack)), d))
    × ((wait_for_ack fixed_point first_code none (passed later_packets d)).0 ≡ ok first_ack)
    × ((wait_for_ack fixed_point first_code none (passed later_packets d)).1.arrivals ≡ [])
    × (lookup first_code
          (wait_for_ack fixed_point first_code none (passed later_packets d)).1.completed.acks
        ≡ none)
wait_for_ack-acknowledged_example =
    wait_for_ack-acknowledged fixed_point first_ack 500 none earlier later_packets 7 ack_packet []
      (online (soon ack_packet ∷ [])) (online-Valid (soon ack_packet ∷ []))
      (online_now (soon ack_packet ∷ [])) (unfold validate_optional in refl)
      (arrives_now (soon ack_packet ∷ [])) parse-ack_packet (unfold same_bytes in (refl, (tt, tt)))
      (omega arith) (unfold same_bytes in (refl, tt)) (omega arith)

-- A message comes while something else is read, between two packets that are no response.
abbrev waiting_packets : List (Packet fixed_point.F64)
waiting_packets = Packet.messages_waiting ∷ []

abbrev greeting : Message
greeting = record {
  observation_id = some 1;
  source = MessageSource.channel 0;
  route = MessageRoute.direct;
  txt_type = 0;
  sender_timestamp = 9;
  signature = none;
  text = b'h' ∷ b'i' ∷ [];
  snr = none;
  status = MessageStatus.received;
}

abbrev deferring : Client fixed_point.F64
deferring =
    passed waiting_packets (pass_on (Packet.channel_msg greeting) (passed waiting_packets awaiting))

abbrev closing_contact : Client fixed_point.F64
closing_contact =
    online (soon contact_packet ∷ soon (0x04 ∷ 5 ∷ 0 ∷ 0 ∷ 0 ∷ []) ∷ soon (0x83 ∷ []) ∷ [])

abbrev delivery : Delivery fixed_point
delivery = record { delay = 7; raw = contact_packet; contact = read_somebody }

parse-end : parse fixed_point (0x04 ∷ 5 ∷ 0 ∷ 0 ∷ 0 ∷ []) ≡ ok (Packet.contact_end 5)
unfolding parse dispatch PacketCode.from_u8 at parse_contact_end require_len read_u32 u32_from_le
parse-end = refl

collect-deliveries_example :
    ((collect fixed_point
        (arrivals_of fixed_point
          (delivery ∷ [])
          (soon (0x04 ∷ 5 ∷ 0 ∷ 0 ∷ 0 ∷ []) ∷ soon (0x83 ∷ []) ∷ []))
        []
        closing_contact).0
      ≡ ok (record { contacts = [] ++ contacts_of fixed_point (delivery ∷ []); lastmod = some 5 }))
    × ((collect fixed_point
          (arrivals_of fixed_point
            (delivery ∷ [])
            (soon (0x04 ∷ 5 ∷ 0 ∷ 0 ∷ 0 ∷ []) ∷ soon (0x83 ∷ []) ∷ []))
          []
          closing_contact).1.arrivals
        ≡ soon (0x83 ∷ []) ∷ [])
unfolding with_valid_timeout
collect-deliveries_example =
    collect-deliveries fixed_point client_request_timeout closing_contact (delivery ∷ []) 7
      (0x04 ∷ 5 ∷ 0 ∷ 0 ∷ 0 ∷ []) 5 (soon (0x83 ∷ []) ∷ []) [] refl
      ((omega arith, parse-contact_packet), tt) (omega arith) parse-end refl
