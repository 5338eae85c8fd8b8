-- ===== src/Client/Deferred.antt =====
-- The answer to a sync request that comes while something else is read.
use meshquill.Platform.{Platform}
use meshquill.Error.{CoreError, protocol_invariant}
use meshquill.Domain.{Message}
use meshquill.Protocol.Packet.{Packet}
use meshquill.Client.State.{Client}
use meshquill.Common.{Option, Outcome, err, none, ok, some}

-- What `sync_next_message` is to give for a packet, if the packet answers a sync request.
abbrev pub answers : {F64 : Type 0} → Packet F64 → Option (Outcome CoreError (Option Message))
answers (Packet.contact_msg m) = some (ok (some m))
answers (Packet.channel_msg m) = some (ok (some m))
answers Packet.no_more_msgs = some (ok none)
answers (Packet.error code) = some (err (protocol_invariant "sync next message returned an error"))
answers packet = none
