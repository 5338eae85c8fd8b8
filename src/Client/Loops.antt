-- ===== src/Client/Loops.antt =====
-- A loop of reads keeps the invariant when its arms do, and so do the commands built from it.
use meshquill.Domain.{CommandTracking}
use meshquill.Client.Primitives.{Stable-pass_on}
use meshquill.Protocol.Command.{encode, Command}
use meshquill.Client.Packets.{read_within, pass_on}
use meshquill.Client.Invariant.{
  WellFormed-discard, WellFormed-remember, Runs-ensure_connected, Runs-bind, Keeps-bind, Keeps-pure,
  Keeps-raise, Keeps, Runs,
}
use meshquill.Client.Wait.{
  PacketWait, waiting, expected, msg_sent_arms, send_command_expect_msg_sent_inner, sent_as,
  wait_for_packet, waited, react, send_raw, ok_arms, await, await_by, await_until, expecting,
  Reaction, go_on, refuse, send_command_expect, send_command_expect_ok, stop, unless_error,
  unless_refused, unless_rejected,
}
use meshquill.Client.Rules.{
  Keeps-send_raw, Keeps-react, Keeps-read_within, fine_go, fine_stop, Fine,
}
use meshquill.Error.{CoreError}
use meshquill.Protocol.Packet.{Packet}
use meshquill.Platform.{Platform}
use meshquill.Common.{Bool, false, none, some, true, List, Option, String, [], ℕ, ◌+◌, ◌-◌, ◌∷◌}
use meshquill.Client.State.{Arrival, ensure_connected, ◌>>=◌, ◌>>◌, pure, raise, Client, Call}

module _ (p : Platform) {A : Type 0} where
  open p use {F64}

  pub read_then :
      (limit : Client F64 → ℕ) (next : Packet F64 → Call F64 A)
      → ((packet : Packet F64) → Keeps (next packet))
      → Keeps (λ c. (read_within p (limit c) >>= next) c)
  read_then limit next k = record {
    valid = λ c v h.
        (Keeps-bind next k (read_within p (limit c)) (Keeps-read_within p (limit c))).valid c v h;
    connected = λ c a h e.
        (Keeps-bind next k (read_within p (limit c)) (Keeps-read_within p (limit c))).connected c a
          h e;
  }

  module _ (limit : Client F64 → ℕ) (arms : Packet F64 → Reaction F64 A)
      (fine : (packet : Packet F64) → Fine (arms packet)) where
    Keeps-await_by : (arrivals : List Arrival) → Keeps (await_by p limit arms arrivals)
    unfolding await_by
    Keeps-await_by [] =
        read_then limit (λ packet. raise CoreError.timeout) (λ packet. Keeps-raise _)
    Keeps-await_by (a ∷ arrivals) =
        read_then limit (λ packet. react (arms packet) (await_by p limit arms arrivals))
          (λ packet. Keeps-react (arms packet) _ (fine packet) (Keeps-await_by arrivals))

  module _ (arms : Packet F64 → Reaction F64 A)
      (fine : (packet : Packet F64) → Fine (arms packet)) where
    pub Keeps-await : Keeps (await p arms)
    unfolding await
    Keeps-await = record {
      valid =
          λ c v h. (Keeps-await_by (λ now. now.request_timeout) arms fine c.arrivals).valid c v h;
      connected = λ c a h e.
          (Keeps-await_by (λ now. now.request_timeout) arms fine c.arrivals).connected c a h e;
    }

    pub Keeps-await_until : (limit : ℕ) → Keeps (await_until p limit arms)
    unfolding await_until
    Keeps-await_until limit = record {
      valid = λ c v h.
          (Keeps-await_by (λ now. (c.clock + limit) - now.clock) arms fine c.arrivals).valid c v h;
      connected = λ c a h e.
          (Keeps-await_by (λ now. (c.clock + limit) - now.clock) arms fine c.arrivals).connected c a
            h e;
    }

    -- The shape of a command: connected, written, and answered.
    pub Runs-command :
        (payload : List ℕ) → Runs (ensure_connected >> (send_raw payload >> await p arms))
    Runs-command payload =
        Runs-bind (λ _. send_raw payload >> await p arms)
          (λ _.
            Keeps-bind (λ _. await p arms) (λ _. Keeps-await) (send_raw payload)
              (Keeps-send_raw payload))
          ensure_connected Runs-ensure_connected

-- The arms that refuse.
module _ {F64 A : Type 0} where
  pub Fine-pass_on : (packet : Packet F64) → Fine {A = A} (go_on (pass_on packet))
  Fine-pass_on packet = fine_go (pass_on packet) (Stable-pass_on packet)

  pub Fine-refuse : (e : CoreError) → Fine {F64 = F64} {A = A} (refuse e)
  Fine-refuse e = fine_stop (raise e) (Keeps-raise e)

  pub Fine-stop : (a : A) → Fine {F64 = F64} (stop (pure a))
  Fine-stop a = fine_stop (pure a) (Keeps-pure a)

  pub Fine-unless_error :
      (e : CoreError) (packet : Packet F64) → Fine {A = A} (unless_error e packet)
  unfolding unless_error
  Fine-unless_error e (Packet.error code) = Fine-refuse e
  Fine-unless_error e other = Fine-pass_on other

  pub Fine-unless_rejected :
      (operation : String) (packet : Packet F64) → Fine {A = A} (unless_rejected operation packet)
  unfolding unless_rejected
  Fine-unless_rejected operation (Packet.error code) = Fine-refuse _
  Fine-unless_rejected operation other = Fine-pass_on other

  pub Fine-unless_refused :
      (feature operation : String) (packet : Packet F64)
      → Fine {A = A} (unless_refused feature operation packet)
  unfolding unless_refused
  Fine-unless_refused feature operation Packet.disabled = Fine-refuse _
  Fine-unless_refused feature operation other = Fine-unless_rejected operation other

  pub Fine-expected :
      (context : String) (packet : Packet F64) (o : Option A) → Fine (expected context packet o)
  unfolding expected
  Fine-expected context packet none = Fine-unless_refused context context packet
  Fine-expected context packet (some value) = Fine-stop value

  pub Fine-waited :
      (context : String) (packet : Packet F64) (w : PacketWait A) → Fine (waited context packet w)
  unfolding waited
  Fine-waited context packet (PacketWait.ready value) = Fine-stop value
  Fine-waited context packet (PacketWait.fail e) = Fine-refuse e
  Fine-waited context packet PacketWait.continue = Fine-unless_refused context context packet

-- A message that was sent, tracked or not.
module _ {F64 : Type 0} where
  Keeps-sent :
      (track_ack : Bool) (tracking : CommandTracking)
      → Keeps {F64 = F64} (sent_as track_ack tracking)
  unfolding sent_as
  Keeps-sent false tracking = Keeps-pure tracking
  Keeps-sent true tracking = record {
    valid = λ c v h. record {
      pending_table = WellFormed-remember tracking.ack_code tracking c.pending v.pending_table;
      completed_table = WellFormed-discard tracking.ack_code c.completed v.completed_table;
      id_range = v.id_range;
      sizes = v.sizes;
      cleared = λ n. cc;
    };
    connected = λ c a h e. h;
  }

  Fine-msg_sent_arms :
      (track_ack : Bool) (packet : Packet F64) → Fine (msg_sent_arms track_ack packet)
  unfolding msg_sent_arms
  Fine-msg_sent_arms track_ack (Packet.msg_sent d code t) = fine_stop _ (Keeps-sent track_ack _)
  Fine-msg_sent_arms track_ack other = Fine-unless_rejected "message send" other

  Fine-ok_arms : (packet : Packet F64) → Fine (ok_arms packet)
  Fine-ok_arms (Packet.ok value) = Fine-stop tt
  Fine-ok_arms other = Fine-unless_refused "requested operation" "command" other

module _ (p : Platform) where
  open p use {F64}

  pub Runs-expect :
      {A : Type 0} (command : Command) (error_context : String) (extract : Packet F64 → Option A)
      → Runs (send_command_expect p command error_context extract)
  unfolding send_command_expect expecting
  Runs-expect command error_context extract =
      Runs-command p (expecting p error_context extract)
        (λ packet. Fine-expected error_context packet (extract packet)) (encode command)

  pub Runs-expect_ok : (command : Command) → Runs (send_command_expect_ok p command)
  unfolding send_command_expect_ok
  Runs-expect_ok command = Runs-command p ok_arms Fine-ok_arms (encode command)

  pub Runs-expect_msg_sent :
      (command : Command) (track_ack : Bool)
      → Runs (send_command_expect_msg_sent_inner p command track_ack)
  unfolding send_command_expect_msg_sent_inner
  Runs-expect_msg_sent command track_ack =
      Runs-command p (msg_sent_arms track_ack) (Fine-msg_sent_arms track_ack) (encode command)

  pub Keeps-wait_for_packet :
      {A : Type 0} (limit : ℕ) (operation : String) (extract : Packet F64 → PacketWait A)
      → Keeps (wait_for_packet p limit operation extract)
  unfolding wait_for_packet waiting
  Keeps-wait_for_packet limit operation extract =
      Keeps-await_until p (waiting p operation extract)
        (λ packet. Fine-waited operation packet (extract packet)) limit
