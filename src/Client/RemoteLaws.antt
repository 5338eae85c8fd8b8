-- ===== src/Client/RemoteLaws.antt =====
-- The exchanges with a remote device, signing and the private key keep the invariant.
use meshquill.Client.Primitives.{Valid-mark_disconnected}
use meshquill.Error.{invalid_argument, CoreError}
use meshquill.Client.Loops.{
  Runs-expect_msg_sent, Keeps-wait_for_packet, Fine-unless_refused, Fine-unless_rejected,
  Keeps-await, Runs-command, Runs-expect_ok, Fine-stop, Runs-expect,
}
use meshquill.Domain.{CommandTracking, PrivateKeyMaterial}
use meshquill.Client.Invariant.{Runs-bind, Runs-lift, Keeps-lift, Keeps-bind, Runs}
use meshquill.Client.Rules.{Keeps-send_raw, Fine}
use meshquill.Client.SessionLaws.{
  Safe-transport_disconnect, Safe-proceed, Safe-bind, Safe-guarded, Safe,
}
use meshquill.Protocol.Packet.{Packet}
use meshquill.Platform.{Platform}
use meshquill.Client.Wait.{
  send_command_expect_msg_sent_inner, send_command_expect, remote_response_timeout, wait_for_packet,
  PacketWait, send_raw, send_command_expect_ok, send_command_expect_msg_sent_untracked,
  send_disconnect_command,
}
use meshquill.Client.Remote.{
  sign_start_of, signing_chunk_bytes, chunks, signature_of, exchange, export_private_key,
  has_connection, import_private_key, send_chunks, sign, connection_arms, export_arms, import_arms,
}
use meshquill.Common.{
  Bool-cases, List, Outcome, String, [], false, inl, inr, length, ltb, reject_if, some, true, ℕ,
  ◌==◌, ◌∷◌,
}
use meshquill.Protocol.Command.{encode, Command}
use meshquill.Protocol.Command.Device
use meshquill.Client.Commands
use meshquill.Protocol.Command.Peers
use meshquill.Client.State.{
  transport_disconnect, mark_disconnected, ◌>>=◌, ◌>>◌, lift, Call, modify,
}

module _ {F64 : Type 0} where
  Fine-connection_arms : (packet : Packet F64) → Fine (connection_arms packet)
  unfolding connection_arms
  Fine-connection_arms (Packet.ok value) = Fine-stop true
  Fine-connection_arms (Packet.error (some code)) = elim (Bool-cases (code == 2)) [
    | inl e ↦ rw e (Fine-stop false)
    | inr e ↦ rw e (Fine-unless_rejected "remote connection query" (Packet.error (some code)))
  ]
  Fine-connection_arms other = Fine-unless_rejected "remote connection query" other

  Fine-export_arms : (packet : Packet F64) → Fine (export_arms packet)
  unfolding export_arms
  Fine-export_arms (Packet.private_key key) = Fine-stop key
  Fine-export_arms other = Fine-unless_refused "private-key export" "private-key export" other

  Fine-import_arms : (packet : Packet F64) → Fine (import_arms packet)
  unfolding import_arms
  Fine-import_arms (Packet.ok value) = Fine-stop tt
  Fine-import_arms other = Fine-unless_refused "private-key import" "private-key import" other

  -- What follows `send_raw` in a command that ends the session.
  Safe-disconnect_command : (command : Command) → Safe {F64 = F64} (send_disconnect_command command)
  unfolding send_disconnect_command
  Safe-disconnect_command command =
      let close : Call F64 (Unit {0}) =
        modify (λ c. mark_disconnected (transport_disconnect c).1) in
      Safe-guarded (send_raw (encode command) >> close) (λ c v h.
        Safe-proceed (λ _. close)
          (λ _ d w.
            Valid-mark_disconnected (transport_disconnect d).1 (Safe-transport_disconnect d w))
          (send_raw (encode command) c).0 (send_raw (encode command) c).1
          ((Keeps-send_raw (encode command)).valid c v h))

module _ {F64 : Type 0} where
  pub Safe-reboot : Safe {F64 = F64} Commands.reboot
  unfolding Commands.reboot
  Safe-reboot = Safe-disconnect_command Device.reboot

  pub Safe-factory_reset : Safe {F64 = F64} Commands.factory_reset
  unfolding Commands.factory_reset
  Safe-factory_reset = Safe-disconnect_command Device.factory_reset

module _ (p : Platform) where
  open p use {F64}

  pub Runs-exchange :
      {A : Type 0} (built : Outcome CoreError Command) (operation : String)
      (extract : CommandTracking → Packet F64 → PacketWait A)
      → Runs (exchange p built operation extract)
  unfolding exchange send_command_expect_msg_sent_untracked
  Runs-exchange built operation extract =
      let wait : CommandTracking → Call F64 _ = λ tracking c.
        wait_for_packet p (remote_response_timeout c tracking.timeout_ms) operation
          (extract tracking) c in
      Runs-lift built (λ command. send_command_expect_msg_sent_inner p command false >>= wait)
        (λ command.
          Runs-bind wait
            (λ tracking. record {
              valid = λ c v h.
                  (Keeps-wait_for_packet p (remote_response_timeout c tracking.timeout_ms) operation
                      (extract tracking)).valid
                    c v h;
              connected = λ c a h e.
                  (Keeps-wait_for_packet p (remote_response_timeout c tracking.timeout_ms) operation
                      (extract tracking)).connected
                    c a h e;
            })
            (send_command_expect_msg_sent_inner p command false)
            (Runs-expect_msg_sent p command false))

  pub Safe-has_connection : (public_key : List ℕ) → Safe (has_connection p public_key)
  unfolding has_connection
  Safe-has_connection public_key = Safe-guarded _ (λ c v h.
      (Keeps-bind _
          (λ command.
            Keeps-bind _ (λ _. Keeps-await p connection_arms Fine-connection_arms)
              (send_raw (encode command)) (Keeps-send_raw (encode command)))
          (lift (Peers.has_connection public_key))
          (Keeps-lift (Peers.has_connection public_key))).valid
        c v h)

  pub Runs-export : Runs (export_private_key p)
  unfolding export_private_key
  Runs-export = Runs-command p export_arms Fine-export_arms (encode Device.export_private_key)

  pub Runs-import : (key : PrivateKeyMaterial) → Runs (import_private_key p key)
  unfolding import_private_key
  Runs-import key =
      Runs-command p import_arms Fine-import_arms (encode (Device.import_private_key key))

  Safe-send_chunks : (chunks : List (List ℕ)) → Safe (send_chunks p chunks)
  unfolding send_chunks
  Safe-send_chunks [] c v = v
  Safe-send_chunks (chunk ∷ rest) c v =
      Safe-bind _
        (λ command.
          Safe-bind (λ _. send_chunks p rest) (λ _. Safe-send_chunks rest)
            (send_command_expect_ok p command) (Runs-expect_ok p command).valid)
        (lift (Device.sign_data chunk)) (λ c v. v) c v

  pub Safe-sign : (bytes : List ℕ) → Safe (sign p bytes)
  unfolding sign
  Safe-sign bytes =
      Safe-bind _
        (λ limit.
          Safe-bind _
            (λ _.
              Safe-bind _
                (λ _. (Runs-expect p Device.sign_finish "signing finish" signature_of).valid)
                (send_chunks p (chunks signing_chunk_bytes bytes))
                (Safe-send_chunks (chunks signing_chunk_bytes bytes)))
            (lift (reject_if (ltb limit (length bytes)) (invalid_argument "data"))) (λ c v. v))
        (send_command_expect p Device.sign_start "signing start" sign_start_of)
        (Runs-expect p Device.sign_start "signing start" sign_start_of).valid
