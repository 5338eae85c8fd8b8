-- ===== src/Client/Awaiting.antt =====
-- A client that awaits a sync response sends nothing but what `sync_next_message` sends.
use meshquill.Protocol.Command.Peers
use meshquill.Protocol.Command.Device
use meshquill.Domain.{PrivateKeyMaterial}
use meshquill.Client.Remote.{
  has_connection, export_private_key, import_private_key, connection_arms, export_arms, import_arms,
}
use meshquill.Protocol.Packet.{Packet}
use meshquill.Platform.{Platform}
use meshquill.Client.Wait.{
  msg_sent_arms, ok_arms, expecting, await, send_command_expect_msg_sent_inner,
  send_command_expect_ok, send_command_expect, send_disconnect_command, send_unless_awaiting,
  send_only, send_raw,
}
use meshquill.Error.{protocol_invariant, CoreError}
use meshquill.Common.{
  ap, ◌∙◌, Bool-cases, inl, inr, Bool, List, Option, Outcome, String, err, false, if◌then◌else◌, ok,
  sym, true, ℕ, ◌≡◌,
}
use meshquill.Protocol.Command.{encode, Command}
use meshquill.Client.State.{
  transport_disconnect, mark_disconnected, proceed, SyncState, ensure_connected, ◌>>◌, Client, Call,
  modify,
}

-- The error of a command that a client refuses as it awaits a sync response, by whether it is
-- connected.
abbrev pub refusal_if : Bool → CoreError
refusal_if true =
    protocol_invariant
      "a prior inbox synchronization response must be reconciled before another command"
refusal_if false = CoreError.disconnected

module _ {F64 : Type 0} where
  -- What a client that awaits a sync response answers to a command.
  abbrev pub refusal : Client F64 → CoreError
  refusal c = refusal_if c.connected

  -- A call that ends in that error and changes nothing.
  abbrev pub Refused : {A : Type 0} → Call F64 A → Client F64 → Type 0
  Refused m c = m c ≡ (err (refusal c), c)

  Refused-guarded :
      {A : Type 0} (m : Call F64 A) (c : Client F64)
      → (c.connected ≡ true → Refused m c)
      → Refused (ensure_connected >> m) c
  unfolding ensure_connected
  Refused-guarded {A = A} m c r =
      let by_flag : Bool → Outcome CoreError A × Client F64 =
        λ b. proceed {A = Unit {0}} (λ _. m) (if b then ok tt else err CoreError.disconnected) c in
      elim (Bool-cases c.connected) [
        | inl online ↦ ap by_flag online ∙ r online
        | inr offline ↦ ap by_flag offline ∙ ap (λ b. (err (refusal_if b), c)) (sym offline)
      ]

  -- What follows `ensure_connected` in a command.
  Refused-send_raw :
      {A : Type 0} (next : Call F64 A) (payload : List ℕ) (c : Client F64)
      → c.sync_state ≡ SyncState.awaiting_response
      → c.connected ≡ true
      → Refused (send_raw payload >> next) c
  unfolding send_raw send_unless_awaiting
  Refused-send_raw next payload c h online =
      ap
        (λ s.
          proceed {A = Unit {0}} (λ _. next) (send_unless_awaiting s payload c).0
            (send_unless_awaiting s payload c).1)
        h
      ∙ ap (λ b. (err (refusal_if b), c)) (sym online)

  -- The shape of a command.
  Refused-command :
      {A : Type 0} (next : Call F64 A) (payload : List ℕ) (c : Client F64)
      → c.sync_state ≡ SyncState.awaiting_response
      → Refused (ensure_connected >> (send_raw payload >> next)) c
  Refused-command next payload c h =
      Refused-guarded (send_raw payload >> next) c (Refused-send_raw next payload c h)

  Refused-send_only :
      (command : Command) (c : Client F64)
      → c.sync_state ≡ SyncState.awaiting_response
      → Refused (send_only command) c
  unfolding send_only send_raw send_unless_awaiting
  Refused-send_only command c h = Refused-guarded (send_raw (encode command)) c (λ online.
      ap (λ s. send_unless_awaiting s (encode command) c) h
      ∙ ap (λ b. (err (refusal_if b), c)) (sym online))

module _ (p : Platform) where
  Refused-has_connection :
      (c : Client p.F64) (public_key : List ℕ) (query : Command)
      → Peers.has_connection public_key ≡ ok query
      → c.sync_state ≡ SyncState.awaiting_response
      → Refused (has_connection p public_key) c
  unfolding has_connection
  Refused-has_connection c public_key query built h =
      Refused-guarded _ c
        λ online. rw built (Refused-send_raw (await p connection_arms) (encode query) c h online)

-- While a sync response is awaited, each of the eight functions that send a command through
-- `send_raw` sends none: it ends in an error and leaves the client as it was,
-- also what was written. The error is the one about the response that is to be reconciled, or that the
-- client is disconnected, if it is. These are the five that other methods build on and the three
-- methods that call `send_raw` by themselves, `has_connection` with a key that a query can be built of,
-- `export_private_key` and `import_private_key`.
pub commands-Refused :
    (p : Platform) {A : Type 0} (c : Client p.F64) (command : Command) (context : String)
    (extract : Packet p.F64 → Option A) (track_ack : Bool) (public_key : List ℕ) (query : Command)
    (private_key : PrivateKeyMaterial)
    → c.sync_state ≡ SyncState.awaiting_response
    → Peers.has_connection public_key ≡ ok query
    → Refused (send_only command) c
      × Refused (send_disconnect_command command) c
      × Refused (send_command_expect p command context extract) c
      × Refused (send_command_expect_ok p command) c
      × Refused (send_command_expect_msg_sent_inner p command track_ack) c
      × Refused (has_connection p public_key) c
      × Refused (export_private_key p) c
      × Refused (import_private_key p private_key) c
unfolding send_disconnect_command send_command_expect send_command_expect_ok
    send_command_expect_msg_sent_inner export_private_key import_private_key
commands-Refused p c command context extract track_ack public_key query private_key h built = (
  Refused-send_only command c h,
  Refused-command (modify (λ d. mark_disconnected (transport_disconnect d).1)) (encode command) c h,
  Refused-command (await p (expecting p context extract)) (encode command) c h,
  Refused-command (await p ok_arms) (encode command) c h,
  Refused-command (await p (msg_sent_arms track_ack)) (encode command) c h,
  Refused-has_connection p c public_key query built h,
  Refused-command (await p export_arms) (encode Device.export_private_key) c h,
  Refused-command (await p import_arms) (encode (Device.import_private_key private_key)) c h,
)
