-- ===== src/Client/Remote.antt =====
-- Exchanges with a remote device, texts, signing and the private key.
use meshquill.Error.{invalid_argument, CoreError}
use meshquill.Common.Utf8.{Text}
use meshquill.Client.Checks.{key_prefix, validate_destination_prefix, validate_text}
use meshquill.Domain.{
  CommandTracking, MeshPath, BinaryResponse, ContactRoute, LoginSession, PathDiscovery,
  PrivateKeyMaterial, RemoteStatus, Signature,
}
use meshquill.Platform.{Platform}
use meshquill.Protocol.Packet.{Packet}
use meshquill.Common.{
  ◌==◌, Bool, List, Option, Outcome, String, [], drop, false, if◌then◌else◌, length, ltb, negsuc,
  none, pos, reject_if, same_bytes, some, suc, take, true, zero, ℕ, ℤ, ◌-◌, ◌^◌, ◌∷◌,
}
use meshquill.Protocol.Command.{encode, Command, max_inner_payload}
use meshquill.Client.Wait.{
  await, wait_for_packet, remote_response_timeout, send_command_expect_msg_sent, send_raw,
  send_command_expect, send_command_expect_msg_sent_untracked, send_command_expect_ok,
  unless_refused, unless_rejected, Reaction, stop, PacketWait,
}
use meshquill.Client.State.{ensure_connected, ◌>>=◌, ◌>>◌, pure, lift, Call}
use meshquill.Protocol.Command.Device
use meshquill.Protocol.Command.Peers

module _ {F64 : Type 0} where
  abbrev pub login_packet : List ℕ → Packet F64 → PacketWait LoginSession
  login_packet expected_prefix (Packet.login_success session) =
      if same_bytes session.pubkey_prefix expected_prefix
      then PacketWait.ready session
      else PacketWait.continue
  login_packet expected_prefix (Packet.login_failed pubkey_prefix) =
      if same_bytes pubkey_prefix expected_prefix
      then PacketWait.fail CoreError.authentication_failed
      else PacketWait.continue
  login_packet expected_prefix other = PacketWait.continue

  abbrev pub status_packet : List ℕ → Packet F64 → PacketWait RemoteStatus
  status_packet expected_prefix (Packet.remote_status status) =
      if same_bytes status.pubkey_prefix expected_prefix
      then PacketWait.ready status
      else PacketWait.continue
  status_packet expected_prefix other = PacketWait.continue

  abbrev pub tagged_packet : List ℕ → Packet F64 → PacketWait BinaryResponse
  tagged_packet expected_tag (Packet.binary_response response) =
      if same_bytes response.tag expected_tag
      then PacketWait.ready response
      else PacketWait.continue
  tagged_packet expected_tag other = PacketWait.continue

  abbrev pub discovery_packet : List ℕ → Packet F64 → PacketWait PathDiscovery
  discovery_packet expected_prefix (Packet.path_discovery path) =
      if same_bytes path.pubkey_prefix expected_prefix
      then PacketWait.ready path
      else PacketWait.continue
  discovery_packet expected_prefix other = PacketWait.continue

  unfoldable pub connection_arms : Packet F64 → Reaction F64 Bool
  unfolding unless_rejected
  connection_arms (Packet.ok value) = stop (pure true)
  connection_arms (Packet.error (some code)) =
      if code == 2
      then stop (pure false)
      else unless_rejected "remote connection query" (Packet.error (some code))
  connection_arms other = unless_rejected "remote connection query" other

  unfoldable pub export_arms : Packet F64 → Reaction F64 PrivateKeyMaterial
  unfolding unless_refused
  export_arms (Packet.private_key key) = stop (pure key)
  export_arms other = unless_refused "private-key export" "private-key export" other

  unfoldable pub import_arms : Packet F64 → Reaction F64 (Unit {0})
  unfolding unless_refused
  import_arms (Packet.ok value) = stop (pure tt)
  import_arms other = unless_refused "private-key import" "private-key import" other

  abbrev pub sign_start_of : Packet F64 → Option ℕ
  sign_start_of (Packet.sign_start max_data_bytes) = some max_data_bytes
  sign_start_of other = none

  abbrev pub signature_of : Packet F64 → Option Signature
  signature_of (Packet.signature signature) = some signature
  signature_of other = none

-- `slice::chunks(size)`; each chunk takes a byte at least, so `length bytes` chunks are enough.
unfoldable pub chunks_within : ℕ → ℕ → List ℕ → List (List ℕ)
chunks_within zero size bytes = []
chunks_within (suc fuel) size [] = []
chunks_within (suc fuel) size (b ∷ bytes) =
    take size (b ∷ bytes) ∷ chunks_within fuel size (drop size (b ∷ bytes))

unfoldable pub chunks : ℕ → List ℕ → List (List ℕ)
unfolding chunks_within
chunks size bytes = chunks_within (length bytes) size bytes

abbrev pub signing_chunk_bytes : ℕ
signing_chunk_bytes = 120

-- `u32::try_from(Utc::now().timestamp()).unwrap_or(0)`, of the clock's seconds.
unfoldable pub timestamp_of : ℤ → ℕ
timestamp_of (pos n) = if ltb n (2 ^ 32) then n else 0
timestamp_of (negsuc n) = 0

module _ (p : Platform) where
  open p use {F64}

  -- A request that the device accepts, and the wait for the remote's answer.
  unfoldable pub exchange :
      {A : Type 0}
      → Outcome CoreError Command
      → String
      → (CommandTracking → Packet F64 → PacketWait A)
      → Call F64 A
  unfolding send_command_expect_msg_sent_untracked remote_response_timeout wait_for_packet
  exchange built operation extract = do
    command ← lift built
    tracking ← send_command_expect_msg_sent_untracked p command
    λ c.
        wait_for_packet p (remote_response_timeout c tracking.timeout_ms) operation
          (extract tracking) c

  unfoldable pub login : List ℕ → Text → Call F64 LoginSession
  unfolding key_prefix exchange Peers.send_login
  login public_key password = do
    expected_prefix ← lift (key_prefix public_key)
    exchange (Peers.send_login public_key password) "remote login"
        (λ tracking. login_packet expected_prefix)

  unfoldable pub remote_status : List ℕ → Call F64 RemoteStatus
  unfolding key_prefix exchange Peers.send_status_request
  remote_status public_key = do
    expected_prefix ← lift (key_prefix public_key)
    exchange (Peers.send_status_request public_key) "remote status"
        (λ tracking. status_packet expected_prefix)

  unfoldable pub binary_request : List ℕ → ℕ → List ℕ → Call F64 BinaryResponse
  unfolding exchange Peers.send_binary_request
  binary_request public_key request_type bytes =
      exchange (Peers.send_binary_request public_key request_type bytes) "binary request"
        (λ tracking. tagged_packet tracking.ack_code)

  unfoldable pub anonymous_request : List ℕ → ℕ → ContactRoute → MeshPath → Call F64 BinaryResponse
  unfolding exchange Peers.send_anonymous_request
  anonymous_request public_key request_type reply_route reply_path =
      exchange (Peers.send_anonymous_request public_key request_type reply_route reply_path)
        "anonymous request" (λ tracking. tagged_packet tracking.ack_code)

  unfoldable pub discover_path : List ℕ → Call F64 PathDiscovery
  unfolding key_prefix exchange Peers.discover_path
  discover_path public_key = do
    expected_prefix ← lift (key_prefix public_key)
    exchange (Peers.discover_path public_key) "path discovery"
        (λ tracking. discovery_packet expected_prefix)

  unfoldable pub has_connection : List ℕ → Call F64 Bool
  unfolding ensure_connected send_raw encode await connection_arms Peers.has_connection
  has_connection public_key = do
    ensure_connected
    command ← lift (Peers.has_connection public_key)
    send_raw (encode command)
    await p connection_arms

  -- The loop of `sign` over the chunks.
  unfoldable pub send_chunks : List (List ℕ) → Call F64 (Unit {0})
  unfolding send_command_expect_ok Device.sign_data
  send_chunks [] = pure tt
  send_chunks (chunk ∷ rest) = do
    command ← lift (Device.sign_data chunk)
    send_command_expect_ok p command
    send_chunks rest

  unfoldable pub sign : List ℕ → Call F64 Signature
  unfolding send_command_expect send_chunks chunks Device.sign_start Device.sign_finish
  sign bytes = do
    max_data_bytes ← send_command_expect p Device.sign_start "signing start" sign_start_of
    lift (reject_if (ltb max_data_bytes (length bytes)) (invalid_argument "data"))
    send_chunks (chunks signing_chunk_bytes bytes)
    send_command_expect p Device.sign_finish "signing finish" signature_of

  unfoldable pub export_private_key : Call F64 PrivateKeyMaterial
  unfolding ensure_connected send_raw encode await export_arms Device.export_private_key
  export_private_key = do
    ensure_connected
    send_raw (encode Device.export_private_key)
    await p export_arms

  unfoldable pub import_private_key : PrivateKeyMaterial → Call F64 (Unit {0})
  unfolding ensure_connected send_raw encode await import_arms Device.import_private_key
  import_private_key key = do
    ensure_connected
    send_raw (encode (Device.import_private_key key))
    await p import_arms

  -- The texts take the clock's seconds.
  unfoldable pub send_direct_text : ℤ → List ℕ → ℕ → Text → Call F64 CommandTracking
  unfolding validate_destination_prefix validate_text send_command_expect_msg_sent
      Peers.send_direct_text timestamp_of
  send_direct_text now destination_prefix attempt text = do
    lift (validate_destination_prefix destination_prefix)
    lift (validate_text text (max_inner_payload - 13) "text")
    send_command_expect_msg_sent p
        (Peers.send_direct_text destination_prefix (timestamp_of now) attempt text)

  unfoldable pub send_direct_command : ℤ → List ℕ → ℕ → Text → Call F64 CommandTracking
  unfolding validate_destination_prefix validate_text send_command_expect_msg_sent
      Peers.send_direct_command timestamp_of
  send_direct_command now destination_prefix attempt command_text = do
    lift (validate_destination_prefix destination_prefix)
    lift (validate_text command_text (max_inner_payload - 13) "command")
    send_command_expect_msg_sent p
        (Peers.send_direct_command destination_prefix (timestamp_of now) attempt command_text)

  unfoldable pub send_channel_message : ℤ → ℕ → ℕ → Text → Call F64 (Unit {0})
  unfolding validate_text send_command_expect_ok Peers.send_channel timestamp_of
  send_channel_message now channel txt_type text = do
    lift (validate_text text (max_inner_payload - 7) "text")
    send_command_expect_ok p (Peers.send_channel channel txt_type (timestamp_of now) text)
