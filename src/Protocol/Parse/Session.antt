-- ===== src/Protocol/Parse/Session.antt =====
-- Parsers of command results, signing, remote sessions, control data and path discovery.
use meshquill.Common.{
  Bool, List, Option, String, [], at, drop, err, get_elem?, if◌then◌else◌, leb, length, map_err,
  none, not, ok, read_i8, read_u32, reject_if, slice, slice_from, some, take, u32_from_le, ℕ, ◌&&◌,
  ◌+◌, ◌-◌, ◌==◌, ◌>>=◌, ◌>>◌, ◌||◌, ◌∷◌,
}
use meshquill.Error.{malformed}
use meshquill.Domain.{ContactRoute, MeshPath}
use meshquill.Domain.Values.{try_private_key, try_signature, try_path}
use meshquill.Protocol.PacketCode.{PacketCode}
use meshquill.Protocol.Packet.{Packet}
use meshquill.Protocol.Parse.Pieces.{
  Parsed, require_len, require_exact_len, then_read, contact_route,
}

abbrev login_lengths : ℕ → Bool
login_lengths n = n == 8 || n == 12 || n == 13 || n == 14

module _ {F64 : Type 0} where
  unfoldable pub parse_ok : List ℕ → Parsed (Packet F64)
  parse_ok (code ∷ []) = ok (Packet.ok none)
  parse_ok (code ∷ one ∷ two ∷ three ∷ four ∷ []) =
      ok (Packet.ok (some (u32_from_le one two three four)))
  parse_ok _ = err (malformed "OK packet must contain either no value or one complete u32 value")

  unfoldable pub parse_error : List ℕ → Packet F64
  parse_error raw = Packet.error (get_elem? raw 1)

  unfoldable pub parse_private_key : List ℕ → Parsed (Packet F64)
  unfolding require_exact_len
  parse_private_key raw = do
    require_exact_len raw 65 PacketCode.private_key
    bytes ← slice_from raw 1
    key ← map_err (malformed "invalid private-key payload") (try_private_key bytes)
    ok (Packet.private_key key)

  unfoldable pub parse_disabled : List ℕ → Parsed (Packet F64)
  unfolding require_exact_len
  parse_disabled raw = do require_exact_len raw 1 PacketCode.disabled; ok Packet.disabled

  unfoldable pub parse_sign_start : List ℕ → Parsed (Packet F64)
  unfolding require_exact_len
  parse_sign_start raw = do
    require_exact_len raw 6 PacketCode.sign_start
    reserved ← at raw 1
    reject_if (not (reserved == 0)) (malformed "sign-start reserved byte must be zero")
    max_data_bytes ← read_u32 raw 2
    ok (Packet.sign_start max_data_bytes)

  unfoldable pub parse_signature : List ℕ → Parsed (Packet F64)
  unfolding require_exact_len
  parse_signature raw = do
    require_exact_len raw 65 PacketCode.signature
    bytes ← slice_from raw 1
    signature ← map_err (malformed "invalid signature payload") (try_signature bytes)
    ok (Packet.signature signature)

  unfoldable pub parse_login_success : List ℕ → Parsed (Packet F64)
  unfolding require_len
  parse_login_success raw =
      if not (login_lengths (length raw))
      then (do
        require_len raw 8 PacketCode.login_success
        err (malformed "login-success packet has a partial or unexpected extension"))
      else (do
        pubkey_prefix ← slice raw 2 8
        permissions ← at raw 1
        server_timestamp ← then_read (leb 12 (length raw)) (read_u32 raw 8)
        ok (
            Packet.login_success (record {
              permissions = permissions;
              pubkey_prefix = pubkey_prefix;
              server_timestamp = server_timestamp;
              acl_permissions = get_elem? raw 12;
              firmware_version_level = get_elem? raw 13;
            })))

  unfoldable pub parse_login_failed : List ℕ → Parsed (Packet F64)
  unfolding require_exact_len
  parse_login_failed raw = do
    require_exact_len raw 8 PacketCode.login_failed
    reserved ← at raw 1
    reject_if (not (reserved == 0)) (malformed "login-failed reserved byte must be zero")
    pubkey_prefix ← slice raw 2 8
    ok (Packet.login_failed pubkey_prefix)

  unfoldable pub parse_telemetry_response : List ℕ → Parsed (Packet F64)
  unfolding require_len
  parse_telemetry_response raw = do
    require_len raw 8 PacketCode.telemetry_response
    reserved ← at raw 1
    reject_if (not (reserved == 0)) (malformed "telemetry-response reserved byte must be zero")
    pubkey_prefix ← slice raw 2 8
    payload ← slice_from raw 8
    ok (Packet.telemetry_response (record { pubkey_prefix = pubkey_prefix; payload = payload }))

  unfoldable pub parse_binary_response : List ℕ → Parsed (Packet F64)
  unfolding require_len
  parse_binary_response raw = do
    require_len raw 6 PacketCode.binary_response
    reserved ← at raw 1
    reject_if (not (reserved == 0)) (malformed "binary-response reserved byte must be zero")
    tag ← slice raw 2 6
    payload ← slice_from raw 6
    ok (Packet.binary_response (record { tag = tag; payload = payload }))

  unfoldable pub parse_control_data : List ℕ → Parsed (Packet F64)
  unfolding require_len
  parse_control_data raw = do
    require_len raw 5 PacketCode.control_data
    snr ← read_i8 raw 1
    rssi ← read_i8 raw 2
    path_len ← at raw 3
    payload ← slice_from raw 4
    ok (
        Packet.control_data
          (record { snr_qdb = snr; rssi = rssi; path_len = path_len; payload = payload }))

-- `raw.get(a..b)`
unfoldable pub get_range : List ℕ → ℕ → ℕ → Option (List ℕ)
get_range raw a b = if leb a b && leb b (length raw) then some (take (b - a) (drop a raw)) else none

-- `option.ok_or(error)`
abbrev pub ok_or {ℓ} : {A : Type ℓ} → Option A → String → Parsed A
ok_or none reason = err (malformed reason)
ok_or (some a) reason = ok a

-- A discovered path at the cursor, with the cursor behind it.
unfoldable pub parse_discovered_path : List ℕ → ℕ → Parsed (ContactRoute × MeshPath × ℕ)
unfolding contact_route get_range
parse_discovered_path raw cursor = do
  descriptor ← ok_or (get_elem? raw cursor) "path-discovery response is missing a route descriptor"
  let end = cursor + 1 + (contact_route descriptor).1
  bytes ← ok_or (get_range raw (cursor + 1) end) "path-discovery response contains a truncated path"
  path ← map_err (malformed "path-discovery response exceeds supported path bytes") (try_path bytes)
  ok ((contact_route descriptor).0, path, end)

unfoldable pub parse_path_discovery : {F64 : Type 0} → List ℕ → Parsed (Packet F64)
unfolding require_len parse_discovered_path
parse_path_discovery raw = do
  require_len raw 10 PacketCode.path_discovery_response
  reserved ← at raw 1
  reject_if (not (reserved == 0)) (malformed "path-discovery reserved byte must be zero")
  pubkey_prefix ← slice raw 2 8
  (outbound_route, outbound_path, middle) ← parse_discovered_path raw 8
  (inbound_route, inbound_path, end) ← parse_discovered_path raw middle
  reject_if (not (end == length raw)) (malformed "path-discovery response contains trailing bytes")
  ok (
      Packet.path_discovery (record {
        pubkey_prefix = pubkey_prefix;
        outbound_route = outbound_route;
        outbound_path = outbound_path;
        inbound_route = inbound_route;
        inbound_path = inbound_path;
      }))
