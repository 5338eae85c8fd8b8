-- ===== src/Protocol/Parse/Settings.antt =====
-- Parsers of configuration and statistics.
use meshquill.Common.{
  Bool, List, Option, at, err, false, get_elem?, if◌then◌else◌, length, ltb, map_err, none, not, ok,
  position, read_u16, read_u32, reject_if, slice, slice_from, some, ℕ, ◌+◌, ◌==◌, ◌>>=◌, ◌>>◌, ◌||◌,
}
use meshquill.Error.{PacketDisplay, malformed, invalid_packet_length}
use meshquill.Domain.{DefaultFloodScope}
use meshquill.Domain.Values.{try_path, with_secret}
use meshquill.Protocol.PacketCode.{PacketCode, to_u8}
use meshquill.Protocol.Packet.{Packet}
use meshquill.Protocol.Parse.Pieces.{
  Parsed, require_len, require_exact_len, decode_text, decode_padded_string, contact_route,
}

-- `option.is_some_and(test)`
abbrev pub is_some_and : Option ℕ → (ℕ → Bool) → Bool
is_some_and none test = false
is_some_and (some value) test = test value

abbrev pub name_end_of : Option ℕ → Parsed ℕ
name_end_of none = err (malformed "default flood scope name is not NUL terminated")
name_end_of (some n) = ok n

module _ {F64 : Type 0} where
  unfoldable pub parse_battery : List ℕ → Parsed (Packet F64)
  unfolding require_len
  parse_battery raw = do
    require_len raw 3 PacketCode.battery
    level ← read_u16 raw 1
    (if length raw == 3
        then ok (Packet.battery (record { level = level; used_kb = none; total_kb = none }))
        else if length raw == 11
        then (do
          used_kb ← read_u32 raw 3
          total_kb ← read_u32 raw 7
          ok (
              Packet.battery
                (record { level = level; used_kb = some used_kb; total_kb = some total_kb })))
        else if ltb (length raw) 11
        then err
            (invalid_packet_length (PacketDisplay.raw (to_u8 PacketCode.battery)) 11 (length raw))
        else err (malformed "battery packet contains unexpected trailing bytes"))

  unfoldable pub parse_tuning_params : List ℕ → Parsed (Packet F64)
  unfolding require_exact_len
  parse_tuning_params raw = do
    require_exact_len raw 9 PacketCode.tuning_params
    rx_delay ← read_u32 raw 1
    airtime_factor ← read_u32 raw 5
    ok (Packet.tuning_params (record { rx_delay = rx_delay; airtime_factor = airtime_factor }))

  unfoldable pub parse_auto_add_config : List ℕ → Parsed (Packet F64)
  unfolding require_len
  parse_auto_add_config raw =
      if not (length raw == 2 || length raw == 3)
      then (do
        require_len raw 2 PacketCode.autoadd_config
        err (malformed "auto-add config must use the 2- or 3-byte layout"))
      else (do
        reject_if (is_some_and (get_elem? raw 2) (λ value. ltb 64 value))
            (malformed "auto-add max hops exceeds firmware bound")
        config ← at raw 1
        ok (Packet.auto_add_config (record { config = config; max_hops = get_elem? raw 2 })))

  unfoldable pub parse_advert_path : List ℕ → Parsed (Packet F64)
  unfolding require_len require_exact_len contact_route
  parse_advert_path raw = do
    require_len raw 6 PacketCode.advert_path
    descriptor ← at raw 5
    require_exact_len raw (6 + (contact_route descriptor).1) PacketCode.advert_path
    path_bytes ← slice_from raw 6
    path ← map_err (malformed "advert path exceeds supported path bytes") (try_path path_bytes)
    received_at ← read_u32 raw 1
    ok (
        Packet.advert_path
          (record { received_at = received_at; route = (contact_route descriptor).0; path = path }))

  unfoldable pub parse_channel_info : (List ℕ → List ℕ) → List ℕ → Parsed (Packet F64)
  unfolding require_len decode_padded_string
  parse_channel_info sha256 raw = do
    require_len raw 50 PacketCode.channel_info
    idx ← at raw 1
    name_field ← slice raw 2 34
    name ← decode_padded_string name_field "ChannelInfo.name"
    secret ← slice raw 34 50
    ok (Packet.channel_info (with_secret sha256 idx name (some secret)))

  unfoldable pub parse_default_flood_scope : List ℕ → Parsed (Packet F64)
  unfolding require_exact_len decode_text
  parse_default_flood_scope raw =
      if length raw == 1
      then ok (Packet.default_flood_scope DefaultFloodScope.unconfigured)
      else (do
        require_exact_len raw 48 PacketCode.default_flood_scope
        name_field ← slice raw 1 32
        name_end ← name_end_of (position 0 name_field)
        reject_if (name_end == 0) (malformed "configured default flood scope has an empty name")
        name_bytes ← slice raw 1 (name_end + 1)
        name ← decode_text name_bytes "DefaultFloodScope.name"
        key ← slice raw 32 48
        ok (
            Packet.default_flood_scope
              (DefaultFloodScope.configured (record { name = some name; key = key }))))
