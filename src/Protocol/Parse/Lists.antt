-- ===== src/Protocol/Parse/Lists.antt =====
-- Parsers of repeated entries (custom variables, repeat frequencies) and of statistics.
use meshquill.Common.Utf8.{Text}
use meshquill.Common.{
  Bool, List, Option, [], at, contains, err, false, if◌then◌else◌, leb, length, ltb, none, not, ok,
  panic, read_i16, read_i8, read_u16, read_u32, reject_if, same_bytes, slice_from, some, split_on,
  split_once, u32_from_le, ℕ, ◌%◌, ◌++◌, ◌-◌, ◌==◌, ◌>>=◌, ◌>>◌, ◌||◌, ◌∷◌,
}
use meshquill.Error.{malformed}
use meshquill.Domain.{CustomVariable, FrequencyRange, DeviceStats}
use meshquill.Protocol.PacketCode.{PacketCode}
use meshquill.Protocol.Packet.{Packet}
use meshquill.Protocol.Parse.Pieces.{Parsed, require_len, require_exact_len, then_read, decode_text}

abbrev pub max_custom_vars_bytes : ℕ
max_custom_vars_bytes = 140

-- `entries.iter().any(|entry| entry.key == key)`
unfoldable pub has_key : Text → List CustomVariable → Bool
has_key key [] = false
has_key key (entry ∷ entries) = same_bytes entry.key key || has_key key entries

-- The strictness test of one `key:value` pair.
unfoldable pub loose_pair : Text → Text → Bool
loose_pair key value =
    length key == 0
    || length value == 0
    || contains b':' value
    || contains 0 key
    || contains 0 value

-- The body of the loop over the pairs, from the split on.
unfoldable pub checked_entry : List CustomVariable → Option (Text × Text) → Parsed CustomVariable
unfolding has_key loose_pair
checked_entry entries none = err (malformed "custom-variable entry is missing its separator")
checked_entry entries (some (key, value)) = do
  reject_if (loose_pair key value)
      (malformed "custom-variable entry is not one strict non-empty key:value pair")
  reject_if (has_key key entries) (malformed "custom-variable payload contains a duplicate key")
  ok (record { key = key; value = value })

-- The loop over the pairs.
unfoldable pub add_pairs : List Text → List CustomVariable → Parsed (List CustomVariable)
unfolding checked_entry
add_pairs [] entries = ok entries
add_pairs (pair ∷ pairs) entries = do
  entry ← checked_entry entries (split_once b':' pair)
  add_pairs pairs (entries ++ (entry ∷ []))

unfoldable pub custom_entries : Text → Parsed (List CustomVariable)
unfolding add_pairs
custom_entries text = if length text == 0 then ok [] else add_pairs (split_on b',' text) []

-- The loop over `chunks_exact(8)`: what is left of fewer than eight bytes is not looked at.
unfoldable pub add_ranges : List ℕ → List FrequencyRange → Parsed (List FrequencyRange)
add_ranges (a ∷ b ∷ c ∷ d ∷ e ∷ f ∷ g ∷ h ∷ rest) ranges = do
  let lower_khz = u32_from_le a b c d
  let upper_khz = u32_from_le e f g h
  reject_if (lower_khz == 0 || upper_khz == 0 || ltb upper_khz lower_khz)
      (malformed "repeat-frequency range is invalid")
  add_ranges rest (ranges ++ (record { lower_khz = lower_khz; upper_khz = upper_khz } ∷ []))
add_ranges _ ranges = ok ranges

-- `usize` subtraction panics below zero.
abbrev pub sub_usize : ℕ → ℕ → Parsed ℕ
sub_usize a b = if leb b a then ok (a - b) else panic

module _ {F64 : Type 0} where
  unfoldable pub parse_custom_vars : List ℕ → Parsed (Packet F64)
  unfolding decode_text custom_entries
  parse_custom_vars raw = do
    reject_if (ltb max_custom_vars_bytes (length raw - 1))
        (malformed "custom-variable payload exceeds firmware response bound")
    payload ← slice_from raw 1
    text ← decode_text payload "CustomVariables"
    entries ← custom_entries text
    ok (Packet.custom_variables (record { raw = payload; entries = entries }))

  unfoldable pub parse_allowed_repeat_frequencies : List ℕ → Parsed (Packet F64)
  unfolding add_ranges
  parse_allowed_repeat_frequencies raw = do
    payload_len ← sub_usize (length raw) 1
    reject_if (not (payload_len % 8 == 0))
        (malformed "repeat-frequency payload contains a truncated range")
    payload ← slice_from raw 1
    ranges ← add_ranges payload []
    ok (Packet.allowed_repeat_frequencies ranges)

unfoldable pub parse_core_stats : List ℕ → Parsed DeviceStats
unfolding require_exact_len
parse_core_stats raw = do
  require_exact_len raw 11 PacketCode.stats
  battery_mv ← read_u16 raw 2
  uptime_seconds ← read_u32 raw 4
  errors ← read_u16 raw 8
  queue_length ← at raw 10
  ok (
      DeviceStats.core (record {
        battery_mv = battery_mv;
        uptime_seconds = uptime_seconds;
        errors = errors;
        queue_length = queue_length;
      }))

-- The signal-to-noise ratio counts quarters of a decibel.
unfoldable pub parse_radio_stats : List ℕ → Parsed DeviceStats
unfolding require_exact_len
parse_radio_stats raw = do
  require_exact_len raw 14 PacketCode.stats
  noise_floor ← read_i16 raw 2
  last_rssi ← read_i8 raw 4
  last_snr ← read_i8 raw 5
  tx_airtime_seconds ← read_u32 raw 6
  rx_airtime_seconds ← read_u32 raw 10
  ok (
      DeviceStats.radio (record {
        noise_floor = noise_floor;
        last_rssi = last_rssi;
        last_snr = last_snr;
        tx_airtime_seconds = tx_airtime_seconds;
        rx_airtime_seconds = rx_airtime_seconds;
      }))

unfoldable pub parse_packet_stats : List ℕ → Parsed DeviceStats
unfolding require_len
parse_packet_stats raw =
    if not (length raw == 26 || length raw == 30)
    then (do
      require_len raw 26 PacketCode.stats
      err (malformed "packet statistics must use the 26- or 30-byte layout"))
    else (do
      recv ← read_u32 raw 2
      sent ← read_u32 raw 6
      flood_sent ← read_u32 raw 10
      direct_sent ← read_u32 raw 14
      flood_recv ← read_u32 raw 18
      direct_recv ← read_u32 raw 22
      recv_errors ← then_read (length raw == 30) (read_u32 raw 26)
      ok (
          DeviceStats.packets (record {
            recv = recv;
            sent = sent;
            flood_recv = flood_recv;
            flood_sent = flood_sent;
            direct_recv = direct_recv;
            direct_sent = direct_sent;
            recv_errors = recv_errors;
          })))

-- The match on the subtype byte.
unfoldable pub stats_of : List ℕ → ℕ → Parsed DeviceStats
unfolding parse_core_stats parse_radio_stats parse_packet_stats
stats_of raw subtype =
    if subtype == 0
    then parse_core_stats raw
    else if subtype == 1
    then parse_radio_stats raw
    else if subtype == 2
    then parse_packet_stats raw
    else err (malformed "unknown statistics subtype")

unfoldable pub parse_stats : {F64 : Type 0} → List ℕ → Parsed (Packet F64)
unfolding require_len stats_of
parse_stats raw = do
  require_len raw 2 PacketCode.stats
  subtype ← at raw 1
  stats ← stats_of raw subtype
  ok (Packet.device_stats stats)
