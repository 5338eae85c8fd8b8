-- ===== src/Remote/Telemetry.antt =====
-- The summaries of Cayenne-LPP telemetry. A cursor is passed on explicitly; a read that succeeds
-- gives the value and the cursor behind it.
use meshquill.Platform.{Platform}
use meshquill.Remote.{malformed, truncated, unknown_type, Checked}
use meshquill.Remote.Answers.{check_max_len, has_nonzero, read_u32_le}
use meshquill.Common.{
  String, at, byte, get_elem?, panic, read_i8, slice_from, suc, zero, ◌==◌, Bool, List, Option, [],
  arm, drop, err, false, if◌then◌else◌, leb, length, ltb, none, ok, reject_if, signed, some, take,
  true, ℕ, ℤ, ◌*◌, ◌+◌, ◌>>=◌, ◌>>◌, ◌∷◌,
}

pub data LppTelemetryKind : Type 0 where
  digital_input digital_output analog_input analog_output generic_sensor : LppTelemetryKind
  luminosity presence temperature relative_humidity accelerometer : LppTelemetryKind
  barometric_pressure voltage current frequency percentage altitude : LppTelemetryKind
  concentration power distance energy direction unix_time gyrometer : LppTelemetryKind
  colour gps switch polyline : LppTelemetryKind

abbrev pub lpp_codes : List (ℕ × Option LppTelemetryKind)
lpp_codes =
    (0, some digital_input)
    ∷ (1, some digital_output)
    ∷ (2, some analog_input)
    ∷ (3, some analog_output)
    ∷ (100, some generic_sensor)
    ∷ (101, some luminosity)
    ∷ (102, some presence)
    ∷ (103, some temperature)
    ∷ (104, some relative_humidity)
    ∷ (113, some accelerometer)
    ∷ (115, some barometric_pressure)
    ∷ (116, some voltage)
    ∷ (117, some current)
    ∷ (118, some frequency)
    ∷ (120, some percentage)
    ∷ (121, some altitude)
    ∷ (125, some concentration)
    ∷ (128, some power)
    ∷ (130, some distance)
    ∷ (131, some energy)
    ∷ (132, some direction)
    ∷ (133, some unix_time)
    ∷ (134, some gyrometer)
    ∷ (135, some colour)
    ∷ (136, some gps)
    ∷ (142, some switch)
    ∷ (240, some polyline)
    ∷ []

unfoldable pub lpp_from_code : ℕ → Option LppTelemetryKind
lpp_from_code code = arm lpp_codes code none

unfoldable pub summary_width : LppTelemetryKind → Option ℕ
summary_width digital_input = some 1
summary_width digital_output = some 1
summary_width presence = some 1
summary_width percentage = some 1
summary_width switch = some 1
summary_width generic_sensor = some 4
summary_width frequency = some 4
summary_width distance = some 4
summary_width energy = some 4
summary_width unix_time = some 4
summary_width accelerometer = none
summary_width gyrometer = none
summary_width colour = none
summary_width gps = none
summary_width polyline = none
summary_width kind = some 2

unfoldable pub summary_is_signed : LppTelemetryKind → Bool
summary_is_signed analog_input = true
summary_is_signed analog_output = true
summary_is_signed temperature = true
summary_is_signed altitude = true
summary_is_signed kind = false

unfoldable pub summary_multiplier : LppTelemetryKind → ℕ
summary_multiplier current = 1000
summary_multiplier distance = 1000
summary_multiplier energy = 1000
summary_multiplier voltage = 100
summary_multiplier analog_input = 100
summary_multiplier analog_output = 100
summary_multiplier temperature = 10
summary_multiplier barometric_pressure = 10
summary_multiplier relative_humidity = 10
summary_multiplier kind = 1

-- The big-endian number of some bytes.
abbrev pub big_endian : ℕ → List ℕ → ℕ
big_endian high [] = high
big_endian high (b ∷ bytes) = big_endian (high * 256 + b) bytes

-- `read_u16_be`, `read_u24_be`, `read_u32_be`, of `width` bytes, and the signed ones.
unfoldable pub read_be : List ℕ → ℕ → ℕ → Checked ℕ
read_be raw idx width =
    if leb (idx + width) (length raw)
    then ok (big_endian 0 (take width (drop idx raw)))
    else err (truncated "value field")

unfoldable pub read_signed_be : List ℕ → ℕ → ℕ → Checked ℤ
unfolding read_be signed
read_signed_be raw idx width = do n ← read_be raw idx width; ok (signed (8 * width) n)

pub record SummaryRecord (F64 : Type 0) : Type 0 where
  pub channel : ℕ
  pub kind : LppTelemetryKind
  pub minimum : F64
  pub maximum : F64
  pub average : F64

pub record SummaryResponse (F64 : Type 0) : Type 0 where
  pub clock : ℕ
  pub entries : List (SummaryRecord F64)

-- The kind that a code stands for.
unfoldable pub known : ℕ → Checked LppTelemetryKind
unfolding lpp_from_code
known code = elim (lpp_from_code code) [ none ↦ err (unknown_type code) | some kind ↦ ok kind ]

-- A byte, with what the source calls it.
unfoldable pub byte_at : List ℕ → ℕ → String → Checked ℕ
byte_at payload cursor context = elim (get_elem? payload cursor) [
  | none ↦ err (truncated context)
  | some byte ↦ ok byte
]

module _ (p : Platform) where
  open p use {F64, of_i32, of_u32, div}

  -- The number of a summary value.
  unfoldable pub summary_raw : List ℕ → ℕ → Bool → ℕ → Checked F64
  unfolding read_i8 at read_be read_signed_be
  summary_raw payload width true cursor =
      if width == 1
      then (do z ← read_i8 payload cursor; ok (of_i32 z))
      else if width == 2
      then (do z ← read_signed_be payload cursor 2; ok (of_i32 z))
      else if width == 4
      then (do z ← read_signed_be payload cursor 4; ok (of_i32 z))
      else err (malformed "unsupported MMA value width")
  summary_raw payload width false cursor =
      if width == 1
      then (do n ← at payload cursor; ok (of_u32 n))
      else if width == 2
      then (do n ← read_be payload cursor 2; ok (of_u32 n))
      else if width == 4
      then (do n ← read_be payload cursor 4; ok (of_u32 n))
      else err (malformed "unsupported MMA value width")

  -- `decode_summary_value` with the kind's width.
  unfoldable pub summary_of_width : List ℕ → ℕ → LppTelemetryKind → Option ℕ → Checked (F64 × ℕ)
  unfolding summary_raw summary_is_signed summary_multiplier
  summary_of_width payload cursor kind none =
      err (malformed "vector and dynamic telemetry types are not valid MMA records")
  summary_of_width payload cursor kind (some width) = do
    reject_if (ltb (length payload) (cursor + width)) (truncated "summary value")
    raw ← summary_raw payload width (summary_is_signed kind) cursor
    ok (div raw (of_u32 (summary_multiplier kind)), cursor + width)

  unfoldable pub decode_summary_value : List ℕ → ℕ → LppTelemetryKind → Checked (F64 × ℕ)
  unfolding summary_of_width summary_width
  decode_summary_value payload cursor kind =
      summary_of_width payload cursor kind (summary_width kind)

  -- A record behind its channel and kind, and the cursor behind it.
  unfoldable pub summary_record :
      List ℕ → ℕ → ℕ → LppTelemetryKind → Checked (SummaryRecord F64 × ℕ)
  unfolding decode_summary_value
  summary_record payload channel cursor kind = do
    minimum ← decode_summary_value payload cursor kind
    maximum ← decode_summary_value payload minimum.1 kind
    average ← decode_summary_value payload maximum.1 kind
    ok (
      record {
        channel = channel;
        kind = kind;
        minimum = minimum.0;
        maximum = maximum.0;
        average = average.0;
      },
      average.1,
    )

  -- Channel 0 ends the records.
  unfoldable pub summary_padding : List ℕ → ℕ → Checked (List (SummaryRecord F64))
  unfolding slice_from has_nonzero
  summary_padding payload cursor = do
    padding ← slice_from payload cursor
    reject_if (has_nonzero padding)
        (malformed "summary terminator must be followed only by zero padding")
    ok []

  -- The record behind its channel; `next` is what follows from a cursor.
  unfoldable pub summary_entry :
      List ℕ → (ℕ → Checked (List (SummaryRecord F64))) → ℕ → ℕ → Checked (List (SummaryRecord F64))
  unfolding byte_at known summary_record
  summary_entry payload next channel cursor = do
    code ← byte_at payload cursor "summary kind"
    kind ← known code
    entry ← summary_record payload channel (cursor + 1) kind
    entries ← next entry.1
    ok (entry.0 ∷ entries)

  -- The body of the loop, behind its channel.
  unfoldable pub summary_channel :
      List ℕ → (ℕ → Checked (List (SummaryRecord F64))) → ℕ → ℕ → Checked (List (SummaryRecord F64))
  unfolding summary_padding summary_entry
  summary_channel payload next cursor channel =
      if channel == 0
      then summary_padding payload cursor
      else summary_entry payload next channel cursor

  -- One turn of the loop.
  unfoldable pub summary_turn :
      List ℕ → (ℕ → Checked (List (SummaryRecord F64))) → ℕ → Checked (List (SummaryRecord F64))
  unfolding byte_at summary_channel
  summary_turn payload next cursor =
      if leb (length payload) cursor
      then ok []
      else (byte_at payload cursor "summary channel" >>= summary_channel payload next (cursor + 1))

  -- The loop of `parse_summary_payload`, at most `fuel` records; one that is left over panics.
  unfoldable pub summary_entries : List ℕ → ℕ → ℕ → Checked (List (SummaryRecord F64))
  unfolding summary_turn
  summary_entries payload zero cursor = summary_turn payload (λ behind. panic) cursor
  summary_entries payload (suc fuel) cursor =
      summary_turn payload (summary_entries payload fuel) cursor

  unfoldable pub parse_summary_payload : List ℕ → Checked (SummaryResponse F64)
  unfolding check_max_len read_u32_le summary_entries
  parse_summary_payload payload = do
    check_max_len payload
    reject_if (ltb (length payload) 4) (truncated "summary clock")
    clock ← read_u32_le payload 0
    entries ← summary_entries payload (length payload) 4
    ok (record { clock = clock; entries = entries })
