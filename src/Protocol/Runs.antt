-- ===== src/Protocol/Runs.antt =====
-- A platform of fixed-point numbers, and the theorems at concrete inputs. What stands for the hash
-- only has its length.
use meshquill.Protocol.Lengths.{parse-HasLayout}
use meshquill.Protocol.Layouts.{HasLayout}
use meshquill.Protocol.Parse.Pieces.{contact_route}
use meshquill.Protocol.Parse.Session.{parse_path_discovery, parse_discovered_path, get_range}
use meshquill.Domain.Values.{try_path}
use meshquill.Protocol.Discovery.{parse_path_discovery-whole}
use meshquill.Protocol.Ranges.{IsRange, Holds, parse_allowed_repeat_frequencies-ranges}
use meshquill.Protocol.Parse.Lists.{parse_allowed_repeat_frequencies, add_ranges}
use meshquill.Protocol.Requests.Safety.{build-ne-panic}
use meshquill.Domain.{FrequencyRange, PathDiscovery, ContactRoute}
use meshquill.Protocol.Entry.{parse_lem}
use meshquill.Protocol.Parse.Pieces.{require_len}
use meshquill.Protocol.Requests.Bounds.{build_fits}
use meshquill.Protocol.Parse.Settings.{parse_battery}
use meshquill.Protocol.Safety.{parse-ne-panic}
use meshquill.Protocol.CommandCode.{set_device_pin}
use meshquill.Protocol.Command.{checked, encode, Command}
use meshquill.Protocol.Selector.{packet_code-parse, reported}
use meshquill.Protocol.Parse.{dispatch, parse}
use meshquill.Platform.{Platform}
use meshquill.Protocol.Requests.{Request, build}
use meshquill.Common.{
  All, drop, slice, slice_from, u32_from_le, min, List, [], at, byte, err, if◌then◌else◌, length,
  ltb, negsuc, none, ok, panic, pos, read_u16, refl, replicate, take, u16_from_le, u32_to_le, ℕ, ℤ,
  ◌++◌, ◌∷◌, ◌≡◌, ◌≢◌, ◌≤◌,
}
use Prim.Native.Nat.{◌*◌, ◌/◌, ◌%◌, ◌+◌, ◌-◌}
use mathlib.Core.Bool.{Bool, true, false, not}
use meshquill.Protocol.PacketCode
use meshquill.Protocol.CommandCode
use meshquill.Protocol.Requests
use meshquill.Protocol.Command.Device
use meshquill.Protocol.Command.{encode}
use meshquill.Error.{oversized_packet_payload}
use meshquill.Protocol.Packet.{Packet, packet_code}

-- A sign and a number of millionths.
abbrev Fixed : Type 0
Fixed = Bool × ℕ

abbrev differ : Bool → Bool → Bool
differ true b = not b
differ false b = b

abbrev fixed_of : ℤ → Fixed
fixed_of (pos n) = (false, n * 1000000)
fixed_of (negsuc n) = (true, (n + 1) * 1000000)

abbrev fixed_lt : Fixed → Fixed → Bool
fixed_lt (false, a) (false, b) = ltb a b
fixed_lt (false, a) (true, b) = false
fixed_lt (true, a) (false, b) = true
fixed_lt (true, a) (true, b) = ltb b a

-- Towards zero, and saturating.
abbrev to_integer : Fixed → ℤ
to_integer (false, a) = pos (min (a / 1000000) 2147483647)
to_integer (true, a) = if ltb a 1000000 then pos 0 else negsuc (min (a / 1000000 - 1) 2147483647)

abbrev hex_digit : ℕ → ℕ
hex_digit d = if ltb d 10 then 48 + d else 87 + d

abbrev hex : List ℕ → List ℕ
hex [] = []
hex (b ∷ bs) = hex_digit (b / 16) ∷ hex_digit (b % 16) ∷ hex bs

abbrev pub fixed_point : Platform
fixed_point = record {
  F64 = Fixed;
  of_i32 = fixed_of;
  of_u32 = λ n. (false, n * 1000000);
  div = λ a b. (differ a.0 b.0, a.1 * 1000000 / b.1);
  mul = λ a b. (differ a.0 b.0, a.1 * b.1 / 1000000);
  lt = fixed_lt;
  is_finite = λ a. true;
  to_i32 = to_integer;
  hex_encode = hex;
  sha256 = λ bytes. take 32 (bytes ++ replicate 32 0);
}

abbrev battery_packet : List ℕ
battery_packet = 0x0c ∷ 0x10 ∷ 0x0e ∷ []

abbrev battery_read : Packet Fixed
battery_read = Packet.battery (record { level = 3600; used_kb = none; total_kb = none })

parse-battery_packet : parse fixed_point battery_packet ≡ ok battery_read
unfolding parse dispatch PacketCode.from_u8 parse_battery require_len at read_u16 u16_from_le
parse-battery_packet = refl

parse-ne-panic_example : parse fixed_point battery_packet ≢ panic
parse-ne-panic_example = parse-ne-panic fixed_point battery_packet

packet_code-parse_example : packet_code battery_read ≡ reported (PacketCode.from_u8 0x0c)
packet_code-parse_example =
    packet_code-parse fixed_point battery_packet battery_read parse-battery_packet

parse_lem_example : parse fixed_point (0x0c ∷ 1 ∷ []) ≡ (
    if ltb 176 2
    then err (oversized_packet_payload 2 176)
    else dispatch fixed_point (PacketCode.from_u8 0x0c) (0x0c ∷ 1 ∷ []) 0x0c)
parse_lem_example = parse_lem fixed_point 0x0c (1 ∷ [])

abbrev pin_request : Request Fixed
pin_request = Requests.set_device_pin 123456

abbrev pin_command : Command
pin_command = record { code = CommandCode.set_device_pin; payload = 0x40 ∷ 0xe2 ∷ 1 ∷ 0 ∷ [] }

build_pin : build fixed_point pin_request ≡ ok pin_command
unfolding build Device.set_device_pin checked u32_to_le
build_pin = refl

build_fits_example :
    (length (encode pin_command) ≤ 176)
    × (byte (encode pin_command) 0 ≡ CommandCode.to_u8 CommandCode.set_device_pin)
build_fits_example = build_fits fixed_point pin_request pin_command build_pin

from_u8-to_u8_example :
    PacketCode.from_u8 (PacketCode.to_u8 PacketCode.battery) ≡ PacketCode.battery
from_u8-to_u8_example = PacketCode.from_u8-to_u8 PacketCode.battery tt

to_u8-from_u8_example : PacketCode.to_u8 (PacketCode.from_u8 0xfe) ≡ 0xfe
to_u8-from_u8_example = PacketCode.to_u8-from_u8 0xfe

to_u8-try_from_example :
    (c : CommandCode.CommandCode) × (CommandCode.try_from 0xfe ≡ ok c)
    × (CommandCode.to_u8 c ≡ 0xfe)
to_u8-try_from_example = CommandCode.to_u8-try_from 0xfe

try_from-to_u8_example :
    CommandCode.try_from (CommandCode.to_u8 CommandCode.reboot) ≡ ok CommandCode.reboot
try_from-to_u8_example = CommandCode.try_from-to_u8 CommandCode.reboot tt

build-ne-panic_example :
    build fixed_point (Requests.set_channel 0 (0x61 ∷ []) (replicate 16 1)) ≢ panic
build-ne-panic_example =
    build-ne-panic fixed_point (Requests.set_channel 0 (0x61 ∷ []) (replicate 16 1)) refl

abbrev two_ranges : List FrequencyRange
two_ranges =
    record { lower_khz = 433000; upper_khz = 434000 }
    ∷ record { lower_khz = 868000; upper_khz = 868000 }
    ∷ []

abbrev range_packet : List ℕ
range_packet =
    0x1a ∷ 0x68 ∷ 0x9b ∷ 6 ∷ 0 ∷ 0x50 ∷ 0x9f ∷ 6 ∷ 0 ∷ 0xa0 ∷ 0x3e ∷ 0x0d ∷ 0 ∷ 0xa0 ∷ 0x3e ∷ 0x0d
    ∷ 0 ∷ []

parse-range_packet :
    parse_allowed_repeat_frequencies {F64 = ℕ} range_packet
    ≡ ok (Packet.allowed_repeat_frequencies two_ranges)
unfolding parse_allowed_repeat_frequencies slice_from add_ranges u32_from_le
parse-range_packet = refl

parse_allowed_repeat_frequencies-ranges_example :
    (1 ≤ length range_packet) × Holds (drop 1 range_packet) two_ranges × All IsRange two_ranges
parse_allowed_repeat_frequencies-ranges_example =
    parse_allowed_repeat_frequencies-ranges {F64 = ℕ} range_packet two_ranges parse-range_packet

abbrev discovery_packet : List ℕ
discovery_packet = 0x8d ∷ 0 ∷ 1 ∷ 2 ∷ 3 ∷ 4 ∷ 5 ∷ 6 ∷ 0x02 ∷ 7 ∷ 8 ∷ 0xff ∷ []

abbrev discovered : PathDiscovery
discovered = record {
  pubkey_prefix = 1 ∷ 2 ∷ 3 ∷ 4 ∷ 5 ∷ 6 ∷ [];
  outbound_route = ContactRoute.path 0 2;
  outbound_path = record { bytes = 7 ∷ 8 ∷ [] };
  inbound_route = ContactRoute.flood;
  inbound_path = record { bytes = [] };
}

parse-discovery_packet :
    parse_path_discovery {F64 = ℕ} discovery_packet ≡ ok (Packet.path_discovery discovered)
unfolding parse_path_discovery require_len at slice parse_discovered_path contact_route get_range
    try_path
parse-discovery_packet = refl

parse_path_discovery-whole_example :
    (outbound : ℕ) × (inbound : ℕ) × (contact_route outbound
      ≡ (ContactRoute.path 0 2, length discovered.outbound_path.bytes))
    × (contact_route inbound ≡ (ContactRoute.flood, length discovered.inbound_path.bytes))
    × (drop 2 discovery_packet
        ≡ discovered.pubkey_prefix
          ++ (outbound
              ∷ (discovered.outbound_path.bytes ++ (inbound ∷ discovered.inbound_path.bytes))))
parse_path_discovery-whole_example =
    parse_path_discovery-whole {F64 = ℕ} discovery_packet discovered parse-discovery_packet

parse-HasLayout_example : HasLayout (PacketCode.from_u8 0x0c) battery_packet
parse-HasLayout_example =
    parse-HasLayout fixed_point battery_packet battery_read parse-battery_packet
