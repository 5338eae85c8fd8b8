-- ===== src/Protocol/Parse/Records.antt =====
-- Parsers of contacts, of the device's own records, and of remote status counters. The last
-- signal-to-noise ratio counts quarters of a decibel.
use meshquill.Common.{
  List, at, err, if◌then◌else◌, leb, length, ltb, map_err, none, not, ok, read_i16, read_u16,
  read_u32, reject_if, slice, slice_from, some, ℕ, ◌%◌, ◌*◌, ◌+◌, ◌/◌, ◌==◌, ◌>>=◌, ◌>>◌, ◌||◌,
}
use meshquill.Error.{malformed}
use meshquill.Platform.{Platform}
use meshquill.Domain.{DeviceInfo}
use meshquill.Domain.Values.{try_public_key, try_path, contact_type_from_u8}
use meshquill.Protocol.PacketCode.{PacketCode}
use meshquill.Protocol.Packet.{Packet}
use meshquill.Protocol.Parse.Pieces.{
  Parsed, require_len, then_read, decode_padded_string, contact_route, parse_scaled_i32,
}

abbrev pub contact_packet_len : ℕ
contact_packet_len = 148

abbrev pub fixed_path_len : ℕ
fixed_path_len = 64

abbrev pub unknown_device : ℕ → DeviceInfo
unknown_device protocol_version = record {
  protocol_version = protocol_version;
  max_contacts = none;
  max_channels = none;
  ble_pin = none;
  firmware_build = none;
  model = none;
  firmware_version = none;
  repeat_enabled = none;
  path_hash_mode = none;
}

-- The fields from protocol version 3 on, from 9 on, and from 10 on.
unfoldable pub device_info_v3 : List ℕ → DeviceInfo → Parsed DeviceInfo
unfolding require_len decode_padded_string
device_info_v3 raw info =
    if leb 3 info.protocol_version
    then (do
      require_len raw 80 PacketCode.device_info
      half ← at raw 2
      max_channels ← at raw 3
      ble_pin ← read_u32 raw 4
      build_field ← slice raw 8 20
      firmware_build ← decode_padded_string build_field "DeviceInfo.firmware_build"
      model_field ← slice raw 20 60
      model ← decode_padded_string model_field "DeviceInfo.model"
      version_field ← slice raw 60 80
      firmware_version ← decode_padded_string version_field "DeviceInfo.version"
      ok (record info {
        max_contacts = some (half * 2);
        max_channels = some max_channels;
        ble_pin = some ble_pin;
        firmware_build = some firmware_build;
        model = some model;
        firmware_version = some firmware_version;
      }))
    else ok info

unfoldable pub device_info_v9 : List ℕ → DeviceInfo → Parsed DeviceInfo
unfolding require_len
device_info_v9 raw info =
    if leb 9 info.protocol_version
    then (do
      require_len raw 81 PacketCode.device_info
      repeat ← at raw 80
      ok (record info { repeat_enabled = some (not (repeat == 0)) }))
    else ok info

unfoldable pub device_info_v10 : List ℕ → DeviceInfo → Parsed DeviceInfo
unfolding require_len
device_info_v10 raw info =
    if leb 10 info.protocol_version
    then (do
      require_len raw 82 PacketCode.device_info
      mode ← at raw 81
      ok (record info { path_hash_mode = some mode }))
    else ok info

module _ {F64 : Type 0} where
  unfoldable pub parse_contact_start : List ℕ → Parsed (Packet F64)
  unfolding require_len
  parse_contact_start raw = do
    require_len raw 5 PacketCode.contact_start
    count ← read_u32 raw 1
    ok (Packet.contact_start count)

  unfoldable pub parse_contact_end : List ℕ → Parsed (Packet F64)
  unfolding require_len
  parse_contact_end raw = do
    require_len raw 5 PacketCode.contact_end
    lastmod ← read_u32 raw 1
    ok (Packet.contact_end lastmod)

  unfoldable pub parse_device_info : List ℕ → Parsed (Packet F64)
  unfolding require_len device_info_v3 device_info_v9 device_info_v10
  parse_device_info raw = do
    require_len raw 2 PacketCode.device_info
    protocol_version ← at raw 1
    info ← device_info_v3 raw (unknown_device protocol_version)
    info' ← device_info_v9 raw info
    info'' ← device_info_v10 raw info'
    ok (Packet.device_info info'')

  unfoldable pub parse_remote_status : List ℕ → Parsed (Packet F64)
  unfolding require_len
  parse_remote_status raw =
      if not (length raw == 60 || length raw == 64)
      then (do
        require_len raw 60 PacketCode.status_response
        err (malformed "status response must contain the legacy or current complete layout"))
      else (do
        reserved ← at raw 1
        reject_if (not (reserved == 0)) (malformed "status-response reserved byte must be zero")
        pubkey_prefix ← slice raw 2 8
        battery_mv ← read_u16 raw 8
        tx_queue_length ← read_u16 raw 10
        noise_floor ← read_i16 raw 12
        last_rssi ← read_i16 raw 14
        packets_received ← read_u32 raw 16
        packets_sent ← read_u32 raw 20
        tx_airtime_seconds ← read_u32 raw 24
        uptime_seconds ← read_u32 raw 28
        sent_flood ← read_u32 raw 32
        sent_direct ← read_u32 raw 36
        received_flood ← read_u32 raw 40
        received_direct ← read_u32 raw 44
        error_events ← read_u16 raw 48
        last_snr ← read_i16 raw 50
        direct_duplicates ← read_u16 raw 52
        flood_duplicates ← read_u16 raw 54
        rx_airtime_seconds ← read_u32 raw 56
        receive_errors ← then_read (length raw == 64) (read_u32 raw 60)
        ok (
            Packet.remote_status (record {
              pubkey_prefix = pubkey_prefix;
              battery_mv = battery_mv;
              tx_queue_length = tx_queue_length;
              noise_floor = noise_floor;
              last_rssi = last_rssi;
              packets_received = packets_received;
              packets_sent = packets_sent;
              tx_airtime_seconds = tx_airtime_seconds;
              uptime_seconds = uptime_seconds;
              sent_flood = sent_flood;
              sent_direct = sent_direct;
              received_flood = received_flood;
              received_direct = received_direct;
              error_events = error_events;
              last_snr = last_snr;
              direct_duplicates = direct_duplicates;
              flood_duplicates = flood_duplicates;
              rx_airtime_seconds = rx_airtime_seconds;
              receive_errors = receive_errors;
            })))

module _ (p : Platform) where
  open p use {F64, of_u32, div}

  unfoldable pub parse_contact : List ℕ → Parsed (Packet F64)
  unfolding require_len decode_padded_string contact_route
  parse_contact raw = do
    require_len raw contact_packet_len PacketCode.contact
    key_bytes ← slice raw 1 33
    public_key ← map_err (malformed "invalid contact public key") (try_public_key key_bytes)
    type_byte ← at raw 33
    flags ← at raw 34
    route_byte ← at raw 35
    reject_if (ltb fixed_path_len (contact_route route_byte).1)
        (malformed "contact path descriptor exceeds fixed path field")
    path_bytes ← slice raw 36 (36 + (contact_route route_byte).1)
    out_path ← map_err (malformed "invalid contact path") (try_path path_bytes)
    name_field ← slice raw 100 132
    adv_name ← decode_padded_string name_field "Contact.adv_name"
    last_advert ← read_u32 raw 132
    lat_bits ← read_u32 raw 136
    lon_bits ← read_u32 raw 140
    lastmod ← read_u32 raw 144
    ok (
        Packet.contact (record {
          public_key = public_key;
          contact_type = contact_type_from_u8 type_byte;
          flags = flags;
          route = (contact_route route_byte).0;
          out_path = out_path;
          adv_name = adv_name;
          last_advert = last_advert;
          adv_lat = parse_scaled_i32 p lat_bits;
          adv_lon = parse_scaled_i32 p lon_bits;
          lastmod = lastmod;
        }))

  -- `f64::from(u32) / 1000.0`
  abbrev pub thousandths : ℕ → F64
  thousandths n = div (of_u32 n) (of_u32 1000)

  -- `modes >> 4 & 0b11` and so on are `modes / 16 % 4` and so on.
  unfoldable pub parse_self_info : List ℕ → Parsed (Packet F64)
  unfolding require_len decode_padded_string
  parse_self_info raw = do
    require_len raw 58 PacketCode.self_info
    key_bytes ← slice raw 4 36
    public_key ← map_err (malformed "invalid self-info public key") (try_public_key key_bytes)
    modes ← at raw 46
    advertising_type ← at raw 1
    tx_power ← at raw 2
    max_tx_power ← at raw 3
    lat_bits ← read_u32 raw 36
    lon_bits ← read_u32 raw 40
    multi_acks ← at raw 44
    advert_loc_policy ← at raw 45
    manual ← at raw 47
    frequency ← read_u32 raw 48
    bandwidth ← read_u32 raw 52
    radio_spreading_factor ← at raw 56
    radio_coding_rate ← at raw 57
    name_field ← slice_from raw 58
    name ← decode_padded_string name_field "SelfInfo.name"
    ok (
        Packet.self_info (record {
          advertising_type = advertising_type;
          tx_power = tx_power;
          max_tx_power = max_tx_power;
          public_key = public_key;
          adv_lat = parse_scaled_i32 p lat_bits;
          adv_lon = parse_scaled_i32 p lon_bits;
          multi_acks = multi_acks;
          advert_loc_policy = advert_loc_policy;
          telemetry_mode_env = modes / 16 % 4;
          telemetry_mode_loc = modes / 4 % 4;
          telemetry_mode_base = modes % 4;
          manual_add_contacts = not (manual == 0);
          radio_frequency_mhz = thousandths frequency;
          radio_bandwidth_khz = thousandths bandwidth;
          radio_spreading_factor = radio_spreading_factor;
          radio_coding_rate = radio_coding_rate;
          name = name;
        }))
