-- ===== src/Protocol/RoundTrip/Runs.antt =====
-- The round trips at concrete inputs.
use meshquill.Common.Utf8.{scan_utf8, lead_byte}
use meshquill.Protocol.Command.{validate_custom_component, has_separator}
use meshquill.Protocol.RoundTrip.Variable.{parse-set_custom_var}
use meshquill.Protocol.RoundTrip.Update.{parse-update_contact, rescaled, InI32}
use meshquill.Protocol.Command.{contact_type_to_u8, resize, scaled_coordinate, i32_to_le}
use meshquill.Domain.{Contact, ContactType}
use meshquill.Protocol.RoundTrip.Route.{contact_route-encode}
use meshquill.Protocol.CustomVars.{parse_custom_vars-entries, DistinctKeys, print}
use meshquill.Protocol.Parse.Lists.{
  has_key, loose_pair, checked_entry, add_pairs, custom_entries, parse_custom_vars,
}
use meshquill.Protocol.Parse.Pieces.{decode_text, contact_route}
use meshquill.Protocol.RoundTrip.Scope.{parse-set_default_flood_scope}
use meshquill.Protocol.RoundTrip.Channel.{parse-set_channel}
use meshquill.Protocol.RoundTrip.Values.{
  parse-set_auto_add_config, parse-set_time, parse-set_tuning,
}
use meshquill.Common.{
  Bool, false, if◌then◌else◌, ltb, min, negsuc, pos, true, u32_to_le, ◌-◌, ◌/◌, List, [], arith,
  contains, ok, refl, replicate, same_bytes, slice_from, some, split_on, split_once, take, ℕ, ◌++◌,
  ◌∷◌, ◌≡◌,
}
use meshquill.Domain.Values.{with_secret}
use meshquill.Domain.{TuningParams, AutoAddConfig, DefaultFloodScope, ContactRoute, CustomVariables}
use meshquill.Protocol.Runs.{fixed_point}
use meshquill.Protocol.Command.Device
use meshquill.Protocol.Command.Peers
use meshquill.Protocol.Command.{
  copy_into, encode_contact_route, refuse_nul, checked, validate_text_field, Command,
}
use meshquill.Protocol.CommandCode.{CommandCode}
use meshquill.Protocol.Packet.{Packet}
use meshquill.Protocol.Parse.{parse}
use meshquill.Common.Utf8.{lead_byte, from_utf8, IsUtf8, scan_utf8, ascii}

parse-set_time_example :
    parse fixed_point (0x09 ∷ (Device.set_time 1700000000).payload)
    ≡ ok (Packet.current_time 1700000000)
parse-set_time_example = parse-set_time fixed_point 1700000000 (omega arith)

abbrev tuned : TuningParams
tuned = record { rx_delay = 100000; airtime_factor = 7 }

parse-set_tuning_example :
    parse fixed_point (0x17 ∷ take 8 (Device.set_tuning tuned).payload)
    ≡ ok (Packet.tuning_params tuned)
parse-set_tuning_example = parse-set_tuning fixed_point tuned (omega arith) (omega arith)

abbrev auto_added : AutoAddConfig
auto_added = record { config = 3; max_hops = some 64 }

abbrev auto_add_command : Command
auto_add_command = record { code = CommandCode.set_auto_add_config; payload = 3 ∷ 64 ∷ [] }

accepts_auto_add : Device.set_auto_add_config auto_added ≡ ok auto_add_command
unfolding Device.set_auto_add_config checked
accepts_auto_add = refl

parse-set_auto_add_config_example :
    parse fixed_point (0x19 ∷ 3 ∷ 64 ∷ []) ≡ ok (Packet.auto_add_config auto_added)
parse-set_auto_add_config_example =
    parse-set_auto_add_config fixed_point auto_added auto_add_command accepts_auto_add

-- A name of two characters, one of them of two bytes.
abbrev two_chars : List ℕ
two_chars = 0x61 ∷ 0xc3 ∷ 0xa9 ∷ []

two_chars-IsUtf8 : IsUtf8 two_chars
unfolding scan_utf8
two_chars-IsUtf8 = refl

abbrev secret : List ℕ
secret = 1 ∷ replicate 15 9

abbrev channel_command : Command
channel_command = record {
  code = CommandCode.set_channel;
  payload = 2 ∷ (two_chars ++ (replicate 29 0 ++ secret));
}

accepts_channel : Peers.set_channel 2 two_chars secret ≡ ok channel_command
unfolding Peers.set_channel validate_text_field refuse_nul contains copy_into checked
accepts_channel = refl

parse-set_channel_example :
    parse fixed_point (0x12 ∷ channel_command.payload)
    ≡ ok (Packet.channel_info (with_secret fixed_point.sha256 2 two_chars (some secret)))
parse-set_channel_example =
    parse-set_channel fixed_point 2 two_chars secret channel_command refl two_chars-IsUtf8
      accepts_channel

abbrev scope_command : Command
scope_command = record {
  code = CommandCode.set_default_flood_scope;
  payload = two_chars ++ (replicate 28 0 ++ secret);
}

accepts_scope : Device.set_default_flood_scope two_chars secret ≡ ok scope_command
unfolding Device.set_default_flood_scope validate_text_field refuse_nul contains copy_into checked
accepts_scope = refl

parse-set_default_flood_scope_example :
    parse fixed_point (0x1c ∷ scope_command.payload)
    ≡ ok (
        Packet.default_flood_scope
          (DefaultFloodScope.configured (record { name = some two_chars; key = secret })))
parse-set_default_flood_scope_example =
    parse-set_default_flood_scope fixed_point two_chars secret scope_command refl two_chars-IsUtf8
      accepts_scope

abbrev hops : List ℕ
hops = 1 ∷ 2 ∷ 3 ∷ 4 ∷ 5 ∷ 6 ∷ []

contact_route-encode_example : contact_route 0x43 ≡ (ContactRoute.path 1 3, 6)
contact_route-encode_example =
    contact_route-encode (ContactRoute.path 1 3) (record { bytes = hops }) 0x43 accepted
  where
    accepted : encode_contact_route (ContactRoute.path 1 3) (record { bytes = hops }) ≡ ok 0x43
    accepted = unfold encode_contact_route in refl

abbrev two_vars : CustomVariables
two_vars = record {
  raw = ascii "a:1,b:2";
  entries =
      record { key = ascii "a"; value = ascii "1" }
      ∷ record { key = ascii "b"; value = ascii "2" }
      ∷ [];
}

parse_two_vars :
    parse_custom_vars {F64 = ℕ} (0x15 ∷ ascii "a:1,b:2") ≡ ok (Packet.custom_variables two_vars)
unfolding parse_custom_vars slice_from decode_text from_utf8 scan_utf8 lead_byte custom_entries
    split_on add_pairs split_once checked_entry loose_pair contains has_key same_bytes
parse_two_vars = refl

parse_custom_vars-entries_example :
    (two_vars.raw ≡ ascii "a:1,b:2")
    × (print two_vars.entries ≡ ascii "a:1,b:2")
    × DistinctKeys two_vars.entries
parse_custom_vars-entries_example =
    parse_custom_vars-entries {F64 = ℕ} (0x15 ∷ ascii "a:1,b:2") two_vars parse_two_vars

saturates : (value : Bool × ℕ) → InI32 (fixed_point.to_i32 value)
saturates (false, a) = omega arith
saturates (true, a) = go (ltb a 1000000)
  where
    go : (b : Bool) → InI32 (if b then pos 0 else negsuc (min (a / 1000000 - 1) 2147483647))
    go true = omega arith
    go false = omega arith

abbrev somebody : Contact (Bool × ℕ)
somebody = record {
  public_key = record { bytes = replicate 32 7 };
  contact_type = ContactType.repeater;
  flags = 1;
  route = ContactRoute.path 1 3;
  out_path = record { bytes = hops };
  adv_name = two_chars;
  last_advert = 1700000000;
  adv_lat = (false, 48208174);
  adv_lon = (true, 16373819);
  lastmod = 0;
}

abbrev somebody_command : Command
somebody_command = record {
  code = CommandCode.add_update_contact;
  payload =
      replicate 32 7
      ++ (1
          ∷ 1
          ∷ 0x43
          ∷ (hops
              ++ (replicate 58 0
                  ++ (two_chars
                      ++ (replicate 29 0
                          ++ (0x00 ∷ 0xf1 ∷ 0x53 ∷ 0x65 ∷ 0x2e ∷ 0x99 ∷ 0xdf ∷ 0x02 ∷ 0xc5 ∷ 0x27
                              ∷ 0x06 ∷ 0xff ∷ []))))));
}

accepts_somebody : Peers.update_contact fixed_point somebody ≡ ok somebody_command
unfolding Peers.update_contact validate_text_field refuse_nul contains scaled_coordinate
    encode_contact_route Peers.contact_payload resize contact_type_to_u8 i32_to_le checked
accepts_somebody = refl

-- The packet of the contact, and the contact that it parses to.
abbrev pub contact_packet : List ℕ
contact_packet = 0x03 ∷ (somebody_command.payload ++ u32_to_le 5)

abbrev pub read_somebody : Contact (Bool × ℕ)
read_somebody = record somebody {
  adv_lat = rescaled fixed_point (false, 48208174);
  adv_lon = rescaled fixed_point (true, 16373819);
  lastmod = 5;
}

pub parse-contact_packet : parse fixed_point contact_packet ≡ ok (Packet.contact read_somebody)
parse-contact_packet =
    parse-update_contact fixed_point somebody somebody_command 5 saturates refl tt two_chars-IsUtf8
      (omega arith) (omega arith) accepts_somebody

parse-update_contact_example :
    parse fixed_point (0x03 ∷ (somebody_command.payload ++ u32_to_le 5))
    ≡ ok (
        Packet.contact (record somebody {
          adv_lat = rescaled fixed_point (false, 48208174);
          adv_lon = rescaled fixed_point (true, 16373819);
          lastmod = 5;
        }))
parse-update_contact_example =
    parse-update_contact fixed_point somebody somebody_command 5 saturates refl tt two_chars-IsUtf8
      (omega arith) (omega arith) accepts_somebody

abbrev variable_command : Command
variable_command = record { code = CommandCode.set_custom_var; payload = ascii "a:1" }

accepts_variable : Device.set_custom_var (ascii "a") (ascii "1") ≡ ok variable_command
unfolding Device.set_custom_var validate_custom_component validate_text_field has_separator checked
accepts_variable = refl

parse-set_custom_var_example :
    parse fixed_point (0x15 ∷ ascii "a:1")
    ≡ ok (
        Packet.custom_variables (record {
          raw = ascii "a:1";
          entries = record { key = ascii "a"; value = ascii "1" } ∷ [];
        }))
parse-set_custom_var_example =
    parse-set_custom_var fixed_point (ascii "a") (ascii "1") variable_command (omega arith)
      (unfold scan_utf8 lead_byte in refl) (unfold scan_utf8 lead_byte in refl) accepts_variable
