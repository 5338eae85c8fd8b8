-- ===== src/Remote/Runs.antt =====
-- The theorems about the answers at concrete inputs, and tests of the parsers.
use meshquill.Common.Utf8.{lead_byte, scan_utf8, from_utf8}
use meshquill.Protocol.Runs.{fixed_point}
use meshquill.Remote.Telemetry.{
  parse_summary_payload, summary_entries, summary_turn, byte_at, summary_channel, summary_padding,
  summary_entry, known, lpp_from_code, summary_record, decode_summary_value, summary_of_width,
  summary_width, summary_is_signed, summary_multiplier, summary_raw, read_signed_be, read_be,
  temperature,
}
use meshquill.Remote.Safety.{answers-ne-panic}
use meshquill.Remote.Acl.{parse_acl_payload-slots, in_use, slots}
use meshquill.Remote.{AclEntry}
use meshquill.Remote.Answers.{
  has_empty, owner_of, decode_string, has_nonzero, neighbours_from, trim_at, count_of,
  trim_trailing_nul, read_i16_le, read_u32_le, check_max_len, parse_basic_response,
  parse_acl_payload, parse_neighbour_page, parse_owner_response, parse_regions_response,
}
use meshquill.Common.{
  true, false, List, [], arith, at, negsuc, ok, panic, position, refl, replicate, signed, slice,
  slice_from, split_on, u16_from_le, u32_from_le, ℕ, ◌∷◌, ◌≡◌, ◌≢◌,
}

abbrev neighbour_bytes : List ℕ
neighbour_bytes = 3 ∷ 0 ∷ 1 ∷ 0 ∷ 0xaa ∷ 0xbb ∷ 60 ∷ 0 ∷ 0 ∷ 0 ∷ 0xfc ∷ []

-- Channel 1 measured from half a degree below zero to 23.5 degrees, at 10 on average.
abbrev temperatures : List ℕ
temperatures = 1 ∷ 0 ∷ 0 ∷ 0 ∷ 1 ∷ 103 ∷ 0xff ∷ 0xfb ∷ 0 ∷ 235 ∷ 0 ∷ 100 ∷ 0 ∷ 0 ∷ []

answers-ne-panic_example :
    (parse_neighbour_page temperatures 2 ≢ panic)
    × (parse_regions_response temperatures ≢ panic)
    × (parse_owner_response temperatures ≢ panic)
    × (parse_basic_response temperatures ≢ panic)
    × (parse_acl_payload temperatures ≢ panic)
    × (parse_summary_payload fixed_point temperatures ≢ panic)
answers-ne-panic_example = answers-ne-panic fixed_point temperatures 2

parse_summary_payload_runs :
    parse_summary_payload fixed_point temperatures
    ≡ ok (record {
      clock = 1;
      entries =
          record {
            channel = 1;
            kind = temperature;
            minimum = (true, 500000);
            maximum = (false, 23500000);
            average = (false, 10000000);
          }
          ∷ [];
    })
unfolding parse_summary_payload check_max_len read_u32_le summary_entries summary_turn byte_at
    summary_channel summary_padding summary_entry known lpp_from_code summary_record
    decode_summary_value summary_of_width summary_width summary_is_signed summary_multiplier
    summary_raw read_signed_be read_be signed slice_from slice has_nonzero u32_from_le
parse_summary_payload_runs = refl

-- One neighbour of three, heard a minute ago at one decibel below zero.
parse_neighbour_page_runs :
    parse_neighbour_page neighbour_bytes 2
    ≡ ok (record {
      total_count = 3;
      result_count = 1;
      entries = record { pubkey_prefix = 0xaa ∷ 0xbb ∷ []; secs_ago = 60; snr_db = negsuc 3 } ∷ [];
    })
unfolding parse_neighbour_page check_max_len read_i16_le count_of neighbours_from slice at
    read_u32_le signed u16_from_le u32_from_le
parse_neighbour_page_runs = refl

parse_owner_response_runs :
    parse_owner_response (1 ∷ 0 ∷ 0 ∷ 0 ∷ b'a' ∷ 10 ∷ b'b' ∷ 0 ∷ 0 ∷ [])
    ≡ ok (record { clock = 1; name = b'a' ∷ []; owner = b'b' ∷ [] })
unfolding parse_owner_response check_max_len read_u32_le slice_from slice trim_trailing_nul trim_at
    position has_nonzero decode_string from_utf8 scan_utf8 lead_byte split_on owner_of u32_from_le
parse_owner_response_runs = refl

parse_regions_response_runs :
    parse_regions_response (1 ∷ 0 ∷ 0 ∷ 0 ∷ b'a' ∷ b',' ∷ b'b' ∷ 0 ∷ [])
    ≡ ok (record { clock = 1; names = (b'a' ∷ []) ∷ (b'b' ∷ []) ∷ [] })
unfolding parse_regions_response check_max_len read_u32_le slice_from slice trim_trailing_nul
    trim_at position has_nonzero decode_string from_utf8 scan_utf8 lead_byte split_on has_empty
    u32_from_le
parse_regions_response_runs = refl

-- The second slot is a tombstone.
abbrev three_slots : List AclEntry
three_slots =
    record { pubkey_prefix = 1 ∷ 2 ∷ 3 ∷ 4 ∷ 5 ∷ 6 ∷ []; permissions = 3 }
    ∷ record { pubkey_prefix = replicate 6 0; permissions = 2 }
    ∷ record { pubkey_prefix = 0 ∷ 0 ∷ 0 ∷ 0 ∷ 0 ∷ 9 ∷ []; permissions = 1 }
    ∷ []

parse_acl_payload-slots_example :
    parse_acl_payload (slots three_slots) ≡ ok (record { entries = in_use three_slots })
parse_acl_payload-slots_example =
    parse_acl_payload-slots three_slots (refl, (refl, (refl, tt))) (omega arith)
