-- ===== src/Protocol/Command/Peers.antt =====
-- The builders for contacts, messages, channels and remote nodes.
use meshquill.Common.{
  Bool, List, Option, [], false, if◌then◌else◌, length, ltb, negsuc, none, ok, pos, reject_if,
  replicate, some, true, u32_to_le, ℕ, ℤ, ◌++◌, ◌+◌, ◌==◌, ◌>>=◌, ◌>>◌, ◌∷◌,
}
use Prim.Native.Nat.{bit_or}
use meshquill.Error.{invalid_argument}
use meshquill.Platform.{Platform}
use meshquill.Domain.{Contact, ContactRoute, MeshPath, flood}
use meshquill.Protocol.CommandCode.{CommandCode}
use meshquill.Protocol.Command.{
  Text, Command, Built, without_payload, checked, command_with_key, command_with_key_suffix,
  contact_type_to_u8, encode_contact_route, validate_text_field, refuse_nul, resize, copy_into,
  i32_to_le, scaled_coordinate,
}

abbrev pub optional_u32 : Option ℕ → List ℕ
optional_u32 none = []
optional_u32 (some n) = u32_to_le n

unfoldable pub get_contacts : Option ℕ → Command
get_contacts lastmod = record { code = CommandCode.get_contacts; payload = optional_u32 lastmod }

unfoldable pub sync_next_message : Command
sync_next_message = record { code = CommandCode.sync_next_message; payload = [] }

unfoldable pub reset_path : List ℕ → Built Command
unfolding command_with_key
reset_path public_key = command_with_key CommandCode.reset_path public_key []

unfoldable pub remove_contact : List ℕ → Built Command
unfolding command_with_key
remove_contact public_key = command_with_key CommandCode.remove_contact public_key []

unfoldable pub share_contact : List ℕ → Built Command
unfolding command_with_key
share_contact public_key = command_with_key CommandCode.share_contact public_key []

unfoldable pub export_contact : Option (List ℕ) → Built Command
unfolding command_with_key without_payload
export_contact none = ok (without_payload CommandCode.export_contact)
export_contact (some public_key) = command_with_key CommandCode.export_contact public_key []

abbrev pub min_card_bytes : ℕ
min_card_bytes = 98

unfoldable pub import_contact : List ℕ → Built Command
unfolding checked
import_contact card = do
  reject_if (ltb (length card) min_card_bytes) (invalid_argument "card")
  checked CommandCode.import_contact card

unfoldable pub get_contact : List ℕ → Built Command
unfolding command_with_key
get_contact public_key = command_with_key CommandCode.get_contact_by_key public_key []

unfoldable pub get_advert_path : List ℕ → Built Command
unfolding command_with_key
get_advert_path public_key = command_with_key CommandCode.get_advert_path public_key (0 ∷ [])

unfoldable pub send_direct_text : List ℕ → ℕ → ℕ → Text → Command
unfolding u32_to_le
send_direct_text destination_prefix timestamp attempt text = record {
  code = CommandCode.send_txt_msg;
  payload = 0x00 ∷ attempt ∷ (u32_to_le timestamp ++ (destination_prefix ++ text));
}

unfoldable pub send_direct_command : List ℕ → ℕ → ℕ → Text → Command
unfolding u32_to_le
send_direct_command destination_prefix timestamp attempt command = record {
  code = CommandCode.send_txt_msg;
  payload = 0x01 ∷ attempt ∷ (u32_to_le timestamp ++ (destination_prefix ++ command));
}

unfoldable pub send_channel : ℕ → ℕ → ℕ → Text → Command
unfolding u32_to_le
send_channel chan txt_type timestamp text = record {
  code = CommandCode.send_channel_txt_msg;
  payload = txt_type ∷ chan ∷ (u32_to_le timestamp ++ text);
}

unfoldable pub get_channel : ℕ → Command
get_channel idx = record { code = CommandCode.get_channel; payload = idx ∷ [] }

unfoldable pub set_channel : ℕ → Text → List ℕ → Built Command
unfolding validate_text_field refuse_nul checked copy_into
set_channel idx name secret = do
  validate_text_field name 31 "name"
  refuse_nul name "name"
  named ← copy_into (idx ∷ replicate 48 0) 1 (length name + 1) name
  payload ← copy_into named 33 49 secret
  checked CommandCode.set_channel payload

unfoldable pub clear_channel : ℕ → Command
clear_channel idx = record { code = CommandCode.set_channel; payload = idx ∷ replicate 48 0 }

unfoldable pub send_login : List ℕ → Text → Built Command
unfolding refuse_nul command_with_key_suffix
send_login public_key password = do
  refuse_nul password "password"
  command_with_key_suffix CommandCode.send_login public_key password

unfoldable pub send_status_request : List ℕ → Built Command
unfolding command_with_key
send_status_request public_key = command_with_key CommandCode.send_status_req public_key []

unfoldable pub has_connection : List ℕ → Built Command
unfolding command_with_key
has_connection public_key = command_with_key CommandCode.has_connection public_key []

unfoldable pub logout : List ℕ → Built Command
unfolding command_with_key
logout public_key = command_with_key CommandCode.logout public_key []

unfoldable pub send_binary_request : List ℕ → ℕ → List ℕ → Built Command
unfolding command_with_key_suffix
send_binary_request public_key request_type bytes =
    command_with_key_suffix CommandCode.binary_req public_key (request_type ∷ bytes)

abbrev pub is_flood : ContactRoute → Bool
is_flood flood = true
is_flood _ = false

unfoldable pub send_anonymous_request : List ℕ → ℕ → ContactRoute → MeshPath → Built Command
unfolding encode_contact_route command_with_key_suffix
send_anonymous_request public_key request_type reply_route reply_path = do
  reject_if (request_type == 0) (invalid_argument "request_type")
  reject_if (is_flood reply_route) (invalid_argument "reply_route")
  descriptor ← encode_contact_route reply_route reply_path
  command_with_key_suffix CommandCode.send_anon_req public_key
      (request_type ∷ descriptor ∷ reply_path.bytes)

unfoldable pub discover_path : List ℕ → Built Command
unfolding command_with_key
discover_path public_key = command_with_key CommandCode.path_discovery public_key (0 ∷ [])

-- `0x80 | u8::from(prefix_only)`
unfoldable pub send_node_discovery : ℕ → Bool → ℕ → Option ℕ → Built Command
unfolding checked u32_to_le
send_node_discovery filter prefix_only tag since = do
  reject_if (tag == 0) (invalid_argument "tag")
  checked CommandCode.send_control_data
      (bit_or 0x80 (if prefix_only then 1 else 0) ∷ filter ∷ (u32_to_le tag ++ optional_u32 since))

module _ (p : Platform) where
  open p use {F64, of_i32}

  -- The frame of `update_contact`: key, type, flags, descriptor, path in 64 bytes, name in 32 bytes,
  -- time and coordinates.
  unfoldable pub contact_payload : Contact F64 → ℕ → ℤ → ℤ → List ℕ
  unfolding resize contact_type_to_u8 u32_to_le i32_to_le
  contact_payload contact descriptor latitude longitude =
      let head : List ℕ =
        contact.public_key.bytes
        ++ (contact_type_to_u8 contact.contact_type
            ∷ contact.flags
            ∷ descriptor
            ∷ contact.out_path.bytes) in
      let named : List ℕ = resize head 99 ++ contact.adv_name in
      resize named 131
      ++ (u32_to_le contact.last_advert ++ (i32_to_le latitude ++ i32_to_le longitude))

  unfoldable pub update_contact : Contact F64 → Built Command
  unfolding validate_text_field refuse_nul encode_contact_route scaled_coordinate contact_payload
      checked
  update_contact contact = do
    validate_text_field contact.adv_name 31 "name"
    refuse_nul contact.adv_name "name"
    descriptor ← encode_contact_route contact.route contact.out_path
    latitude ← scaled_coordinate p contact.adv_lat (of_i32 (negsuc 89)) (of_i32 (pos 90)) "latitude"
    longitude ←
        scaled_coordinate p contact.adv_lon (of_i32 (negsuc 179)) (of_i32 (pos 180)) "longitude"
    checked CommandCode.add_update_contact (contact_payload contact descriptor latitude longitude)
