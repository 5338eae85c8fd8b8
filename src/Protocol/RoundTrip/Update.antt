-- ===== src/Protocol/RoundTrip/Update.antt =====
-- A contact that `update_contact` accepts is read back by `parse_contact`.
use meshquill.Protocol.Parse.Records.{parse_contact}
use meshquill.Protocol.RoundTrip.Route.{contact_route-encode}
use meshquill.Protocol.RoundTrip.Contact.{layout-read}
use meshquill.Protocol.RoundTrip.Padding.{
  until_zero-padded, length-field, checked-payload, field, name_checked,
}
use meshquill.Protocol.RoundTrip.Layout.{length-layout, frame, contact_payload_lem, layout-append}
use meshquill.Common.Utf8.{IsUtf8}
use meshquill.Protocol.Entry.{parse-fits}
use meshquill.Protocol.Parse.Pieces.{parse_scaled_i32}
use meshquill.Protocol.Packet.{Packet}
use meshquill.Protocol.Parse.{parse, dispatch}
use meshquill.Protocol.PacketCode.{from_u8}
use meshquill.Protocol.CommandCode.{CommandCode}
use meshquill.Protocol.Command.{Command, i32_to_le, scaled_coordinate}
use meshquill.Protocol.Command.Peers
use meshquill.Domain.Values.{contact_type_from_u8}
use meshquill.Common.{
  >>=-eq-ok, List, ap, contains, replicate, sym, u32_to_le, ◌++◌, ◌∙◌, ◌∷◌, String, arith, false,
  length, ltb, negsuc, ok, pattern_of, pos, refl, signed, ℕ, ℤ, ◌-◌, ◌<◌, ◌^◌, ◌≡◌, ◌≤◌,
}
use meshquill.Protocol.Command.{scaled_coordinate, encode_contact_route, contact_type_to_u8}
use meshquill.Platform.{Platform}
use meshquill.Domain.{Contact, ContactRoute, ContactType, MeshPath, flood, path}

-- The values of an `i32`.
abbrev pub InI32 : ℤ → Type 0
InI32 (pos n) = n < 2 ^ 31
InI32 (negsuc n) = n < 2 ^ 31

pattern_of-bound : (z : ℤ) → InI32 z → pattern_of 32 z < 2 ^ 32
unfolding pattern_of
pattern_of-bound (pos n) h = omega arith
pattern_of-bound (negsuc n) h = omega arith

signed-pattern_of : (z : ℤ) → InI32 z → signed 32 (pattern_of 32 z) ≡ z
unfolding pattern_of signed
signed-pattern_of (pos n) h = ground arith
signed-pattern_of (negsuc n) h =
    let high : ltb (4294967296 - n - 1) 2147483648 ≡ false = ground arith in
    let back : 4294967296 - (4294967296 - n - 1) - 1 ≡ n = omega arith in rw (high, back) refl

-- A type that `ContactType::from_u8` gives.
abbrev pub IsCanonical : ContactType → Type 0
IsCanonical (ContactType.unknown value) = 3 < value
IsCanonical _ = Unit

contact_type-read :
    (t : ContactType) → IsCanonical t → contact_type_from_u8 (contact_type_to_u8 t) ≡ t
unfolding contact_type_from_u8 contact_type_to_u8
contact_type-read (ContactType.unknown value) h = ground arith
contact_type-read _ h = refl

encode_contact_route-bound :
    (route : ContactRoute) (out_path : MeshPath) (descriptor : ℕ)
    → encode_contact_route route out_path ≡ ok descriptor
    → length out_path.bytes ≤ 64
unfolding encode_contact_route
encode_contact_route-bound flood out_path descriptor h = ground arith
encode_contact_route-bound (path m n) out_path descriptor h = ground arith

module _ (p : Platform) where
  open p use {F64, of_i32, of_u32, div, mul, to_i32}

  -- What is left of a coordinate that has been written in millionths and read again.
  abbrev pub rescaled : F64 → F64
  rescaled value = div (of_i32 (to_i32 (mul value (of_u32 1000000)))) (of_u32 1000000)

  scaled_coordinate-eq-ok :
      (value minimum maximum : F64) (f : String) (z : ℤ)
      → scaled_coordinate p value minimum maximum f ≡ ok z
      → to_i32 (mul value (of_u32 1000000)) ≡ z
  unfolding scaled_coordinate
  scaled_coordinate-eq-ok value minimum maximum f z h = ground arith

  abbrev millionths : F64 → ℤ
  millionths value = to_i32 (mul value (of_u32 1000000))

  rescaled_lem :
      (value : F64)
      → ((x : F64) → InI32 (to_i32 x))
      → parse_scaled_i32 p (pattern_of 32 (millionths value)) ≡ rescaled value
  unfolding parse_scaled_i32
  rescaled_lem value saturates =
      ap (λ z. div (of_i32 z) (of_u32 1000000)) (signed-pattern_of (millionths value) (saturates _))

  -- The numbers at the end of a contact packet.
  abbrev numbers : Contact F64 → ℕ → List ℕ
  numbers contact lastmod =
      u32_to_le contact.last_advert
      ++ (u32_to_le (pattern_of 32 (millionths contact.adv_lat))
          ++ (u32_to_le (pattern_of 32 (millionths contact.adv_lon)) ++ u32_to_le lastmod))

  abbrev read_back : Contact F64 → ℕ → Contact F64
  read_back contact lastmod = record contact {
    adv_lat = rescaled contact.adv_lat;
    adv_lon = rescaled contact.adv_lon;
    lastmod = lastmod;
  }

  update_contact-eq-ok :
      (contact : Contact F64) (command : Command)
      → Peers.update_contact p contact ≡ ok command
      → (descriptor : ℕ) × (encode_contact_route contact.route contact.out_path ≡ ok descriptor)
        × (length contact.adv_name ≤ 31)
        × (contains 0 contact.adv_name ≡ false)
        × (command.payload
            ≡ Peers.contact_payload p contact descriptor
                (millionths contact.adv_lat)
                (millionths contact.adv_lon))
  unfolding Peers.update_contact
  update_contact-eq-ok contact command h =
      let (some_name, short, free, h1) = name_checked contact.adv_name 31 "name" _ command h in
      let (descriptor, e, h2) =
        >>=-eq-ok (encode_contact_route contact.route contact.out_path) _ h1 in
      let (lat, e', h3) = >>=-eq-ok (scaled_coordinate p contact.adv_lat _ _ "latitude") _ h2 in
      let (lon, e'', h4) = >>=-eq-ok (scaled_coordinate p contact.adv_lon _ _ "longitude") _ h3 in
      let lat_is = scaled_coordinate-eq-ok contact.adv_lat _ _ "latitude" lat e' in
      let lon_is = scaled_coordinate-eq-ok contact.adv_lon _ _ "longitude" lon e'' in
      (
        descriptor,
        e,
        short,
        free,
        checked-payload CommandCode.add_update_contact _ command h4
            ∙ ap (λ z. Peers.contact_payload p contact descriptor z lon) (sym lat_is)
            ∙ ap (Peers.contact_payload p contact descriptor (millionths contact.adv_lat))
                (sym lon_is),
      )

  -- What the parser makes of the bytes of a contact.
  frame-read :
      (contact : Contact F64) (descriptor lastmod : ℕ)
      → ((value : F64) → InI32 (to_i32 value))
      → length contact.public_key.bytes ≡ 32
      → IsCanonical contact.contact_type
      → IsUtf8 contact.adv_name
      → contact.last_advert < 2 ^ 32
      → lastmod < 2 ^ 32
      → length contact.adv_name ≤ 31
      → contains 0 contact.adv_name ≡ false
      → encode_contact_route contact.route contact.out_path ≡ ok descriptor
      → parse_contact p (0x03 ∷ frame contact descriptor (numbers contact lastmod))
        ≡ ok (Packet.contact (read_back contact lastmod))
  frame-read contact descriptor lastmod saturates k canonical u ha hm short free e =
      let bound = encode_contact_route-bound contact.route contact.out_path descriptor e in
      layout-read p contact.public_key.bytes contact.out_path.bytes
        (replicate (64 - length contact.out_path.bytes) 0) (field contact.adv_name 32)
        contact.adv_name contact.route (contact_type_to_u8 contact.contact_type) contact.flags
        descriptor contact.last_advert (pattern_of 32 (millionths contact.adv_lat))
        (pattern_of 32 (millionths contact.adv_lon)) lastmod k
        (length-field contact.out_path.bytes 64 bound)
        (length-field contact.adv_name 32 (omega arith))
        (contact_route-encode contact.route contact.out_path descriptor e)
        (until_zero-padded contact.adv_name (32 - length contact.adv_name) free) u ha
        (pattern_of-bound (millionths contact.adv_lat) (saturates _))
        (pattern_of-bound (millionths contact.adv_lon) (saturates _)) hm
      ∙ rw
          (
            contact_type-read contact.contact_type canonical,
            rescaled_lem contact.adv_lat saturates,
            rescaled_lem contact.adv_lon saturates,
          )
          refl

  -- A contact that `update_contact` accepts is read back from a contact packet of the same bytes
  -- and a modification time: all fields as they were, each coordinate after it was cut to
  -- millionths. The key has 32 bytes, the type is one that a type byte is read as, the name is
  -- UTF-8, the times are below 2 ^ 32, and the conversion of floats to `i32` stays in its range.
  pub parse-update_contact :
      (contact : Contact F64) (command : Command) (lastmod : ℕ)
      → ((value : F64) → InI32 (to_i32 value))
      → length contact.public_key.bytes ≡ 32
      → IsCanonical contact.contact_type
      → IsUtf8 contact.adv_name
      → contact.last_advert < 2 ^ 32
      → lastmod < 2 ^ 32
      → Peers.update_contact p contact ≡ ok command
      → parse p (0x03 ∷ (command.payload ++ u32_to_le lastmod))
        ≡ ok (
            Packet.contact (record contact {
              adv_lat = rescaled contact.adv_lat;
              adv_lon = rescaled contact.adv_lon;
              lastmod = lastmod;
            }))
  unfolding dispatch from_u8 i32_to_le u32_to_le
  parse-update_contact contact command lastmod saturates k canonical u ha hm h =
      let (descriptor, e, short, free, sent) = update_contact-eq-ok contact command h in
      let bound = encode_contact_route-bound contact.route contact.out_path descriptor e in
      let kind = contact_type_to_u8 contact.contact_type in
      let path_field : List ℕ = field contact.out_path.bytes 64 in
      let name_field : List ℕ = field contact.adv_name 32 in
      let lat : ℤ = millionths contact.adv_lat in
      let lon : ℤ = millionths contact.adv_lon in
      let bytes : command.payload ++ u32_to_le lastmod
          ≡ frame contact descriptor (numbers contact lastmod) =
        ap (λ t. t ++ u32_to_le lastmod)
          (sent ∙ contact_payload_lem p contact descriptor lat lon k bound short)
        ∙ layout-append contact.public_key.bytes kind contact.flags descriptor path_field name_field
            (u32_to_le contact.last_advert ++ (i32_to_le lat ++ i32_to_le lon))
            (u32_to_le lastmod) in
      let long =
        length-layout contact.public_key.bytes kind contact.flags descriptor path_field name_field
          (numbers contact lastmod) k (length-field contact.out_path.bytes 64 bound)
          (length-field contact.adv_name 32 (omega arith)) in
      ap (λ t. parse p (0x03 ∷ t)) bytes
      ∙ parse-fits p 0x03 (frame contact descriptor (numbers contact lastmod)) (omega (arith, long))
      ∙ frame-read contact descriptor lastmod saturates k canonical u ha hm short free e
