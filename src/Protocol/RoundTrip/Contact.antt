-- ===== src/Protocol/RoundTrip/Contact.antt =====
-- A contact record: `parse_contact` on a packet of known pieces.
use meshquill.Protocol.RoundTrip.Layout.{layout}
use meshquill.Common.Pieces.{drop_add, at-drop, slice-drop, read_u32-drop}
use meshquill.Common.{
  [], ap, append_assoc, drop, drop-append, length-append, refl, u32_to_le, ◌++◌, ◌<◌, ◌^◌, ◌∙◌, ◌∷◌,
  List, arith, at, length, ok, read_u32, slice, ℕ, ◌+◌, ◌≡◌, ◌≤◌,
}
use meshquill.Common.Utf8.{from_utf8_lem, IsUtf8, Text}
use meshquill.Platform.{Platform}
use meshquill.Error.{ParseError}
use meshquill.Protocol.Packet.{Packet}
use meshquill.Domain.{ContactRoute}
use meshquill.Domain.Values.{try_public_key, try_path, contact_type_from_u8}
use meshquill.Protocol.Parse.Pieces.{contact_route, until_zero, parse_scaled_i32}
use meshquill.Protocol.Parse.Records.{parse_contact}

try_public_key_lem :
    (key : List ℕ) → length key ≡ 32 → try_public_key key ≡ ok (record { bytes = key })
unfolding try_public_key
try_public_key_lem key h = ground arith

try_path_lem :
    (bytes : List ℕ) → length bytes ≤ 128 → try_path bytes ≡ ok (record { bytes = bytes })
unfolding try_path
try_path_lem bytes h = ground arith

module _ (p : Platform) where
  pub contact-read :
      (raw key path_bytes named : List ℕ) (name : Text) (route : ContactRoute)
      (kind flags descriptor advert lat lon lastmod : ℕ)
      → 148 ≤ length raw
      → length key ≡ 32
      → length path_bytes ≤ 64
      → contact_route descriptor ≡ (route, length path_bytes)
      → until_zero named ≡ name
      → IsUtf8 name
      → slice {E = ParseError} raw 1 33 ≡ ok key
      → at {E = ParseError} raw 33 ≡ ok kind
      → at {E = ParseError} raw 34 ≡ ok flags
      → at {E = ParseError} raw 35 ≡ ok descriptor
      → slice {E = ParseError} raw 36 (36 + length path_bytes) ≡ ok path_bytes
      → slice {E = ParseError} raw 100 132 ≡ ok named
      → read_u32 {E = ParseError} raw 132 ≡ ok advert
      → read_u32 {E = ParseError} raw 136 ≡ ok lat
      → read_u32 {E = ParseError} raw 140 ≡ ok lon
      → read_u32 {E = ParseError} raw 144 ≡ ok lastmod
      → parse_contact p raw
        ≡ ok (
            Packet.contact (record {
              public_key = record { bytes = key };
              contact_type = contact_type_from_u8 kind;
              flags = flags;
              route = route;
              out_path = record { bytes = path_bytes };
              adv_name = name;
              last_advert = advert;
              adv_lat = parse_scaled_i32 p lat;
              adv_lon = parse_scaled_i32 p lon;
              lastmod = lastmod;
            }))
  unfolding parse_contact
  contact-read raw key path_bytes named name route kind flags descriptor advert lat lon lastmod long
        k l r n u s1 a33 a34 a35 s36 s100 r132 r136 r140 r144 =
      ground (
        arith,
        try_public_key_lem key k,
        try_path_lem path_bytes (omega arith),
        from_utf8_lem name u,
      )

  -- The read of a whole record.
  pub layout-read :
      (key path_bytes zeros named : List ℕ) (name : Text) (route : ContactRoute)
      (kind flags descriptor advert lat lon lastmod : ℕ)
      → length key ≡ 32
      → length (path_bytes ++ zeros) ≡ 64
      → length named ≡ 32
      → contact_route descriptor ≡ (route, length path_bytes)
      → until_zero named ≡ name
      → IsUtf8 name
      → advert < 2 ^ 32
      → lat < 2 ^ 32
      → lon < 2 ^ 32
      → lastmod < 2 ^ 32
      → parse_contact p (
          0x03
          ∷ layout key kind flags descriptor
              (path_bytes ++ zeros)
              named
              (u32_to_le advert ++ (u32_to_le lat ++ (u32_to_le lon ++ u32_to_le lastmod))))
        ≡ ok (
            Packet.contact (record {
              public_key = record { bytes = key };
              contact_type = contact_type_from_u8 kind;
              flags = flags;
              route = route;
              out_path = record { bytes = path_bytes };
              adv_name = name;
              last_advert = advert;
              adv_lat = parse_scaled_i32 p lat;
              adv_lon = parse_scaled_i32 p lon;
              lastmod = lastmod;
            }))
  unfolding u32_to_le
  layout-read key path_bytes zeros named name route kind flags descriptor advert lat lon lastmod k l
        m r n u ha hla hlo hlm =
      let numbers : List ℕ =
        u32_to_le advert ++ (u32_to_le lat ++ (u32_to_le lon ++ u32_to_le lastmod)) in
      let rest : List ℕ =
        kind ∷ flags ∷ descriptor ∷ ((path_bytes ++ zeros) ++ (named ++ numbers)) in
      let raw : List ℕ = 0x03 ∷ (key ++ rest) in
      let long : length raw ≡ 148 = omega (
        arith,
        length-append key rest,
        length-append (path_bytes ++ zeros) (named ++ numbers),
        length-append named numbers,
      ) in
      let d33 : drop 33 raw ≡ rest = drop-append 32 key rest (omega arith) in
      let d36 : drop 36 raw ≡ (path_bytes ++ zeros) ++ (named ++ numbers) =
        drop_add 33 3 raw ∙ ap (drop 3) d33 in
      let d100 : drop 100 raw ≡ named ++ numbers =
        drop_add 36 64 raw
        ∙ ap (drop 64) d36
        ∙ drop-append 64 (path_bytes ++ zeros) (named ++ numbers) (omega arith) in
      let d132 : drop 132 raw ≡ numbers =
        drop_add 100 32 raw ∙ ap (drop 32) d100 ∙ drop-append 32 named numbers (omega arith) in
      contact-read raw key path_bytes named name route kind flags descriptor advert lat lon lastmod
        (omega arith) k (omega (arith, length-append path_bytes zeros)) r n u
        (slice-drop raw 1 33 key rest (omega arith) refl (omega arith)) (at-drop raw 33 kind _ d33)
        (at-drop raw 34 flags _ (drop_add 33 1 raw ∙ ap (drop 1) d33))
        (at-drop raw 35 descriptor _ (drop_add 33 2 raw ∙ ap (drop 2) d33))
        (slice-drop raw 36 (36 + length path_bytes) path_bytes _ (omega arith)
          (d36 ∙ append_assoc path_bytes zeros (named ++ numbers)) refl)
        (slice-drop raw 100 132 named numbers (omega arith) d100 (omega arith))
        (read_u32-drop raw 132 advert _ ha d132)
        (read_u32-drop raw 136 lat _ hla (drop_add 132 4 raw ∙ ap (drop 4) d132))
        (read_u32-drop raw 140 lon _ hlo (drop_add 132 8 raw ∙ ap (drop 8) d132))
        (read_u32-drop raw 144 lastmod [] hlm (drop_add 132 12 raw ∙ ap (drop 12) d132))
