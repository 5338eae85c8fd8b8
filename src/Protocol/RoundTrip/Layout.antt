-- ===== src/Protocol/RoundTrip/Layout.antt =====
-- The layout of a contact record, and the payload that `update_contact` builds.
use meshquill.Protocol.RoundTrip.Padding.{length-field, field}
use meshquill.Common.{
  List, [], ap, append_assoc, arith, length, length-append, refl, replicate, suc, take, u32_to_le,
  zero, ℕ, ℤ, ◌++◌, ◌+◌, ◌-◌, ◌∙◌, ◌∷◌, ◌≡◌, ◌≤◌,
}
use meshquill.Platform.{Platform}
use meshquill.Domain.{Contact}
use meshquill.Protocol.Command.{contact_type_to_u8, i32_to_le, resize}
use meshquill.Protocol.Command.Peers.{contact_payload}

-- The pieces of a contact in the order of the wire; a packet has the modification time behind them.
abbrev pub layout : List ℕ → ℕ → ℕ → ℕ → List ℕ → List ℕ → List ℕ → List ℕ
layout key kind flags descriptor path_field name_field rest =
    key ++ (kind ∷ flags ∷ descriptor ∷ (path_field ++ (name_field ++ rest)))

take_all : (n : ℕ) (t : List ℕ) → length t ≤ n → take n t ≡ t
take_all zero [] h = refl
take_all zero (x ∷ t) h = absurd (omega arith)
take_all (suc n) [] h = refl
take_all (suc n) (x ∷ t) h = ap (λ r. x ∷ r) (take_all n t (omega arith))

resize-field : (t : List ℕ) (n : ℕ) → length t ≤ n → resize t n ≡ field t n
unfolding resize
resize-field t n h = rw (take_all n t h) refl

-- Zeros behind two pieces are the zeros of the second.
field-append :
    (front t : List ℕ) (n m : ℕ) → n ≡ length front + m → field (front ++ t) n ≡ front ++ field t m
field-append front t n m h =
    let e : n - length (front ++ t) ≡ m - length t = omega (arith, length-append front t) in
    append_assoc front t (replicate (n - length (front ++ t)) 0)
    ∙ ap (λ (k : ℕ). front ++ (t ++ replicate k 0)) e

module _ {F64 : Type 0} where
  abbrev pub frame : Contact F64 → ℕ → List ℕ → List ℕ
  frame contact descriptor rest =
      layout contact.public_key.bytes (contact_type_to_u8 contact.contact_type) contact.flags
        descriptor (field contact.out_path.bytes 64) (field contact.adv_name 32) rest

resized :
    (key : List ℕ) (kind flags descriptor : ℕ) (bytes name rest : List ℕ)
    → length key ≡ 32
    → length bytes ≤ 64
    → length name ≤ 31
    → resize (resize (key ++ (kind ∷ flags ∷ descriptor ∷ bytes)) 99 ++ name) 131 ++ rest
      ≡ layout key kind flags descriptor (field bytes 64) (field name 32) rest
resized key kind flags descriptor bytes name rest k l n =
    let first : List ℕ = key ++ (kind ∷ flags ∷ descriptor ∷ field bytes 64) in
    let long : length first ≡ 99 = omega (
      arith,
      length-append key (kind ∷ flags ∷ descriptor ∷ field bytes 64),
      length-field bytes 64 l,
    ) in
    let head : resize (key ++ (kind ∷ flags ∷ descriptor ∷ bytes)) 99 ≡ first =
      resize-field (key ++ (kind ∷ flags ∷ descriptor ∷ bytes)) 99
        (omega (arith, length-append key (kind ∷ flags ∷ descriptor ∷ bytes)))
      ∙ field-append key (kind ∷ flags ∷ descriptor ∷ bytes) 99 67 (omega arith)
      ∙ ap (λ t. key ++ t) (field-append (kind ∷ flags ∷ descriptor ∷ []) bytes 67 64 refl) in
    let whole : resize (first ++ name) 131 ≡ first ++ field name 32 =
      resize-field (first ++ name) 131 (omega (arith, length-append first name))
      ∙ field-append first name 131 32 (omega arith) in
    ap (λ t. resize (t ++ name) 131 ++ rest) head
    ∙ ap (λ t. t ++ rest) whole
    ∙ append_assoc first (field name 32) rest
    ∙ append_assoc key (kind ∷ flags ∷ descriptor ∷ field bytes 64) (field name 32 ++ rest)

pub layout-append :
    (key : List ℕ) (kind flags descriptor : ℕ) (path_field name_field rest more : List ℕ)
    → layout key kind flags descriptor path_field name_field rest ++ more
      ≡ layout key kind flags descriptor path_field name_field (rest ++ more)
layout-append key kind flags descriptor path_field name_field rest more =
    append_assoc key (kind ∷ flags ∷ descriptor ∷ (path_field ++ (name_field ++ rest))) more
    ∙ ap (λ t. key ++ (kind ∷ flags ∷ descriptor ∷ t))
        (append_assoc path_field (name_field ++ rest) more
          ∙ ap (λ t. path_field ++ t) (append_assoc name_field rest more))

pub contact_payload_lem :
    (p : Platform) (contact : Contact p.F64) (descriptor : ℕ) (lat lon : ℤ)
    → length contact.public_key.bytes ≡ 32
    → length contact.out_path.bytes ≤ 64
    → length contact.adv_name ≤ 31
    → contact_payload p contact descriptor lat lon
      ≡ frame contact descriptor (u32_to_le contact.last_advert ++ (i32_to_le lat ++ i32_to_le lon))
unfolding contact_payload
contact_payload_lem p contact descriptor lat lon k l n =
    let rest : List ℕ = u32_to_le contact.last_advert ++ (i32_to_le lat ++ i32_to_le lon) in
    resized contact.public_key.bytes (contact_type_to_u8 contact.contact_type) contact.flags
      descriptor contact.out_path.bytes contact.adv_name rest k l n

pub length-layout :
    (key : List ℕ) (kind flags descriptor : ℕ) (path_field name_field rest : List ℕ)
    → length key ≡ 32
    → length path_field ≡ 64
    → length name_field ≡ 32
    → length (layout key kind flags descriptor path_field name_field rest) ≡ 131 + length rest
length-layout key kind flags descriptor path_field name_field rest k l m = omega (
  arith,
  length-append key (kind ∷ flags ∷ descriptor ∷ (path_field ++ (name_field ++ rest))),
  length-append path_field (name_field ++ rest),
  length-append name_field rest,
)
