-- ===== src/Protocol/RoundTrip/Variable.antt =====
-- A custom variable: the pair that `set_custom_var` writes is read as one entry.
use meshquill.Protocol.Entry.{parse-fits}
use meshquill.Protocol.RoundTrip.Padding.{decode_text_lem, checked-payload}
use meshquill.Protocol.Parse.Lists.{loose_pair, has_key, custom_entries, parse_custom_vars}
use meshquill.Common.Bytes.{slice_from_lem}
use meshquill.Common.Utf8.{IsUtf8}
use meshquill.Error.{ParseError}
use meshquill.Platform.{Platform}
use meshquill.Protocol.Packet.{Packet}
use meshquill.Protocol.Parse.{parse, dispatch}
use meshquill.Protocol.PacketCode.{from_u8}
use meshquill.Protocol.CommandCode.{CommandCode}
use meshquill.Protocol.Command.{Command}
use meshquill.Protocol.Command.Device
use meshquill.Common.{
  >>=-eq-ok, length-append, ltb, subst, suc, sym, ◌+◌, ◌-◌, ◌∙◌, ◌≤◌, List, Option-cases, String,
  [], arith, contains, false, inl, inr, length, ok, refl, some, split_on, split_once, true, ℕ, ◌++◌,
  ◌<◌, ◌==◌, ◌∷◌, ◌≡◌,
}
use meshquill.Protocol.Command.{has_separator, validate_custom_component, validate_text_field}
use meshquill.Common.Utf8.{Text, scan_utf8, lead_byte, Ranges}

scan_utf8-append :
    (rs : Ranges) (s t : List ℕ)
    → scan_utf8 rs s ≡ true
    → scan_utf8 [] t ≡ true
    → scan_utf8 rs (s ++ t) ≡ true
unfolding scan_utf8
scan_utf8-append [] [] t h k = k
scan_utf8-append (r ∷ rs) [] t h k = cc
scan_utf8-append [] (b ∷ s) t h k = elim (Option-cases (lead_byte b)) [
  | inl e ↦ ground (arith, e)
  | inr (rs, e) ↦ ground (arith, e, scan_utf8-append rs s t)
]
scan_utf8-append ((lo, hi) ∷ rs) (b ∷ s) t h k = ground (arith, scan_utf8-append rs s t)

separator-free :
    (t : Text)
    → has_separator t ≡ false
    → (contains 0 t ≡ false) × (contains b':' t ≡ false) × (contains b',' t ≡ false)
unfolding has_separator contains
separator-free [] h = (refl, refl, refl)
separator-free (b ∷ t) h =
    let (x, y, z) = separator-free t (ground arith) in (ground arith, ground arith, ground arith)

contains-append :
    (x : ℕ) (s t : Text) → contains x s ≡ false → contains x t ≡ false → contains x (s ++ t) ≡ false
unfolding contains
contains-append x [] t h k = k
contains-append x (y ∷ s) t h k = ground (arith, contains-append x s t)

split_on-whole : (sep : ℕ) (t : Text) → contains sep t ≡ false → split_on sep t ≡ t ∷ []
unfolding split_on contains
split_on-whole sep [] h = refl
split_on-whole sep (x ∷ t) h =
    let n : (x == sep) ≡ false = ground arith in rw (n, split_on-whole sep t (ground arith)) refl

split_once-pair :
    (sep : ℕ) (s t : Text) → contains sep s ≡ false → split_once sep (s ++ (sep ∷ t)) ≡ some (s, t)
unfolding split_once contains
split_once-pair sep [] t h = let e : (sep == sep) ≡ true = ground arith in rw e refl
split_once-pair sep (x ∷ s) t h =
    let n : (x == sep) ≡ false = ground arith in rw (n, split_once-pair sep s t (ground arith)) refl

validate_custom_component-eq-ok :
    (value : Text) (f : String) {u : Unit {0}}
    → validate_custom_component value f ≡ ok u
    → (0 < length value) × (has_separator value ≡ false)
unfolding validate_custom_component validate_text_field
validate_custom_component-eq-ok value f h = (ground arith, ground arith)

pair_entries :
    (key value : Text)
    → 0 < length key
    → 0 < length value
    → has_separator key ≡ false
    → has_separator value ≡ false
    → custom_entries (key ++ (b':' ∷ value)) ≡ ok (record { key = key; value = value } ∷ [])
unfolding custom_entries has_key loose_pair
pair_entries key value k v hk hv =
    let (kz, kc, ks) = separator-free key hk in
    let (vz, vc, vs) = separator-free value hv in
    let whole = key ++ (b':' ∷ value) in
    let free : contains b',' whole ≡ false =
      contains-append b',' key (b':' ∷ value) ks (unfold contains in vs) in
    ground (
      arith,
      length-append key (b':' ∷ value),
      split_on-whole b',' whole free,
      split_once-pair b':' key value kc,
    )

module _ (p : Platform) where
  custom_vars-read :
      (key value : Text)
      → length (key ++ (b':' ∷ value)) ≤ 140
      → IsUtf8 (key ++ (b':' ∷ value))
      → custom_entries (key ++ (b':' ∷ value)) ≡ ok (record { key = key; value = value } ∷ [])
      → parse_custom_vars {F64 = p.F64} (0x15 ∷ (key ++ (b':' ∷ value)))
        ≡ ok (
            Packet.custom_variables (record {
              raw = key ++ (b':' ∷ value);
              entries = record { key = key; value = value } ∷ [];
            }))
  unfolding parse_custom_vars
  custom_vars-read key value l u e =
      let whole = key ++ (b':' ∷ value) in
      let fits : ltb 140 (suc (length whole) - 1) ≡ false = ground arith in
      rw
        (
          fits,
          slice_from_lem {E = ParseError} (0x15 ∷ whole) 1 (omega arith),
          decode_text_lem whole "CustomVariables" u,
          e,
        )
        refl

  -- A custom variable that `set_custom_var` accepts, with key and value in UTF-8 and at most 139
  -- bytes long together, is read back as the only entry from a packet of the same bytes.
  pub parse-set_custom_var :
      (key value : Text) (command : Command)
      → length key + length value ≤ 139
      → IsUtf8 key
      → IsUtf8 value
      → Device.set_custom_var key value ≡ ok command
      → parse p (0x15 ∷ command.payload)
        ≡ ok (
            Packet.custom_variables (record {
              raw = command.payload;
              entries = record { key = key; value = value } ∷ [];
            }))
  unfolding dispatch from_u8 Device.set_custom_var
  parse-set_custom_var key value command l uk uv h =
      let (u, e, h1) = >>=-eq-ok (validate_custom_component key "key") _ h in
      let (v, e1, h2) = >>=-eq-ok (validate_custom_component value "value") _ h1 in
      let (some_key, free_key) = validate_custom_component-eq-ok key "key" e in
      let (some_value, free_value) = validate_custom_component-eq-ok value "value" e1 in
      let whole : List ℕ = key ++ (b':' ∷ value) in
      let sent : command.payload ≡ whole =
        checked-payload CommandCode.set_custom_var whole command h2 in
      let size : length whole ≤ 140 = omega (arith, length-append key (b':' ∷ value)) in
      subst
        (λ bytes.
          parse p (0x15 ∷ bytes)
          ≡ ok (
              Packet.custom_variables
                (record { raw = bytes; entries = record { key = key; value = value } ∷ [] })))
        (sym sent)
        (parse-fits p 0x15 whole (omega arith)
          ∙ custom_vars-read key value size
              (scan_utf8-append [] key (b':' ∷ value) uk (unfold scan_utf8 lead_byte in uv))
              (pair_entries key value some_key some_value free_key free_value))
