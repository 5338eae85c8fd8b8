-- ===== src/Protocol/Selector.antt =====
-- The packet that `Packet::parse` returns reports the selector of its first byte.
use meshquill.Protocol.Entry.{parse_lem, parse-empty}
use meshquill.Protocol.Parse.Lists.{
  parse_stats, parse_allowed_repeat_frequencies, parse_custom_vars,
}
use meshquill.Protocol.Parse.Settings.{
  parse_default_flood_scope, parse_channel_info, parse_advert_path, parse_auto_add_config,
  parse_tuning_params, parse_battery,
}
use meshquill.Protocol.Parse.Records.{
  parse_remote_status, parse_device_info, parse_self_info, parse_contact_end, parse_contact,
  parse_contact_start,
}
use meshquill.Protocol.Parse.{parse}
use meshquill.Protocol.Parse.Messages.{
  parse_ack, parse_contact_uri, parse_current_time, parse_channel_msg, parse_contact_msg,
  parse_msg_sent,
}
use meshquill.Protocol.Parse.Session.{
  parse_path_discovery, parse_control_data, parse_binary_response, parse_telemetry_response,
  parse_login_failed, parse_login_success, parse_signature, parse_sign_start, parse_disabled,
  parse_error, parse_ok, parse_private_key,
}
use meshquill.Error.{ParseError}
use meshquill.Protocol.Parse.Pieces.{Parsed}
use meshquill.Protocol.Packet.{Packet, packet_code}
use meshquill.Protocol.Parse.{unread, dispatch}
use meshquill.Protocol.PacketCode.{to_u8-from_u8, to_u8, from_u8, PacketCode}
use meshquill.Common.{
  Bool-cases, arith, inl, inr, length, ltb, [], ap, byte, slice_from, sym, ◌∙◌, ◌∷◌, Bool, List,
  err, false, if◌then◌else◌, ok, panic, refl, true, ℕ, ◌>>=◌, ◌≡◌,
}
use meshquill.Platform.{Platform}

-- Every packet that the parser returns reports the selector `c`.
record HasCode {F64 : Type 0} (c : PacketCode) (m : Parsed (Packet F64)) : Type 0 where
  code : (packet : Packet F64) → m ≡ ok packet → packet_code packet ≡ c

module _ {F64 : Type 0} {c : PacketCode} where
  HasCode-ok : (packet : Packet F64) → packet_code packet ≡ c → HasCode c (ok packet)
  HasCode-ok packet h = record { code = λ other e. cc }

  HasCode-err : (e : ParseError) → HasCode {F64 = F64} c (err e)
  HasCode-err e = record { code = λ other h. cc }

  HasCode-if :
      (b : Bool) (m n : Parsed (Packet F64))
      → HasCode c m
      → HasCode c n
      → HasCode c (if b then m else n)
  HasCode-if true m n hm hn = hm
  HasCode-if false m n hm hn = hn

  HasCode-bind {ℓ} :
      {A : Type ℓ} (m : Parsed A) (f : A → Parsed (Packet F64))
      → ((a : A) → HasCode c (f a))
      → HasCode c (m >>= f)
  HasCode-bind (ok a) f h = h a
  HasCode-bind (err e) f h = HasCode-err e
  HasCode-bind panic f h = record { code = λ other e. cc }

ruleset selects = (HasCode-ok, HasCode-err, HasCode-if, HasCode-bind, refl)

-- The third version of a message packet is reported as the first.
abbrev pub reported : PacketCode → PacketCode
reported PacketCode.contact_msg_recv_v3 = PacketCode.contact_msg_recv
reported PacketCode.channel_msg_recv_v3 = PacketCode.channel_msg_recv
reported c = c

parse_ok-code : {F64 : Type 0} (raw : List ℕ) → HasCode PacketCode.ok (parse_ok {F64 = F64} raw)
unfolding parse_ok packet_code
parse_ok-code (a ∷ []) = HasCode-ok _ refl
parse_ok-code (a ∷ b ∷ c ∷ d ∷ e ∷ []) = HasCode-ok _ refl
parse_ok-code _ = HasCode-err _

unread-code :
    {F64 : Type 0} {c : PacketCode} (raw : List ℕ) (code : ℕ)
    → c ≡ from_u8 code
    → HasCode {F64 = F64} c (unread raw code)
unfolding unread packet_code
unread-code raw code h =
    HasCode-bind (slice_from raw 1) (λ payload. ok (Packet.unknown code payload))
      (λ payload. HasCode-ok (Packet.unknown code payload) (sym h))

-- A byte that is read as `unknown value` is that value.
unknown_value :
    (code value : ℕ)
    → PacketCode.unknown value ≡ from_u8 code
    → PacketCode.unknown value ≡ from_u8 value
unfolding to_u8
unknown_value code value h =
    let e : value ≡ code = ap to_u8 h ∙ to_u8-from_u8 code in h ∙ ap from_u8 (sym e)

ruleset selecting = (selects, unread-code)

module _ (p : Platform) where
  dispatch-code :
      (c : PacketCode) (raw : List ℕ) (code : ℕ)
      → c ≡ from_u8 code
      → HasCode (reported c) (dispatch p c raw code)
  unfolding dispatch packet_code parse_error parse_private_key parse_disabled parse_sign_start
      parse_signature parse_login_success parse_login_failed parse_telemetry_response
      parse_binary_response parse_control_data parse_path_discovery parse_msg_sent parse_contact_msg
      parse_channel_msg parse_current_time parse_contact_uri parse_ack parse_contact_start
      parse_contact parse_contact_end parse_self_info parse_device_info parse_remote_status
      parse_battery parse_tuning_params parse_auto_add_config parse_advert_path parse_channel_info
      parse_default_flood_scope parse_custom_vars parse_allowed_repeat_frequencies parse_stats
  dispatch-code PacketCode.ok raw code h = parse_ok-code raw
  dispatch-code (PacketCode.unknown value) raw code h =
      unread-code raw value (unknown_value code value h)
  dispatch-code _ raw code h = search selecting depth 40 fits 5000

  -- A packet that `Packet::parse` accepts reports the selector of its first byte, where the third
  -- version of a message is reported as the first; a byte that is not parsed further is reported
  -- as it stands.
  pub packet_code-parse :
      (raw : List ℕ) (packet : Packet p.F64)
      → parse p raw ≡ ok packet
      → packet_code packet ≡ reported (from_u8 (byte raw 0))
  packet_code-parse [] packet h = cc (parse-empty p)
  packet_code-parse (b ∷ bs) packet h = elim (Bool-cases (ltb 176 (length (b ∷ bs)))) [
    | inl big ↦ ground (arith, parse_lem p b bs)
    | inr fits ↦
        (dispatch-code (from_u8 b) (b ∷ bs) b refl).code packet (ground (arith, parse_lem p b bs))
  ]
