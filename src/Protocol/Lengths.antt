-- ===== src/Protocol/Lengths.antt =====
-- The lengths of the packets that `Packet::parse` accepts.
use meshquill.Protocol.Parse.Lists.{
  stats_of, parse_core_stats, parse_radio_stats, parse_packet_stats,
}
use meshquill.Protocol.Parse.Pieces.{require_len, require_exact_len}
use meshquill.Domain.{DeviceInfo, DeviceStats}
use meshquill.Platform.{Platform}
use meshquill.Protocol.Parse.{parse, dispatch, unread}
use meshquill.Protocol.Entry.{parse_lem, parse-empty}
use meshquill.Protocol.Parse.Lists.{
  parse_stats, parse_allowed_repeat_frequencies, parse_custom_vars,
}
use meshquill.Protocol.Parse.Settings.{
  parse_default_flood_scope, parse_channel_info, parse_advert_path, parse_auto_add_config,
  parse_tuning_params, parse_battery,
}
use meshquill.Protocol.Parse.Records.{
  unknown_device, device_info_v10, device_info_v3, device_info_v9, parse_remote_status,
  parse_device_info, parse_self_info, parse_contact_end, parse_contact, parse_contact_start,
}
use meshquill.Protocol.Parse.Messages.{
  parse_ack, parse_contact_uri, parse_current_time, parse_channel_msg, parse_contact_msg,
  parse_msg_sent,
}
use meshquill.Protocol.Parse.Session.{
  parse_path_discovery, parse_control_data, parse_binary_response, parse_telemetry_response,
  parse_login_failed, parse_login_success, parse_signature, parse_sign_start, parse_disabled,
  parse_error, parse_ok, parse_private_key,
}
use meshquill.Common.{
  not, ◌==◌, ◌||◌, reject_if, at, reject_if-eq-ok, Bool-cases, [], byte, inl, inr, ltb, ◌∷◌, List,
  arith, length, ok, refl, ℕ, ◌≡◌, ◌≤◌,
}
use meshquill.Protocol.Safety.Rules.{require_len-eq-ok}
use meshquill.Protocol.Layouts.{
  HasLayout, Gives, Gives-ok, Gives-err, Gives-if, Gives-bind, at-eq-ok, lengths,
}
use meshquill.Protocol.PacketCode.{from_u8, PacketCode}
use meshquill.Protocol.Packet.{Packet}
use meshquill.Protocol.Parse.Pieces.{Parsed}

stats-HasLayout :
    (raw : List ℕ) (subtype : ℕ) {stats : DeviceStats}
    → stats_of raw subtype ≡ ok stats
    → byte raw 1 ≡ subtype
    → HasLayout PacketCode.stats raw
unfolding stats_of parse_core_stats parse_radio_stats parse_packet_stats require_exact_len
    require_len
stats-HasLayout raw subtype h first = ground arith

parse_ok-Gives :
    {F64 : Type 0} (raw : List ℕ)
    → Gives {A = Packet F64} (λ packet. HasLayout PacketCode.ok raw) (parse_ok raw)
unfolding parse_ok
parse_ok-Gives (a ∷ []) = Gives-ok _ (inl refl)
parse_ok-Gives (a ∷ b ∷ c ∷ d ∷ e ∷ []) = Gives-ok _ (inr refl)
parse_ok-Gives _ = Gives-err _

parse_stats-Gives :
    {F64 : Type 0} (raw : List ℕ)
    → Gives {A = Packet F64} (λ packet. HasLayout PacketCode.stats raw) (parse_stats raw)
unfolding parse_stats
parse_stats-Gives raw = Gives-bind (require_len raw 2 _) _ λ u fits.
    Gives-bind (at raw 1) _ λ subtype first.
      Gives-bind (stats_of raw subtype) _
        λ stats found. Gives-ok _ (stats-HasLayout raw subtype found (at-eq-ok raw 1 first))

parse_auto_add_config-Gives :
    {F64 : Type 0} (raw : List ℕ)
    → Gives {A = Packet F64}
        (λ packet. HasLayout PacketCode.autoadd_config raw)
        (parse_auto_add_config raw)
unfolding parse_auto_add_config require_len
parse_auto_add_config-Gives [] = record { gives = λ a e. ground arith }
parse_auto_add_config-Gives (x ∷ []) = record { gives = λ a e. ground arith }
parse_auto_add_config-Gives (x ∷ y ∷ []) = record { gives = λ a e. inl refl }
parse_auto_add_config-Gives (x ∷ y ∷ z ∷ []) =
    Gives-bind (reject_if (ltb 64 z) _) _
      λ u fine. record { gives = λ a e. inr (refl, ground (arith, reject_if-eq-ok _ _ fine)) }
parse_auto_add_config-Gives (x ∷ y ∷ z ∷ w ∷ rest) = record { gives = λ a e. ground arith }

Gives-known : {A : Type 0} {Q : Type 0} (m : Parsed A) → Q → Gives (λ a. Q) m
Gives-known m q = record { gives = λ a e. q }

parse_remote_status-Gives :
    {F64 : Type 0} (raw : List ℕ)
    → Gives {A = Packet F64}
        (λ packet. HasLayout PacketCode.status_response raw)
        (parse_remote_status raw)
unfolding parse_remote_status
parse_remote_status-Gives raw =
    Gives-if (not (length raw == 60 || length raw == 64)) _ _
      (λ other. Gives-bind (require_len raw 60 _) _ λ u fits. Gives-err _)
      λ one. Gives-bind (at raw 1) _ λ reserved first.
        Gives-bind (reject_if (not (reserved == 0)) _) _ λ u fine.
          let same = at-eq-ok raw 1 first in
          let zeros = reject_if-eq-ok _ _ fine in Gives-known _ (ground arith, ground arith)

-- The fields that a protocol version adds ask for a length, and leave the version as it is.
abbrev Adds : ℕ → ℕ → List ℕ → DeviceInfo → DeviceInfo → Type 0
Adds version size raw info result =
    (version ≤ info.protocol_version → size ≤ length raw)
    × (result.protocol_version ≡ info.protocol_version)

device_info_v3-Gives :
    (raw : List ℕ) (info : DeviceInfo) → Gives (Adds 3 80 raw info) (device_info_v3 raw info)
unfolding device_info_v3
device_info_v3-Gives raw info = search lengths depth 40 fits 5000

device_info_v9-Gives :
    (raw : List ℕ) (info : DeviceInfo) → Gives (Adds 9 81 raw info) (device_info_v9 raw info)
unfolding device_info_v9
device_info_v9-Gives raw info = search lengths depth 40 fits 5000

device_info_v10-Gives :
    (raw : List ℕ) (info : DeviceInfo) → Gives (Adds 10 82 raw info) (device_info_v10 raw info)
unfolding device_info_v10
device_info_v10-Gives raw info = search lengths depth 40 fits 5000

parse_device_info-Gives :
    {F64 : Type 0} (raw : List ℕ)
    → Gives {A = Packet F64}
        (λ packet. HasLayout PacketCode.device_info raw)
        (parse_device_info raw)
unfolding parse_device_info
parse_device_info-Gives raw = Gives-bind (require_len raw 2 _) _ λ u fits.
    Gives-bind (at raw 1) _ λ version first.
      Gives-bind (device_info_v3 raw (unknown_device version)) _ λ info three.
        Gives-bind (device_info_v9 raw info) _ λ info' nine.
          Gives-bind (device_info_v10 raw info') _ λ info'' ten.
            let (a, b) = (device_info_v3-Gives raw (unknown_device version)).gives info three in
            let (c, d) = (device_info_v9-Gives raw info).gives info' nine in
            let (e, f) = (device_info_v10-Gives raw info').gives info'' ten in
            let same = at-eq-ok raw 1 first in
            let size = require_len-eq-ok raw 2 _ fits in
            Gives-ok _ (
              size,
              λ l. a (omega (arith, same, l)),
              λ l. c (omega (arith, same, b, l)),
              λ l. e (omega (arith, same, b, d, l)),
            )

module _ (p : Platform) where
  dispatch-Gives :
      (c : PacketCode) (raw : List ℕ) (code : ℕ)
      → 1 ≤ length raw
      → Gives (λ packet. HasLayout c raw) (dispatch p c raw code)
  unfolding dispatch unread parse_error parse_private_key parse_disabled parse_sign_start
      parse_signature parse_login_success parse_login_failed parse_telemetry_response
      parse_binary_response parse_control_data parse_path_discovery parse_msg_sent parse_contact_msg
      parse_channel_msg parse_current_time parse_contact_uri parse_ack parse_contact_start
      parse_contact parse_contact_end parse_self_info parse_device_info parse_remote_status
      parse_battery parse_tuning_params parse_auto_add_config parse_advert_path parse_channel_info
      parse_default_flood_scope parse_custom_vars parse_allowed_repeat_frequencies parse_stats
  dispatch-Gives PacketCode.ok raw code h = parse_ok-Gives raw
  dispatch-Gives PacketCode.device_info raw code h = parse_device_info-Gives raw
  dispatch-Gives PacketCode.autoadd_config raw code h = parse_auto_add_config-Gives raw
  dispatch-Gives PacketCode.status_response raw code h = parse_remote_status-Gives raw
  dispatch-Gives PacketCode.stats raw code h = parse_stats-Gives raw
  dispatch-Gives _ raw code h = search lengths depth 40 fits 5000

  -- `Packet::parse` accepts a packet only in a layout of its first byte, as `HasLayout` lists them:
  -- with an exact length where the layout is fixed and a least one where more may follow, with the
  -- lengths that its own bytes ask for (the version of a device's description, the subtype of
  -- statistics, the descriptor of an advertised path, the mark of a signed message), and zeros where
  -- bytes are reserved. A selector without a layout of its own asks for its first byte only.
  pub parse-HasLayout :
      (raw : List ℕ) (packet : Packet p.F64)
      → parse p raw ≡ ok packet
      → HasLayout (from_u8 (byte raw 0)) raw
  parse-HasLayout [] packet h = cc (parse-empty p)
  parse-HasLayout (b ∷ bs) packet h = elim (Bool-cases (ltb 176 (length (b ∷ bs)))) [
    | inl big ↦ ground (arith, parse_lem p b bs)
    | inr fits ↦
        (dispatch-Gives (from_u8 b) (b ∷ bs) b (omega arith)).gives packet
          (ground (arith, parse_lem p b bs))
  ]
