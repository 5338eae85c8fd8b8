-- ===== src/Protocol/Safety.antt =====
-- No packet makes `Packet::parse` panic: every index and range lies inside what was checked.
pub mod Rules
mod Session
mod Messages
mod Records
mod Settings
mod Lists
use meshquill.Common.{
  List, NoPanic, NoPanic-err, NoPanic-ok, [], arith, length, no_panic, ok, panic, reject_if, ℕ, ◌<◌,
  ◌==◌, ◌∷◌, ◌≡◌, ◌≢◌,
}
use Session
use Messages
use Records
use Settings
use Lists
use Rules.{NoPanic-at, NoPanic-slice_from}
use meshquill.Error.{ParseError}
use meshquill.Platform.{Platform}
use meshquill.Protocol.PacketCode
use meshquill.Protocol.PacketCode.{PacketCode, from_u8}
use meshquill.Protocol.Packet.{Packet}
use meshquill.Protocol.Parse.{unread, dispatch, parse}
use meshquill.Protocol.Parse.Session.{parse_ok, parse_error}

NoPanic-parse_ok : {F64 : Type 0} (raw : List ℕ) → NoPanic (parse_ok {F64 = F64} raw)
unfolding parse_ok
NoPanic-parse_ok (a ∷ []) = NoPanic-ok _
NoPanic-parse_ok (a ∷ b ∷ c ∷ d ∷ e ∷ []) = NoPanic-ok _
NoPanic-parse_ok _ = NoPanic-err _

NoPanic-unread :
    {F64 : Type 0} (raw : List ℕ) (code : ℕ)
    → 0 < length raw
    → NoPanic (unread {F64 = F64} raw code)
unfolding unread
NoPanic-unread raw code h = search (no_panic, NoPanic-slice_from, arith)

ruleset parsers = (
  NoPanic-ok, NoPanic-unread, Session.NoPanic-parse_private_key, Session.NoPanic-parse_disabled,
  Session.NoPanic-parse_sign_start, Session.NoPanic-parse_signature,
  Session.NoPanic-parse_login_success, Session.NoPanic-parse_login_failed,
  Session.NoPanic-parse_telemetry_response, Session.NoPanic-parse_binary_response,
  Session.NoPanic-parse_control_data, Session.NoPanic-parse_path_discovery,
  Messages.NoPanic-parse_msg_sent, Messages.NoPanic-parse_current_time, Messages.NoPanic-parse_ack,
  Messages.NoPanic-parse_channel_msg, Messages.NoPanic-parse_contact_msg,
  Messages.NoPanic-parse_contact_uri, Records.NoPanic-parse_contact_start,
  Records.NoPanic-parse_contact_end, Records.NoPanic-parse_remote_status,
  Records.NoPanic-parse_device_info, Records.NoPanic-parse_contact, Records.NoPanic-parse_self_info,
  Settings.NoPanic-parse_battery, Settings.NoPanic-parse_tuning_params,
  Settings.NoPanic-parse_auto_add_config, Settings.NoPanic-parse_advert_path,
  Settings.NoPanic-parse_default_flood_scope, Settings.NoPanic-parse_channel_info,
  Lists.NoPanic-parse_custom_vars, Lists.NoPanic-parse_allowed_repeat_frequencies,
  Lists.NoPanic-parse_stats,
)

nonempty :
    (raw : List ℕ) (e : ParseError) {u : Unit {0}}
    → reject_if (length raw == 0) e ≡ ok u
    → 0 < length raw
nonempty raw e h = ground arith

module _ (p : Platform) where
  NoPanic-dispatch :
      (c : PacketCode) (raw : List ℕ) (code : ℕ) → 0 < length raw → NoPanic (dispatch p c raw code)
  unfolding dispatch
  NoPanic-dispatch PacketCode.ok raw code h = NoPanic-parse_ok raw
  NoPanic-dispatch _ raw code h = search parsers

  NoPanic-parse : (raw : List ℕ) → NoPanic (parse p raw)
  unfolding parse
  NoPanic-parse raw = search (no_panic, NoPanic-at, NoPanic-dispatch, nonempty, arith) depth 12

  -- `Packet::parse` panics on no byte string, of any length and content.
  pub parse-ne-panic : (raw : List ℕ) → parse p raw ≢ panic
  parse-ne-panic raw = (NoPanic-parse raw).ne
