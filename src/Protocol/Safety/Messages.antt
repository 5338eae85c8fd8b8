-- ===== src/Protocol/Safety/Messages.antt =====
-- Messages, confirmations, the clock and cards.
use meshquill.Common.Utf8.{Text}
use meshquill.Protocol.Safety.Rules.{safe}
use meshquill.Protocol.Parse.Messages.{
  parse_channel_msg, parse_contact_msg, parse_contact_uri, parse_ack, parse_current_time,
  parse_msg_sent,
}
use meshquill.Common.{Bool, List, NoPanic, ℕ}

module _ {F64 : Type 0} (raw : List ℕ) where
  pub NoPanic-parse_msg_sent : NoPanic (parse_msg_sent {F64 = F64} raw)
  unfolding parse_msg_sent
  NoPanic-parse_msg_sent = search safe depth 40 fits 20000

  pub NoPanic-parse_current_time : NoPanic (parse_current_time {F64 = F64} raw)
  unfolding parse_current_time
  NoPanic-parse_current_time = search safe depth 40 fits 20000

  pub NoPanic-parse_ack : NoPanic (parse_ack {F64 = F64} raw)
  unfolding parse_ack
  NoPanic-parse_ack = search safe depth 40 fits 20000

  pub NoPanic-parse_channel_msg : (is_v3 : Bool) → NoPanic (parse_channel_msg {F64 = F64} raw is_v3)
  unfolding parse_channel_msg
  NoPanic-parse_channel_msg is_v3 = search safe depth 40 fits 20000

  pub NoPanic-parse_contact_msg :
      (hex : List ℕ → Text) (is_v3 : Bool) → NoPanic (parse_contact_msg {F64 = F64} hex raw is_v3)
  unfolding parse_contact_msg
  NoPanic-parse_contact_msg hex is_v3 = search safe depth 40 fits 20000

  pub NoPanic-parse_contact_uri :
      (hex : List ℕ → Text) → NoPanic (parse_contact_uri {F64 = F64} hex raw)
  unfolding parse_contact_uri
  NoPanic-parse_contact_uri hex = search safe depth 40 fits 20000
