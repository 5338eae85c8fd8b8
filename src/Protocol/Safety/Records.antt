-- ===== src/Protocol/Safety/Records.antt =====
-- Contacts, device records and status.
use meshquill.Platform.{Platform}
use meshquill.Protocol.Safety.Rules.{safe}
use meshquill.Protocol.Parse.Records.{
  parse_contact, parse_self_info, parse_device_info, parse_contact_end, parse_contact_start,
  parse_remote_status,
}
use meshquill.Common.{List, NoPanic, ℕ}

module _ {F64 : Type 0} (raw : List ℕ) where
  pub NoPanic-parse_contact_start : NoPanic (parse_contact_start {F64 = F64} raw)
  unfolding parse_contact_start
  NoPanic-parse_contact_start = search safe depth 40 fits 20000

  pub NoPanic-parse_contact_end : NoPanic (parse_contact_end {F64 = F64} raw)
  unfolding parse_contact_end
  NoPanic-parse_contact_end = search safe depth 40 fits 20000

  pub NoPanic-parse_remote_status : NoPanic (parse_remote_status {F64 = F64} raw)
  unfolding parse_remote_status
  NoPanic-parse_remote_status = search safe depth 40 fits 20000

  pub NoPanic-parse_device_info : NoPanic (parse_device_info {F64 = F64} raw)
  unfolding parse_device_info
  NoPanic-parse_device_info = search safe depth 40 fits 20000

module _ (p : Platform) (raw : List ℕ) where
  pub NoPanic-parse_contact : NoPanic (parse_contact p raw)
  unfolding parse_contact
  NoPanic-parse_contact = search safe depth 40 fits 20000

  pub NoPanic-parse_self_info : NoPanic (parse_self_info p raw)
  unfolding parse_self_info
  NoPanic-parse_self_info = search safe depth 40 fits 20000
