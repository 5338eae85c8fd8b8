-- ===== src/Protocol/Safety/Settings.antt =====
-- Configuration and statistics.
use meshquill.Common.Search.{position_bound}
use meshquill.Common.Bytes.{length-slice}
use meshquill.Error.{ParseError}
use meshquill.Protocol.Safety.Rules.{NoPanic-slice, safe}
use meshquill.Protocol.Parse.Settings.{
  name_end_of, parse_advert_path, parse_auto_add_config, parse_battery, parse_channel_info,
  parse_default_flood_scope, parse_tuning_params,
}
use meshquill.Common.{
  NoPanic-err, NoPanic-ok, Option, arith, length, none, ok, position, slice, some, ◌+◌, ◌≡◌, ◌≤◌,
  List, NoPanic, ℕ,
}

name_end-bound :
    (raw : List ℕ) (name_field : List ℕ) (name_end : ℕ)
    → slice {E = ParseError} raw 1 32 ≡ ok name_field
    → name_end_of (position 0 name_field) ≡ ok name_end
    → NoPanic (slice {E = ParseError} raw 1 (name_end + 1))
name_end-bound raw name_field name_end s e = NoPanic-slice raw 1 (name_end + 1) (omega arith) fits
  where
    found : (o : Option ℕ) → name_end_of o ≡ ok name_end → o ≡ some name_end
    found none e = cc
    found (some n) e = cc

    fits : name_end + 1 ≤ length raw
    fits = omega (
      arith,
      length-slice {E = ParseError} raw 1 32 s,
      position_bound 0 name_field name_end (found (position 0 name_field) e),
    )

NoPanic-name_end_of : (o : Option ℕ) → NoPanic (name_end_of o)
NoPanic-name_end_of none = NoPanic-err _
NoPanic-name_end_of (some n) = NoPanic-ok n

module _ {F64 : Type 0} (raw : List ℕ) where
  pub NoPanic-parse_battery : NoPanic (parse_battery {F64 = F64} raw)
  unfolding parse_battery
  NoPanic-parse_battery = search safe depth 40 fits 20000

  pub NoPanic-parse_tuning_params : NoPanic (parse_tuning_params {F64 = F64} raw)
  unfolding parse_tuning_params
  NoPanic-parse_tuning_params = search safe depth 40 fits 20000

  pub NoPanic-parse_auto_add_config : NoPanic (parse_auto_add_config {F64 = F64} raw)
  unfolding parse_auto_add_config
  NoPanic-parse_auto_add_config = search safe depth 40 fits 20000

  pub NoPanic-parse_advert_path : NoPanic (parse_advert_path {F64 = F64} raw)
  unfolding parse_advert_path
  NoPanic-parse_advert_path = search safe depth 40 fits 20000

  pub NoPanic-parse_default_flood_scope : NoPanic (parse_default_flood_scope {F64 = F64} raw)
  unfolding parse_default_flood_scope
  NoPanic-parse_default_flood_scope =
      search (name_end-bound, NoPanic-name_end_of, safe) depth 40 fits 20000

  pub NoPanic-parse_channel_info :
      (sha256 : List ℕ → List ℕ) → NoPanic (parse_channel_info {F64 = F64} sha256 raw)
  unfolding parse_channel_info
  NoPanic-parse_channel_info sha256 = search safe depth 40 fits 20000
