-- ===== src/Protocol/Safety/Session.antt =====
-- Command results, signing, remote sessions, control data.
use meshquill.Protocol.Safety.Rules.{safe}
use meshquill.Protocol.Parse.Session.{
  parse_path_discovery, parse_binary_response, parse_control_data, parse_disabled,
  parse_login_failed, parse_login_success, parse_private_key, parse_sign_start, parse_signature,
  parse_telemetry_response,
}
use meshquill.Common.{List, NoPanic, ℕ}

module _ {F64 : Type 0} (raw : List ℕ) where
  pub NoPanic-parse_private_key : NoPanic (parse_private_key {F64 = F64} raw)
  unfolding parse_private_key
  NoPanic-parse_private_key = search safe depth 40 fits 20000

  pub NoPanic-parse_disabled : NoPanic (parse_disabled {F64 = F64} raw)
  unfolding parse_disabled
  NoPanic-parse_disabled = search safe depth 40 fits 20000

  pub NoPanic-parse_sign_start : NoPanic (parse_sign_start {F64 = F64} raw)
  unfolding parse_sign_start
  NoPanic-parse_sign_start = search safe depth 40 fits 20000

  pub NoPanic-parse_signature : NoPanic (parse_signature {F64 = F64} raw)
  unfolding parse_signature
  NoPanic-parse_signature = search safe depth 40 fits 20000

  pub NoPanic-parse_login_success : NoPanic (parse_login_success {F64 = F64} raw)
  unfolding parse_login_success
  NoPanic-parse_login_success = search safe depth 40 fits 20000

  pub NoPanic-parse_login_failed : NoPanic (parse_login_failed {F64 = F64} raw)
  unfolding parse_login_failed
  NoPanic-parse_login_failed = search safe depth 40 fits 20000

  pub NoPanic-parse_telemetry_response : NoPanic (parse_telemetry_response {F64 = F64} raw)
  unfolding parse_telemetry_response
  NoPanic-parse_telemetry_response = search safe depth 40 fits 20000

  pub NoPanic-parse_binary_response : NoPanic (parse_binary_response {F64 = F64} raw)
  unfolding parse_binary_response
  NoPanic-parse_binary_response = search safe depth 40 fits 20000

  pub NoPanic-parse_control_data : NoPanic (parse_control_data {F64 = F64} raw)
  unfolding parse_control_data
  NoPanic-parse_control_data = search safe depth 40 fits 20000

  pub NoPanic-parse_path_discovery : NoPanic (parse_path_discovery {F64 = F64} raw)
  unfolding parse_path_discovery
  NoPanic-parse_path_discovery = search safe depth 40 fits 20000
