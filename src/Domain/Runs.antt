-- ===== src/Domain/Runs.antt =====
-- A node-discovery response with a key of eight bytes.
use meshquill.Common.{
  at, negsuc, ok, panic, pos, read_i8, read_u32, refl, replicate, signed, slice_from, some,
  u32_from_le, ◌∷◌, ◌≡◌, ◌≢◌,
}
use meshquill.Domain.{ControlData, NodeDiscoveryResponse}
use meshquill.Domain.Values.{discovery_response, node_discovery_response}
use meshquill.Domain.Discovery.{
  node_discovery_response-eq-ok, IsResponse, node_discovery_response-ne-panic,
}

abbrev control : ControlData
control = record {
  snr_qdb = pos 8;
  rssi = negsuc 99;
  path_len = 0;
  payload = 0x92 ∷ 0xfc ∷ 1 ∷ 0 ∷ 0 ∷ 0 ∷ replicate 8 5;
}

abbrev response : NodeDiscoveryResponse
response = record { node_type = 2; inbound_snr_qdb = negsuc 3; tag = 1; public_key = replicate 8 5 }

reads_response : node_discovery_response control ≡ ok (some response)
unfolding node_discovery_response discovery_response read_u32 read_i8 at u32_from_le signed
    slice_from
reads_response = refl

node_discovery_response-eq-ok_example : IsResponse control.payload response
node_discovery_response-eq-ok_example =
    node_discovery_response-eq-ok control response reads_response

node_discovery_response-ne-panic_example : node_discovery_response control ≢ panic
node_discovery_response-ne-panic_example = node_discovery_response-ne-panic control
