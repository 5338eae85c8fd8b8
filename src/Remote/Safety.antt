-- ===== src/Remote/Safety.antt =====
-- No parser of an answer panics, on any bytes.
use meshquill.Platform.{Platform}
use meshquill.Remote.Answers.{
  parse_acl_payload, parse_basic_response, parse_neighbour_page, parse_owner_response,
  parse_regions_response,
}
use meshquill.Remote.Telemetry.{parse_summary_payload}
use meshquill.Remote.AnswerSafety.{
  NoPanic-parse_acl_payload, NoPanic-parse_basic_response, NoPanic-parse_neighbour_page,
  NoPanic-parse_owner_response, NoPanic-parse_regions_response,
}
use meshquill.Remote.SummarySafety.{NoPanic-parse_summary_payload}
use meshquill.Common.{List, panic, ℕ, ◌≢◌}

-- No answer of a remote device, whatever bytes it has, makes one of these six parsers panic: a
-- neighbour page, with whatever prefix length, the regions, the owner, the features, the access
-- list or a telemetry summary, whose loop also ends, as the model panics where its fuel of one
-- turn for each byte does not suffice.
pub answers-ne-panic :
    (p : Platform) (payload : List ℕ) (prefix_length : ℕ)
    → (parse_neighbour_page payload prefix_length ≢ panic)
      × (parse_regions_response payload ≢ panic)
      × (parse_owner_response payload ≢ panic)
      × (parse_basic_response payload ≢ panic)
      × (parse_acl_payload payload ≢ panic)
      × (parse_summary_payload p payload ≢ panic)
answers-ne-panic p payload prefix_length = (
  (NoPanic-parse_neighbour_page payload prefix_length).ne,
  (NoPanic-parse_regions_response payload).ne,
  (NoPanic-parse_owner_response payload).ne,
  (NoPanic-parse_basic_response payload).ne,
  (NoPanic-parse_acl_payload payload).ne,
  (NoPanic-parse_summary_payload p payload).ne,
)
