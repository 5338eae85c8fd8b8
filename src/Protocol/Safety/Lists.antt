-- ===== src/Protocol/Safety/Lists.antt =====
-- Custom variables, repeat frequencies and statistics. The first two take a packet with a selector.
use meshquill.Protocol.Safety.Rules.{safe}
use meshquill.Common.Utf8.{Text}
use meshquill.Domain.{CustomVariable, FrequencyRange}
use meshquill.Protocol.Parse.Lists.{
  add_pairs, add_ranges, checked_entry, custom_entries, parse_allowed_repeat_frequencies,
  parse_core_stats, parse_custom_vars, parse_packet_stats, parse_radio_stats, parse_stats, stats_of,
  sub_usize,
}
use meshquill.Common.{
  NoPanic-reject_if, reject_if, List, NoPanic, NoPanic-bind, NoPanic-err, NoPanic-ok, Option, [],
  arith, length, no_panic, none, some, split_once, u32_from_le, ℕ, ◌++◌, ◌<◌, ◌∷◌, ◌≤◌,
}

NoPanic-checked_entry :
    (entries : List CustomVariable) (pair : Option (Text × Text))
    → NoPanic (checked_entry entries pair)
unfolding checked_entry
NoPanic-checked_entry entries none = NoPanic-err _
NoPanic-checked_entry entries (some (key, value)) = search no_panic depth 10

NoPanic-add_pairs :
    (pairs : List Text) (entries : List CustomVariable) → NoPanic (add_pairs pairs entries)
unfolding add_pairs
NoPanic-add_pairs [] entries = NoPanic-ok entries
NoPanic-add_pairs (pair ∷ pairs) entries =
    NoPanic-bind (checked_entry entries (split_once b':' pair))
      (λ entry. add_pairs pairs (entries ++ (entry ∷ [])))
      (NoPanic-checked_entry entries (split_once b':' pair))
      (λ entry e. NoPanic-add_pairs pairs (entries ++ (entry ∷ [])))

NoPanic-custom_entries : (text : Text) → NoPanic (custom_entries text)
unfolding custom_entries
NoPanic-custom_entries text = search (no_panic, NoPanic-add_pairs)

NoPanic-add_ranges :
    (bytes : List ℕ) (ranges : List FrequencyRange) → NoPanic (add_ranges bytes ranges)
unfolding add_ranges
NoPanic-add_ranges (a ∷ b ∷ c ∷ d ∷ e ∷ f ∷ g ∷ h ∷ rest) ranges =
    NoPanic-bind (reject_if _ _) (λ _. add_ranges rest next) (NoPanic-reject_if _ _)
      (λ _ _. NoPanic-add_ranges rest next)
  where
    next : List FrequencyRange
    next =
        ranges ++ (record { lower_khz = u32_from_le a b c d; upper_khz = u32_from_le e f g h } ∷ [])
NoPanic-add_ranges _ ranges = NoPanic-ok ranges

NoPanic-sub_usize : (a b : ℕ) → b ≤ a → NoPanic (sub_usize a b)
NoPanic-sub_usize a b h = record { ne = λ e. ground arith }

module _ (raw : List ℕ) where
  NoPanic-parse_core_stats : NoPanic (parse_core_stats raw)
  unfolding parse_core_stats
  NoPanic-parse_core_stats = search safe depth 40 fits 20000

  NoPanic-parse_radio_stats : NoPanic (parse_radio_stats raw)
  unfolding parse_radio_stats
  NoPanic-parse_radio_stats = search safe depth 40 fits 20000

  NoPanic-parse_packet_stats : NoPanic (parse_packet_stats raw)
  unfolding parse_packet_stats
  NoPanic-parse_packet_stats = search safe depth 40 fits 20000

  NoPanic-stats_of : (subtype : ℕ) → NoPanic (stats_of raw subtype)
  unfolding stats_of
  NoPanic-stats_of subtype =
      search
        (no_panic, NoPanic-parse_core_stats, NoPanic-parse_radio_stats, NoPanic-parse_packet_stats)
        depth 10

module _ {F64 : Type 0} (raw : List ℕ) where
  pub NoPanic-parse_custom_vars : 0 < length raw → NoPanic (parse_custom_vars {F64 = F64} raw)
  unfolding parse_custom_vars
  NoPanic-parse_custom_vars h = search (safe, NoPanic-custom_entries) depth 20

  pub NoPanic-parse_allowed_repeat_frequencies :
      0 < length raw → NoPanic (parse_allowed_repeat_frequencies {F64 = F64} raw)
  unfolding parse_allowed_repeat_frequencies
  NoPanic-parse_allowed_repeat_frequencies h =
      search (safe, NoPanic-add_ranges, NoPanic-sub_usize) depth 20

  pub NoPanic-parse_stats : NoPanic (parse_stats {F64 = F64} raw)
  unfolding parse_stats
  NoPanic-parse_stats = search (safe, NoPanic-stats_of) depth 20
