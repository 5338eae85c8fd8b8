-- ===== src/Protocol/Ranges.antt =====
-- crates/meshquill-core/src/protocol.rs, `parse_allowed_repeat_frequencies`: what the ranges that
-- it returns are.
use meshquill.Common.{
  drop, refl, sym, append_assoc, append-nil, >>=-eq-ok, All, List, [], ap, arith, length,
  length-drop, ltb, not, ok, reject_if, reject_if-eq-ok, slice_from, subst, u32_from_le, ℕ, ◌%◌,
  ◌++◌, ◌-◌, ◌<◌, ◌==◌, ◌||◌, ◌∙◌, ◌∷◌, ◌≡◌, ◌≤◌,
}
use meshquill.Common.Bytes.{slice_from-eq-ok}
use meshquill.Domain.{FrequencyRange}
use meshquill.Protocol.Packet.{Packet}
use meshquill.Protocol.Parse.Lists.{add_ranges, parse_allowed_repeat_frequencies, sub_usize}

abbrev pub IsRange : FrequencyRange → Type 0
IsRange range = (0 < range.lower_khz) × (range.lower_khz ≤ range.upper_khz)

-- The ranges are what the bytes hold: for each the lower bound in four bytes and the upper one in the
-- next four, the least significant byte first, and no byte is left.
abbrev pub Holds : List ℕ → List FrequencyRange → Type 0
Holds [] [] = Unit
Holds (a ∷ b ∷ c ∷ d ∷ e ∷ f ∷ g ∷ h ∷ bytes) (range ∷ ranges) =
    (range.lower_khz ≡ u32_from_le a b c d)
    × (range.upper_khz ≡ u32_from_le e f g h)
    × Holds bytes ranges
Holds _ _ = ⊥

add_ranges-eq-ok :
    (payload : List ℕ) (ranges result : List FrequencyRange)
    → length payload % 8 ≡ 0
    → add_ranges payload ranges ≡ ok result
    → (more : List FrequencyRange) × (result ≡ ranges ++ more)
      × All IsRange more
      × Holds payload more
unfolding add_ranges
add_ranges-eq-ok (a ∷ b ∷ c ∷ d ∷ e ∷ f ∷ g ∷ h ∷ rest) ranges result m q =
    let lower = u32_from_le a b c d in
    let upper = u32_from_le e f g h in
    let range : FrequencyRange = record { lower_khz = lower; upper_khz = upper } in
    let (u, tested, later) =
      >>=-eq-ok (reject_if (lower == 0 || upper == 0 || ltb upper lower) _) _ q in
    let fine = reject_if-eq-ok _ _ tested in
    let valid : IsRange range = (ground arith, ground arith) in
    let (more, same, all, held) =
      add_ranges-eq-ok rest (ranges ++ (range ∷ [])) result (omega arith) later in
    (range ∷ more, same ∙ (append_assoc ranges (range ∷ []) more), (valid, all), (refl, refl, held))
add_ranges-eq-ok [] ranges result m q =
    let e : ranges ≡ result = cc in ([], sym e ∙ sym (append-nil ranges), tt, tt)
add_ranges-eq-ok _ ranges result m q = absurd (omega arith)

-- The repeat-frequency ranges that the parser returns are those that the bytes behind the first one
-- hold, four little-endian bytes for each bound and nothing over, and each range begins above zero
-- and ends where it begins or later.
pub parse_allowed_repeat_frequencies-ranges :
    {F64 : Type 0} (raw : List ℕ) (ranges : List FrequencyRange)
    → parse_allowed_repeat_frequencies {F64 = F64} raw
      ≡ ok (Packet.allowed_repeat_frequencies ranges)
    → (1 ≤ length raw) × Holds (drop 1 raw) ranges × All IsRange ranges
unfolding parse_allowed_repeat_frequencies
parse_allowed_repeat_frequencies-ranges raw ranges h =
    let (n, e, h1) = >>=-eq-ok (sub_usize (length raw) 1) _ h in
    let (u, tested, h2) = >>=-eq-ok (reject_if (not (n % 8 == 0)) _) _ h1 in
    let (payload, e1, h3) = >>=-eq-ok (slice_from raw 1) _ h2 in
    let (found, e2, h4) = >>=-eq-ok (add_ranges payload []) _ h3 in
    let fits : (1 ≤ length raw) × (n ≡ length raw - 1) = ground arith in
    let whole : n % 8 ≡ 0 = ground (arith, reject_if-eq-ok _ _ tested) in
    let bytes : payload ≡ drop 1 raw = slice_from-eq-ok raw 1 e1 in
    let size : length payload ≡ length raw - 1 = ap length bytes ∙ length-drop 1 raw in
    let (more, same, all, held) = add_ranges-eq-ok payload [] found (omega arith) e2 in
    let same' : more ≡ ranges = cc (h4, same) in
    (
      fits.0,
      subst (λ l. Holds l ranges) bytes (subst (Holds payload) same' held),
      subst (All IsRange) same' all,
    )
