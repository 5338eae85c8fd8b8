-- ===== src/Remote/SummarySafety.antt =====
-- The parser of telemetry summaries does not panic, and its loop ends.
use meshquill.Platform.{Platform}
use meshquill.Remote.{Checked, RemotePayloadError}
use meshquill.Remote.AnswerSafety.{NoPanic-check_max_len, NoPanic-read_u32_le}
use meshquill.Protocol.Safety.Rules.{safe}
use meshquill.Remote.Telemetry.{
  LppTelemetryKind, SummaryRecord, byte_at, decode_summary_value, known, parse_summary_payload,
  read_be, read_signed_be, summary_channel, summary_entries, summary_entry, summary_is_signed,
  summary_of_width, summary_padding, summary_raw, summary_record, summary_turn,
}
use meshquill.Common.{
  ltb, reject_if, Outcome, ltb→le, leb, ◌==◌, panic, List, NoPanic, NoPanic-bind, NoPanic-if,
  NoPanic-ok, NoPanic-err, Option, String, [], arith, length, none, some, suc, zero, ℕ, ◌+◌, ◌<◌,
  ◌≡◌, ◌≤◌, Bool, true, false, ok, reject_if-eq-ok, >>=-eq-ok,
}

NoPanic-read_be : (raw : List ℕ) (idx width : ℕ) → NoPanic (read_be raw idx width)
unfolding read_be
NoPanic-read_be raw idx width = record { ne = λ e. ground arith }

NoPanic-read_signed_be : (raw : List ℕ) (idx width : ℕ) → NoPanic (read_signed_be raw idx width)
unfolding read_signed_be
NoPanic-read_signed_be raw idx width = search (safe, NoPanic-read_be) depth 40 fits 20000

NoPanic-byte_at :
    (payload : List ℕ) (cursor : ℕ) (context : String) → NoPanic (byte_at payload cursor context)
unfolding byte_at
NoPanic-byte_at payload cursor context = record { ne = λ e. ground arith }

NoPanic-known : (code : ℕ) → NoPanic (known code)
unfolding known
NoPanic-known code = record { ne = λ e. ground arith }

module _ (p : Platform) where
  NoPanic-summary_raw :
      (payload : List ℕ) (width : ℕ) (negative : Bool) (cursor : ℕ)
      → cursor + width ≤ length payload
      → NoPanic (summary_raw p payload width negative cursor)
  unfolding summary_raw
  NoPanic-summary_raw payload width true cursor h =
      search (safe, NoPanic-read_signed_be) depth 40 fits 20000
  NoPanic-summary_raw payload width false cursor h =
      search (safe, NoPanic-read_be) depth 40 fits 20000

  NoPanic-summary_of_width :
      (payload : List ℕ) (cursor : ℕ) (kind : LppTelemetryKind) (width : Option ℕ)
      → NoPanic (summary_of_width p payload cursor kind width)
  unfolding summary_of_width
  NoPanic-summary_of_width payload cursor kind none = NoPanic-err _
  NoPanic-summary_of_width payload cursor kind (some width) =
      search (safe, reject_if-eq-ok, ltb→le, NoPanic-summary_raw) depth 40 fits 20000

  -- The cursor of a result.
  behind-eq :
      {A : Type 0} {a : A} {cursor behind : ℕ} {out : A × ℕ}
      → ◌≡◌ {A = Outcome RemotePayloadError (A × ℕ)} (ok (a, behind)) (ok out)
      → cursor ≤ behind
      → cursor ≤ out.1
  behind-eq {a = a} {cursor = cursor} {behind = behind} {out = out} e h =
      let same : behind ≡ out.1 = cc in omega arith

  summary_of_width-eq-ok :
      (payload : List ℕ) (cursor : ℕ) (kind : LppTelemetryKind) (width : Option ℕ) {out : p.F64 × ℕ}
      → summary_of_width p payload cursor kind width ≡ ok out
      → cursor ≤ out.1
  unfolding summary_of_width
  summary_of_width-eq-ok payload cursor kind none e = cc
  summary_of_width-eq-ok payload cursor kind (some width) e =
      let (u, fits, read) = >>=-eq-ok (reject_if (ltb (length payload) (cursor + width)) _) _ e in
      let (raw, found, done) =
        >>=-eq-ok (summary_raw p payload width (summary_is_signed kind) cursor) _ read in
      behind-eq done (omega arith)

  decode_summary_value-eq-ok :
      (payload : List ℕ) (cursor : ℕ) (kind : LppTelemetryKind) {out : p.F64 × ℕ}
      → decode_summary_value p payload cursor kind ≡ ok out
      → cursor ≤ out.1
  unfolding decode_summary_value
  decode_summary_value-eq-ok payload cursor kind e = summary_of_width-eq-ok payload cursor kind _ e

  NoPanic-decode_summary_value :
      (payload : List ℕ) (cursor : ℕ) (kind : LppTelemetryKind)
      → NoPanic (decode_summary_value p payload cursor kind)
  unfolding decode_summary_value
  NoPanic-decode_summary_value payload cursor kind = NoPanic-summary_of_width payload cursor kind _

  NoPanic-summary_record :
      (payload : List ℕ) (channel cursor : ℕ) (kind : LppTelemetryKind)
      → NoPanic (summary_record p payload channel cursor kind)
  unfolding summary_record
  NoPanic-summary_record payload channel cursor kind =
      search (safe, NoPanic-decode_summary_value) depth 40 fits 20000

  -- A record moves the cursor on, or leaves it.
  summary_record-eq-ok :
      (payload : List ℕ) (channel cursor : ℕ) (kind : LppTelemetryKind)
      {out : SummaryRecord p.F64 × ℕ}
      → summary_record p payload channel cursor kind ≡ ok out
      → cursor ≤ out.1
  unfolding summary_record
  summary_record-eq-ok payload channel cursor kind e =
      let (minimum, first, e1) = >>=-eq-ok (decode_summary_value p payload cursor kind) _ e in
      let (maximum, second, e2) = >>=-eq-ok (decode_summary_value p payload minimum.1 kind) _ e1 in
      let (average, third, done) = >>=-eq-ok (decode_summary_value p payload maximum.1 kind) _ e2 in
      let one = decode_summary_value-eq-ok payload cursor kind first in
      let two = decode_summary_value-eq-ok payload minimum.1 kind second in
      let three = decode_summary_value-eq-ok payload maximum.1 kind third in
      behind-eq done (omega arith)

  NoPanic-summary_padding :
      (payload : List ℕ) (cursor : ℕ)
      → cursor ≤ length payload
      → NoPanic (summary_padding p payload cursor)
  unfolding summary_padding
  NoPanic-summary_padding payload cursor h = search safe depth 40 fits 20000

  module _ (payload : List ℕ) (next : ℕ → Checked (List (SummaryRecord p.F64))) where
    NoPanic-summary_entry :
        (channel cursor : ℕ)
        → ((behind : ℕ) → cursor < behind → NoPanic (next behind))
        → NoPanic (summary_entry p payload next channel cursor)
    unfolding summary_entry
    NoPanic-summary_entry channel cursor later =
        NoPanic-bind _ _ (NoPanic-byte_at payload cursor _) λ code _.
          NoPanic-bind _ _ (NoPanic-known code) λ kind _.
            NoPanic-bind _ _ (NoPanic-summary_record payload channel (cursor + 1) kind) λ entry e.
              let moved = summary_record-eq-ok payload channel (cursor + 1) kind e in
              NoPanic-bind _ _ (later entry.1 (omega arith)) λ entries _. NoPanic-ok _

    NoPanic-summary_turn :
        (cursor : ℕ)
        → ((behind : ℕ) → cursor < length payload → cursor < behind → NoPanic (next behind))
        → NoPanic (summary_turn p payload next cursor)
    unfolding summary_turn summary_channel
    NoPanic-summary_turn cursor later =
        NoPanic-if (leb (length payload) cursor) _ _ (λ _. NoPanic-ok [])
          λ unread.
            let inside : cursor < length payload = ground arith in
            NoPanic-bind _ _ (NoPanic-byte_at payload cursor _) λ channel _.
              NoPanic-if (channel == 0) _ _
                (λ _. NoPanic-summary_padding payload (cursor + 1) (omega arith))
                λ _.
                  NoPanic-summary_entry channel (cursor + 1)
                    λ behind h. later behind inside (omega arith)

  -- Each turn moves the cursor on, so there are no more turns than bytes.
  NoPanic-summary_entries :
      (payload : List ℕ) (fuel cursor : ℕ)
      → length payload ≤ fuel + cursor
      → NoPanic (summary_entries p payload fuel cursor)
  unfolding summary_entries
  NoPanic-summary_entries payload zero cursor h =
      NoPanic-summary_turn payload (λ behind. panic) cursor
        λ behind inside later. absurd (omega arith)
  NoPanic-summary_entries payload (suc fuel) cursor h =
      NoPanic-summary_turn payload (summary_entries p payload fuel) cursor
        λ behind inside later. NoPanic-summary_entries payload fuel behind (omega arith)

  pub NoPanic-parse_summary_payload : (payload : List ℕ) → NoPanic (parse_summary_payload p payload)
  unfolding parse_summary_payload
  NoPanic-parse_summary_payload payload =
      search (safe, NoPanic-check_max_len, NoPanic-read_u32_le, NoPanic-summary_entries) depth 40
        fits 20000
