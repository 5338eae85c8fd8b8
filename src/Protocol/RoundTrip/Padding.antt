-- ===== src/Protocol/RoundTrip/Padding.antt =====
-- Text in a field that is filled up with zeros, and what `checked` passes on.
use meshquill.Error.{invalid_argument}
use meshquill.Protocol.Command.{Built, refuse_nul, validate_text_field, Command}
use meshquill.Protocol.CommandCode.{CommandCode}
use meshquill.Protocol.Command.{copy_into, Command, checked}
use meshquill.Protocol.Parse.Pieces.{
  decode_text, decode_padded_string, position_or_length, until_zero,
}
use meshquill.Common.{
  >>=-eq-ok, ltb, reject_if, reject_if-eq-ok, ◌<◌, ◌==◌, ◌>>◌, ap, drop, drop-append,
  drop-append_add, length-append, length-replicate, replicate_add, sym, take, ◌+◌, ◌-◌, ◌∙◌, ◌≤◌,
  List, Option-cases, String, [], arith, contains, false, inl, inr, length, ok, position, refl,
  replicate, suc, take-append, zero, ℕ, ◌++◌, ◌∷◌, ◌≡◌,
}
use meshquill.Common.Utf8.{from_utf8_lem, IsUtf8, Text}

pub position-padded :
    (t : List ℕ) (k : ℕ)
    → contains 0 t ≡ false
    → position_or_length (position 0 (t ++ replicate k 0)) (t ++ replicate k 0) ≡ length t
unfolding position contains
position-padded [] zero h = refl
position-padded [] (suc k) h = refl
position-padded (x ∷ t) k h = elim (Option-cases (position 0 (t ++ replicate k 0))) [
  | inl e ↦ ground (arith, e, position-padded t k)
  | inr (n, e) ↦ ground (arith, e, position-padded t k)
]

-- The text before the padding is the text.
pub until_zero-padded :
    (t : List ℕ) (k : ℕ) → contains 0 t ≡ false → until_zero (t ++ replicate k 0) ≡ t
unfolding until_zero
until_zero-padded t k h = rw (position-padded t k h) (take-append (length t) t (replicate k 0) refl)

pub decode_text_lem : (t : Text) (context : String) → IsUtf8 t → decode_text t context ≡ ok t
unfolding decode_text
decode_text_lem t context u = rw (decode_text, from_utf8_lem t u) refl

pub decode_padded :
    (t : Text) (k : ℕ) (context : String)
    → contains 0 t ≡ false
    → IsUtf8 t
    → decode_padded_string (t ++ replicate k 0) context ≡ ok t
unfolding decode_padded_string
decode_padded t k context h u = rw (until_zero-padded t k h) (decode_text_lem t context u)

pub checked-payload :
    (code : CommandCode) (payload : List ℕ) (command : Command)
    → checked code payload ≡ ok command
    → command.payload ≡ payload
unfolding checked
checked-payload code payload command h = ground arith

copy_into_lem :
    (whole : List ℕ) (a b : ℕ) (bytes : List ℕ)
    → a ≤ b
    → b ≤ length whole
    → length bytes ≡ b - a
    → copy_into whole a b bytes ≡ ok (take a whole ++ (bytes ++ drop b whole))
unfolding copy_into
copy_into_lem whole a b bytes x y z = ground arith

-- A copy over the middle of three pieces.
pub copy_into-pieces :
    (front mid back bytes : List ℕ) (a b : ℕ)
    → a ≡ length front
    → b ≡ a + length mid
    → length bytes ≡ length mid
    → copy_into (front ++ (mid ++ back)) a b bytes ≡ ok (front ++ (bytes ++ back))
copy_into-pieces front mid back bytes a b h k l =
    copy_into_lem (front ++ (mid ++ back)) a b bytes (omega arith)
      (omega (arith, length-append front (mid ++ back), length-append mid back)) (omega arith)
    ∙ rw
        (
          take-append a front (mid ++ back) h,
          drop-append_add b (length mid) front (mid ++ back) (omega arith),
          drop-append (length mid) mid back refl,
        )
        refl

-- A copy into a field of zeros.
pub copy_into-padded :
    (front t : List ℕ) (n a b : ℕ)
    → a ≡ length front
    → b ≡ a + length t
    → length t ≤ n
    → copy_into (front ++ replicate n 0) a b t ≡ ok (front ++ (t ++ replicate (n - length t) 0))
copy_into-padded front t n a b h k l =
    let e : n ≡ length t + (n - length t) = omega arith in
    ap (λ zeros. copy_into (front ++ zeros) a b t)
      (ap (λ (m : ℕ). replicate m 0) e ∙ replicate_add (length t) (n - length t) 0)
    ∙ copy_into-pieces front (replicate (length t) 0) (replicate (n - length t) 0) t a b h
        (omega (arith, length-replicate {A = ℕ} (length t) 0))
        (sym (length-replicate {A = ℕ} (length t) 0))

-- A name that the two checks of a builder let pass.
pub name_checked :
    (name : Text) (maximum : ℕ) (f : String) (rest : Built Command) (command : Command)
    → (validate_text_field name maximum f >> (refuse_nul name f >> rest)) ≡ ok command
    → (0 < length name) × (length name ≤ maximum) × (contains 0 name ≡ false) × (rest ≡ ok command)
unfolding validate_text_field refuse_nul
name_checked name maximum f rest command h =
    let (u, e, h') =
      >>=-eq-ok
        (reject_if (length name == 0) (invalid_argument f)
          >> reject_if (ltb maximum (length name)) (invalid_argument f))
        _ h in
    let (v, e', h'') = >>=-eq-ok (reject_if (contains 0 name) (invalid_argument f)) _ h' in
    (ground arith, ground arith, reject_if-eq-ok _ _ e', h'')

-- A name with zeros up to `n` bytes.
abbrev pub field : Text → ℕ → List ℕ
field name n = name ++ replicate (n - length name) 0

pub length-field : (name : Text) (n : ℕ) → length name ≤ n → length (field name n) ≡ n
length-field name n h = omega (
  arith,
  length-append name (replicate (n - length name) 0),
  length-replicate {A = ℕ} (n - length name) 0,
)
