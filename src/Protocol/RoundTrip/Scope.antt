-- ===== src/Protocol/RoundTrip/Scope.antt =====
-- The default flood scope: its name in a field of zeros, and its key.
use meshquill.Common.Bytes.{slice-pieces}
use meshquill.Protocol.Command.{Command, checked}
use meshquill.Domain.{DefaultFloodScope}
use meshquill.Protocol.RoundTrip.Padding.{
  checked-payload, name_checked, length-field, copy_into-pieces, copy_into-padded, field,
}
use meshquill.Protocol.Parse.Settings.{parse_default_flood_scope}
use meshquill.Platform.{Platform}
use meshquill.Common.{
  >>=_assoc, suc, List, [], ap, append_assoc, arith, contains, false, length, length-append, ok,
  position, refl, replicate, replicate_add, some, sym, ℕ, ◌++◌, ◌+◌, ◌-◌, ◌<◌, ◌>>=◌, ◌∙◌, ◌∷◌, ◌≡◌,
  ◌≤◌,
}
use meshquill.Protocol.Entry.{parse-fits}
use meshquill.Protocol.Parse.{dispatch, parse}
use meshquill.Protocol.PacketCode.{from_u8}
use meshquill.Protocol.Command.Device
use meshquill.Protocol.Command.{copy_into, Command, checked}
use meshquill.Protocol.CommandCode.{CommandCode}
use meshquill.Common.Utf8.{IsUtf8, Text, from_utf8_lem}
use meshquill.Error.{ParseError}
use meshquill.Protocol.Packet.{Packet}

-- The payload that `set_default_flood_scope` builds.
pub scope_copies :
    (name : Text) (key : List ℕ)
    → length name ≤ 30
    → length key ≡ 16
    → (copy_into (replicate 47 0) 0 (length name) name >>= λ named. copy_into named 31 47 key)
      ≡ ok (field name 31 ++ (key ++ []))
scope_copies name key h k =
    rw (copy_into-padded [] name 47 0 (length name) refl (omega arith) (omega arith)) (
      ap (λ zeros. copy_into (name ++ zeros) 31 47 key) tail
      ∙ ap (λ whole. copy_into whole 31 47 key)
          (sym (append_assoc name (replicate (31 - length name) 0) (replicate 16 0)))
      ∙ copy_into-pieces (field name 31) (replicate 16 0) [] key 31 47
          (omega (arith, length-field name 31)) refl k)
  where
    tail :
        replicate {A = ℕ} (47 - length name) 0
        ≡ replicate (31 - length name) 0 ++ (replicate 16 0 ++ [])
    tail =
        let e : 47 - length name ≡ (31 - length name) + 16 = omega arith in
        ap (λ (m : ℕ). replicate m 0) e ∙ replicate_add (31 - length name) 16 0

-- The first zero of a name's field.
position-field :
    (t : List ℕ) (k : ℕ)
    → contains 0 t ≡ false
    → position 0 (t ++ (0 ∷ replicate k 0)) ≡ some (length t)
unfolding position contains
position-field [] k h = refl
position-field (x ∷ t) k h = ground (arith, position-field t k)

module _ (p : Platform) where
  scope-read :
      (name zeros : List ℕ) (key : List ℕ)
      → 0 < length name
      → length (name ++ zeros) ≡ 31
      → length key ≡ 16
      → position 0 (name ++ zeros) ≡ some (length name)
      → IsUtf8 name
      → parse_default_flood_scope {F64 = p.F64} (0x1c ∷ ((name ++ zeros) ++ (key ++ [])))
        ≡ ok (
            Packet.default_flood_scope
              (DefaultFloodScope.configured (record { name = some name; key = key })))
  unfolding parse_default_flood_scope
  scope-read name zeros key some_name l k first u =
      let raw = 0x1c ∷ ((name ++ zeros) ++ (key ++ [])) in
      let whole : length ((name ++ zeros) ++ (key ++ [])) ≡ 47 =
        omega (arith, length-append (name ++ zeros) (key ++ []), length-append key []) in
      ground (
        arith,
        slice-pieces {E = ParseError} (0x1c ∷ []) (name ++ zeros) (key ++ []) 1 32 refl
            (omega arith),
        slice-pieces {E = ParseError} (0x1c ∷ []) name (zeros ++ (key ++ [])) 1 (length name + 1)
            refl (omega arith),
        append_assoc name zeros (key ++ []),
        slice-pieces {E = ParseError} (0x1c ∷ (name ++ zeros)) key [] 32 48 (omega arith)
            (omega arith),
        from_utf8_lem name u,
      )

  -- A default flood scope that `set_default_flood_scope` accepts, with a key of 16 bytes and a
  -- name in UTF-8, is read back with its name and its key from a scope packet of the same bytes.
  pub parse-set_default_flood_scope :
      (name : Text) (key : List ℕ) (command : Command)
      → length key ≡ 16
      → IsUtf8 name
      → Device.set_default_flood_scope name key ≡ ok command
      → parse p (0x1c ∷ command.payload)
        ≡ ok (
            Packet.default_flood_scope
              (DefaultFloodScope.configured (record { name = some name; key = key })))
  unfolding dispatch from_u8 Device.set_default_flood_scope
  parse-set_default_flood_scope name key command k u h =
      let (some_name, fits, free, rest) = name_checked name 30 "name" _ command h in
      let sent : command.payload ≡ field name 31 ++ (key ++ []) =
        checked-payload CommandCode.set_default_flood_scope _ command (
          ap (λ m. m >>= checked CommandCode.set_default_flood_scope)
            (sym (scope_copies name key fits k))
          ∙ sym (>>=_assoc (copy_into (replicate 47 0) 0 (length name) name) _ _)
          ∙ rest) in
      let zeros : replicate {A = ℕ} (31 - length name) 0 ≡ 0 ∷ replicate (30 - length name) 0 =
        let e : 31 - length name ≡ suc (30 - length name) = omega arith in
        ap (λ (m : ℕ). replicate m 0) e in
      ap (λ bytes. parse p (0x1c ∷ bytes)) sent
      ∙ parse-fits p 0x1c (field name 31 ++ (key ++ [])) (
          omega (
            arith,
            length-append (field name 31) (key ++ []),
            length-append key [],
            length-field name 31 (omega arith),
          ))
      ∙ scope-read name (replicate (31 - length name) 0) key some_name
          (length-field name 31 (omega arith)) k
          (ap (λ z. position 0 (name ++ z)) zeros ∙ position-field name (30 - length name) free) u
