-- ===== src/Protocol/RoundTrip/Channel.antt =====
-- A channel: its name in a field of zeros, and its secret.
use meshquill.Protocol.Parse.{parse}
use meshquill.Protocol.Entry.{parse-fits}
use meshquill.Protocol.Parse.{dispatch}
use meshquill.Protocol.PacketCode.{from_u8}
use meshquill.Protocol.Command.Peers
use meshquill.Protocol.Command.{Command, checked}
use meshquill.Protocol.CommandCode.{CommandCode}
use meshquill.Common.Utf8.{from_utf8_lem}
use meshquill.Error.{ParseError}
use meshquill.Common.Bytes.{slice-pieces, at_lem}
use meshquill.Domain.Values.{with_secret}
use meshquill.Protocol.Packet.{Packet}
use meshquill.Protocol.Parse.Pieces.{until_zero}
use meshquill.Protocol.Parse.Settings.{parse_channel_info}
use meshquill.Platform.{Platform}
use meshquill.Protocol.RoundTrip.Padding.{
  length-field, field, until_zero-padded, checked-payload, name_checked, copy_into-pieces,
  copy_into-padded,
}
use meshquill.Common.Utf8.{IsUtf8, Text}
use meshquill.Common.{
  >>=_assoc, some, List, [], ap, append_assoc, arith, length, length-append, ok, refl, replicate,
  replicate_add, sym, ℕ, ◌++◌, ◌+◌, ◌-◌, ◌>>=◌, ◌∙◌, ◌∷◌, ◌≡◌, ◌≤◌,
}
use meshquill.Protocol.Command.{copy_into}

-- The payload that `set_channel` builds.
pub channel_copies :
    (idx : ℕ) (name : Text) (secret : List ℕ)
    → length name ≤ 31
    → length secret ≡ 16
    → (copy_into (idx ∷ replicate 48 0) 1 (length name + 1) name >>= λ named.
        copy_into named 33 49 secret)
      ≡ ok (idx ∷ (field name 32 ++ (secret ++ [])))
channel_copies idx name secret h k =
    rw (copy_into-padded (idx ∷ []) name 48 1 (length name + 1) refl (omega arith) (omega arith)) (
      ap (λ zeros. copy_into (idx ∷ (name ++ zeros)) 33 49 secret) tail
      ∙ ap (λ whole. copy_into (idx ∷ whole) 33 49 secret)
          (sym (append_assoc name (replicate (32 - length name) 0) (replicate 16 0)))
      ∙ copy_into-pieces (idx ∷ field name 32) (replicate 16 0) [] secret 33 49
          (omega (arith, length-field name 32)) refl k)
  where
    tail :
        replicate {A = ℕ} (48 - length name) 0
        ≡ replicate (32 - length name) 0 ++ (replicate 16 0 ++ [])
    tail =
        let e : 48 - length name ≡ (32 - length name) + 16 = omega arith in
        ap (λ (m : ℕ). replicate m 0) e ∙ replicate_add (32 - length name) 16 0

module _ (p : Platform) where
  channel_info-read :
      (idx : ℕ) (named : List ℕ) (name : Text) (secret : List ℕ)
      → length named ≡ 32
      → length secret ≡ 16
      → until_zero named ≡ name
      → IsUtf8 name
      → parse_channel_info {F64 = p.F64} p.sha256 (0x12 ∷ idx ∷ (named ++ (secret ++ [])))
        ≡ ok (Packet.channel_info (with_secret p.sha256 idx name (some secret)))
  unfolding parse_channel_info
  channel_info-read idx named name secret l k z u =
      let raw = 0x12 ∷ idx ∷ (named ++ (secret ++ [])) in
      let whole : length (named ++ (secret ++ [])) ≡ 48 =
        omega (arith, length-append named (secret ++ []), length-append secret []) in
      ground (
        arith,
        at_lem {E = ParseError} raw 1 (omega arith),
        slice-pieces {E = ParseError} (0x12 ∷ idx ∷ []) named (secret ++ []) 2 34 refl
            (omega arith),
        slice-pieces {E = ParseError} (0x12 ∷ idx ∷ named) secret [] 34 50 (omega arith)
            (omega arith),
        from_utf8_lem name u,
      )

  -- A channel that `set_channel` accepts, with a secret of 16 bytes and a name in UTF-8, is read
  -- back with its name and its secret from a channel packet of the same bytes.
  pub parse-set_channel :
      (idx : ℕ) (name : Text) (secret : List ℕ) (command : Command)
      → length secret ≡ 16
      → IsUtf8 name
      → Peers.set_channel idx name secret ≡ ok command
      → parse p (0x12 ∷ command.payload)
        ≡ ok (Packet.channel_info (with_secret p.sha256 idx name (some secret)))
  unfolding dispatch from_u8 Peers.set_channel
  parse-set_channel idx name secret command k u h =
      let (some_name, fits, free, rest) = name_checked name 31 "name" _ command h in
      let copies = channel_copies idx name secret fits k in
      let sent : command.payload ≡ idx ∷ (field name 32 ++ (secret ++ [])) =
        checked-payload CommandCode.set_channel _ command (
          ap (λ m. m >>= checked CommandCode.set_channel) (sym copies)
          ∙ sym (>>=_assoc (copy_into (idx ∷ replicate 48 0) 1 (length name + 1) name) _ _)
          ∙ rest) in
      ap (λ bytes. parse p (0x12 ∷ bytes)) sent
      ∙ parse-fits p 0x12 (idx ∷ (field name 32 ++ (secret ++ []))) (
          omega (
            arith,
            length-append (field name 32) (secret ++ []),
            length-append secret [],
            length-field name 32 (omega arith),
          ))
      ∙ channel_info-read idx (field name 32) name secret (length-field name 32 (omega arith)) k
          (until_zero-padded name (32 - length name) free) u
