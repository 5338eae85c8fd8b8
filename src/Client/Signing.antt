-- ===== src/Client/Signing.antt =====
-- What a signature that was given has signed: every chunk of the data, once and in order.
use meshquill.Error.{invalid_argument}
use meshquill.Client.Wait.{send_command_expect, send_command_expect_ok}
use meshquill.Domain.{Signature}
use meshquill.Client.Writing.{Writes-expect, Writes-expect_ok, Writes-bind, Writes-Silent, Writes}
use meshquill.Platform.{Platform}
use meshquill.Protocol.CommandCode
use meshquill.Client.Remote.{
  signature_of, signing_chunk_bytes, sign_start_of, send_chunks, sign, chunks, chunks_within,
}
use meshquill.Common.{
  false, ltb, reject_if, ◌+◌, ◌==◌, ok, subst, sym, All, List, [], ap, arith, drop, length,
  length-drop, length-take, refl, suc, take, take-append-drop, zero, ℕ, ◌++◌, ◌∙◌, ◌∷◌, ◌≡◌, ◌≤◌,
}
use meshquill.Protocol.Command.{checked, encode, Command}
use meshquill.Protocol.Command.Device
use meshquill.Client.State.{◌>>=◌, ◌>>◌, pure, lift, Client}

-- The bytes of some chunks.
abbrev pub joined : List (List ℕ) → List ℕ
joined [] = []
joined (chunk ∷ rest) = chunk ++ joined rest

-- A chunk that a sign-data command takes.
abbrev pub IsChunk : List ℕ → Type 0
IsChunk chunk = (1 ≤ length chunk) × (length chunk ≤ 120)

-- The packets of the chunks.
abbrev pub chunk_packets : List (List ℕ) → List (List ℕ)
chunk_packets [] = []
chunk_packets (chunk ∷ rest) = (0x22 ∷ chunk) ∷ chunk_packets rest

joined-chunks_within :
    (fuel : ℕ) (bytes : List ℕ)
    → length bytes ≤ fuel
    → joined (chunks_within fuel 120 bytes) ≡ bytes
unfolding chunks_within
joined-chunks_within zero [] h = refl
joined-chunks_within zero (b ∷ bytes) h = absurd (omega arith)
joined-chunks_within (suc fuel) [] h = refl
joined-chunks_within (suc fuel) (b ∷ bytes) h =
    ap (λ rest. take 120 (b ∷ bytes) ++ rest)
      (joined-chunks_within fuel (drop 120 (b ∷ bytes))
        (omega (arith, length-drop 120 (b ∷ bytes))))
    ∙ take-append-drop 120 (b ∷ bytes)

chunks_within-IsChunk : (fuel : ℕ) (bytes : List ℕ) → All IsChunk (chunks_within fuel 120 bytes)
unfolding chunks_within
chunks_within-IsChunk zero bytes = tt
chunks_within-IsChunk (suc fuel) [] = tt
chunks_within-IsChunk (suc fuel) (b ∷ bytes) = (
  (omega (arith, length-take 120 (b ∷ bytes)), omega (arith, length-take 120 (b ∷ bytes))),
  chunks_within-IsChunk fuel (drop 120 (b ∷ bytes)),
)

-- The chunks of a byte string are its bytes in order, and none is empty or longer than a sign-data
-- command takes.
pub chunks_lem :
    (bytes : List ℕ) → (joined (chunks 120 bytes) ≡ bytes) × All IsChunk (chunks 120 bytes)
unfolding chunks
chunks_lem bytes = (
  joined-chunks_within (length bytes) bytes (omega arith),
  chunks_within-IsChunk (length bytes) bytes,
)

abbrev sign_command : List ℕ → Command
sign_command chunk = record { code = CommandCode.sign_data; payload = chunk }

sign_data_lem : (chunk : List ℕ) → IsChunk chunk → Device.sign_data chunk ≡ ok (sign_command chunk)
unfolding Device.sign_data checked
sign_data_lem chunk h =
    let some_bytes : (length chunk == 0) ≡ false = ground (arith, h.0) in
    let fits : ltb 176 (length chunk + 1) ≡ false = ground (arith, h.1) in
    rw some_bytes (rw fits refl)

module _ (p : Platform) where
  open p use {F64}

  chunks-Writes :
      (pieces : List (List ℕ))
      → All IsChunk pieces
      → Writes (send_chunks p pieces) (chunk_packets pieces)
  unfolding send_chunks encode CommandCode.to_u8
  chunks-Writes [] h = Writes-Silent (pure tt) (λ c. refl)
  chunks-Writes (chunk ∷ rest) (h, hs) =
      subst
        (λ o.
          Writes (lift o >>= λ command. send_command_expect_ok p command >> send_chunks p rest)
            ((0x22 ∷ chunk) ∷ chunk_packets rest))
        (sym (sign_data_lem chunk h))
        (Writes-bind (send_command_expect_ok p (sign_command chunk)) (λ _. send_chunks p rest)
          ((0x22 ∷ chunk) ∷ []) (chunk_packets rest) (Writes-expect_ok p (sign_command chunk))
          (λ _. chunks-Writes rest hs))

  -- `sign` from the device's limit on.
  rest-Writes :
      (bytes : List ℕ) (limit : ℕ)
      → Writes
          (lift (reject_if (ltb limit (length bytes)) (invalid_argument "data"))
            >> (send_chunks p (chunks signing_chunk_bytes bytes)
                >> send_command_expect p Device.sign_finish "signing finish" signature_of))
          (chunk_packets (chunks 120 bytes) ++ ((0x23 ∷ []) ∷ []))
  unfolding encode CommandCode.to_u8 Device.sign_finish
  rest-Writes bytes limit =
      Writes-bind (lift (reject_if (ltb limit (length bytes)) (invalid_argument "data")))
        (λ _.
          send_chunks p (chunks signing_chunk_bytes bytes)
          >> send_command_expect p Device.sign_finish "signing finish" signature_of)
        [] (chunk_packets (chunks 120 bytes) ++ ((0x23 ∷ []) ∷ []))
        (Writes-Silent (lift (reject_if (ltb limit (length bytes)) (invalid_argument "data")))
          (λ c. refl))
        (λ _.
          Writes-bind (send_chunks p (chunks signing_chunk_bytes bytes))
            (λ _. send_command_expect p Device.sign_finish "signing finish" signature_of)
            (chunk_packets (chunks 120 bytes)) ((0x23 ∷ []) ∷ [])
            (chunks-Writes (chunks 120 bytes) (chunks_lem bytes).1)
            (λ _. Writes-expect p Device.sign_finish "signing finish" signature_of))

  -- A signature that `sign` returns was made of the data: the client has sent the packet that starts
  -- a signature, then pieces of one to 120 bytes that joined are the data, in order and each once,
  -- then the packet that ends it, and nothing else.
  pub sign-pieces :
      (bytes : List ℕ) (c : Client F64) (signature : Signature)
      → (sign p bytes c).0 ≡ ok signature
      → (pieces : List (List ℕ)) × (joined pieces ≡ bytes)
        × All IsChunk pieces
        × ((sign p bytes c).1.written
            ≡ c.written ++ ((0x21 ∷ []) ∷ (chunk_packets pieces ++ ((0x23 ∷ []) ∷ []))))
  unfolding sign encode CommandCode.to_u8 Device.sign_start Device.sign_finish
  sign-pieces bytes c signature h =
      let (whole, fits) = chunks_lem bytes in
      (
        chunks 120 bytes,
        whole,
        fits,
        Writes-bind (send_command_expect p Device.sign_start "signing start" sign_start_of) _
            ((0x21 ∷ []) ∷ []) (chunk_packets (chunks 120 bytes) ++ ((0x23 ∷ []) ∷ []))
            (Writes-expect p Device.sign_start "signing start" sign_start_of)
            (λ limit. rest-Writes bytes limit) c signature h,
      )
