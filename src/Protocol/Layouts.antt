-- ===== src/Protocol/Layouts.antt =====
-- The layouts of the packets, and the rules by which a parser that returns tells of the packet.
use meshquill.Protocol.PacketCode.{PacketCode}
use meshquill.Protocol.Parse.Pieces.{Parsed, contact_route}
use meshquill.Protocol.Safety.Rules.{require_len-eq-ok, require_exact_len-eq-ok}
use meshquill.Error.{ParseError}
use meshquill.Common.{
  Bool, List, err, false, if◌then◌else◌, panic, refl, subst, true, ℕ, ◌%◌, ◌+◌, ◌>>=◌, ◌≡◌, ◌≤◌,
  ◌⊎◌, reject_if-eq-ok, arith, at, byte, length, ok,
}

-- The layouts of each selector: which lengths a packet has, and what its own bytes make of them.
abbrev pub HasLayout : PacketCode → List ℕ → Type 0
HasLayout PacketCode.ok raw = (length raw ≡ 1) ⊎ (length raw ≡ 5)
HasLayout PacketCode.battery raw = (length raw ≡ 3) ⊎ (length raw ≡ 11)
HasLayout PacketCode.private_key raw = length raw ≡ 65
HasLayout PacketCode.signature raw = length raw ≡ 65
HasLayout PacketCode.disabled raw = length raw ≡ 1
HasLayout PacketCode.sign_start raw = (length raw ≡ 6) × (byte raw 1 ≡ 0)
HasLayout PacketCode.login_success raw =
    (length raw ≡ 8) ⊎ (length raw ≡ 12) ⊎ (length raw ≡ 13) ⊎ (length raw ≡ 14)
HasLayout PacketCode.login_failed raw = (length raw ≡ 8) × (byte raw 1 ≡ 0)
HasLayout PacketCode.status_response raw =
    ((length raw ≡ 60) ⊎ (length raw ≡ 64)) × (byte raw 1 ≡ 0)
HasLayout PacketCode.tuning_params raw = length raw ≡ 9
HasLayout PacketCode.autoadd_config raw = (length raw ≡ 2) ⊎ ((length raw ≡ 3) × (byte raw 2 ≤ 64))
HasLayout PacketCode.default_flood_scope raw = (length raw ≡ 1) ⊎ (length raw ≡ 48)
HasLayout PacketCode.contact raw = (148 ≤ length raw) × ((contact_route (byte raw 35)).1 ≤ 64)
HasLayout PacketCode.self_info raw = 58 ≤ length raw
HasLayout PacketCode.channel_info raw = 50 ≤ length raw
HasLayout PacketCode.msg_sent raw = 10 ≤ length raw
HasLayout PacketCode.contact_msg_recv raw = (13 ≤ length raw) × ((byte raw 8 ≡ 2) → 17 ≤ length raw)
HasLayout PacketCode.contact_msg_recv_v3 raw =
    (16 ≤ length raw) × ((byte raw 11 ≡ 2) → 20 ≤ length raw)
HasLayout PacketCode.path_discovery_response raw = (10 ≤ length raw) × (byte raw 1 ≡ 0)
HasLayout PacketCode.contact_start raw = 5 ≤ length raw
HasLayout PacketCode.contact_end raw = 5 ≤ length raw
HasLayout PacketCode.current_time raw = length raw ≡ 5
HasLayout PacketCode.contact_uri raw = 2 ≤ length raw
HasLayout PacketCode.ack raw = (length raw ≡ 5) ⊎ (9 ≤ length raw)
HasLayout PacketCode.channel_msg_recv raw = 8 ≤ length raw
HasLayout PacketCode.channel_msg_recv_v3 raw = 11 ≤ length raw
HasLayout PacketCode.device_info raw =
    (2 ≤ length raw)
    × (3 ≤ byte raw 1 → 80 ≤ length raw)
    × (9 ≤ byte raw 1 → 81 ≤ length raw)
    × (10 ≤ byte raw 1 → 82 ≤ length raw)
HasLayout PacketCode.advert_path raw = length raw ≡ 6 + (contact_route (byte raw 5)).1
HasLayout PacketCode.telemetry_response raw = (8 ≤ length raw) × (byte raw 1 ≡ 0)
HasLayout PacketCode.binary_response raw = (6 ≤ length raw) × (byte raw 1 ≡ 0)
HasLayout PacketCode.control_data raw = 5 ≤ length raw
HasLayout PacketCode.stats raw =
    ((byte raw 1 ≡ 0) × (length raw ≡ 11))
    ⊎ ((byte raw 1 ≡ 1) × (length raw ≡ 14))
    ⊎ ((byte raw 1 ≡ 2) × ((length raw ≡ 26) ⊎ (length raw ≡ 30)))
HasLayout PacketCode.custom_vars raw = (1 ≤ length raw) × (length raw ≤ 141)
HasLayout PacketCode.allowed_repeat_freq raw = length raw % 8 ≡ 1
HasLayout _ raw = 1 ≤ length raw

-- What the call returns has the property.
pub record Gives {A : Type 0} (P : A → Type 0) (m : Parsed A) : Type 0 where
  pub gives : (a : A) → m ≡ ok a → P a

module _ {A : Type 0} {P : A → Type 0} where
  pub Gives-ok : (a : A) → P a → Gives P (ok a)
  Gives-ok a h = record { gives = λ b e. subst P (cc (e)) h }

  pub Gives-err : (e : ParseError) → Gives P (err e)
  Gives-err e = record { gives = λ b h. cc }

  pub Gives-if :
      (b : Bool) (m n : Parsed A)
      → (b ≡ true → Gives P m)
      → (b ≡ false → Gives P n)
      → Gives P (if b then m else n)
  Gives-if true m n hm hn = hm refl
  Gives-if false m n hm hn = hn refl

  pub Gives-bind {ℓ} :
      {B : Type ℓ} (m : Parsed B) (f : B → Parsed A)
      → ((b : B) → m ≡ ok b → Gives P (f b))
      → Gives P (m >>= f)
  Gives-bind (ok a) f h = h a refl
  Gives-bind (err e) f h = Gives-err e
  Gives-bind panic f h = record { gives = λ b e. cc }

pub at-eq-ok : (raw : List ℕ) (i : ℕ) {b : ℕ} → at {E = ParseError} raw i ≡ ok b → byte raw i ≡ b
unfolding at
at-eq-ok raw i h = ground arith

pub ruleset lengths = (
  Gives-ok, Gives-err, Gives-if, Gives-bind, require_len-eq-ok, require_exact_len-eq-ok, at-eq-ok,
  reject_if-eq-ok, arith,
)
