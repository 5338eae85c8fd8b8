-- ===== src/Protocol/RoundTrip/Route.antt =====
-- Route descriptors: the byte that `encode_contact_route` writes is read as the same route.
use meshquill.Protocol.Parse.Pieces.{contact_route}
use meshquill.Protocol.Command.{encode_contact_route}
use meshquill.Common.{
  ap, false, ◌∙◌, ==_iff, >>=-eq-ok, Bool, arith, length, ltb, not, ok, refl, reject_if,
  reject_if-eq-ok, subst, suc, sym, true, zero, ℕ, ℕ_discrete, ◌%◌, ◌&&◌, ◌*◌, ◌+◌, ◌/◌, ◌<◌, ◌==◌,
  ◌||◌, ◌≡◌, ◌≤◌,
}
use Prim.Native.Nat.{bit_or}
use meshquill.Domain.{ContactRoute, MeshPath, flood, path}

-- A test that all numbers below `n` pass.
abbrev all_below : (ℕ → Bool) → ℕ → Bool
all_below test zero = true
all_below test (suc n) = test n && all_below test n

all_below-lt : (test : ℕ → Bool) (n : ℕ) → all_below test n ≡ true → (k : ℕ) → k < n → test k ≡ true
all_below-lt test zero h k l = absurd (omega arith)
all_below-lt test (suc n) h k l = elim (ℕ_discrete k n) [
  | yes e ↦ subst (λ m. test m ≡ true) (sym e) (ground arith)
  | no ne ↦ all_below-lt test n (ground arith) k (omega arith)
]

-- A hash mode in the high bits does not meet a hop count in the low six.
disjoint : (m : ℕ) → m ≤ 2 → (h : ℕ) → h < 64 → bit_or (m * 64) h ≡ m * 64 + h
disjoint zero l h k = (==_iff _ _).0 (all_below-lt (λ h. bit_or 0 h == 0 + h) 64 refl h k)
disjoint (suc zero) l h k = (==_iff _ _).0 (all_below-lt (λ h. bit_or 64 h == 64 + h) 64 refl h k)
disjoint (suc (suc zero)) l h k =
    (==_iff _ _).0 (all_below-lt (λ h. bit_or 128 h == 128 + h) 64 refl h k)
disjoint (suc (suc (suc m))) l h k = absurd (omega arith)

contact_route-sum :
    (m n : ℕ) → m ≤ 2 → n < 64 → contact_route (m * 64 + n) ≡ (path m n, n * (m + 1))
unfolding contact_route
contact_route-sum m n h k =
    let plain : ((m * 64 + n) == 255) ≡ false = ground arith in
    let high : (m * 64 + n) / 64 ≡ m = omega arith in
    let low : (m * 64 + n) % 64 ≡ n = omega arith in rw (plain, high, low) refl

-- A route and a path that `encode_contact_route` accepts come back from the descriptor, the path as
-- its number of bytes.
pub contact_route-encode :
    (route : ContactRoute) (out_path : MeshPath) (descriptor : ℕ)
    → encode_contact_route route out_path ≡ ok descriptor
    → contact_route descriptor ≡ (route, length out_path.bytes)
unfolding encode_contact_route contact_route
contact_route-encode flood out_path descriptor h = ground arith
contact_route-encode (path m n) out_path descriptor h =
    let (u, e, h1) = >>=-eq-ok (reject_if (ltb 2 m || ltb 63 n) _) _ h in
    let (v, e1, h2) = >>=-eq-ok (reject_if (not (length out_path.bytes == n * (m + 1))) _) _ h1 in
    let bounds : (m ≤ 2) × (n < 64) = ground (arith, reject_if-eq-ok _ _ e) in
    let exact : length out_path.bytes ≡ n * (m + 1) = ground (arith, reject_if-eq-ok _ _ e1) in
    let d : descriptor ≡ m * 64 + n = ground (arith, disjoint m bounds.0 n bounds.1) in
    ap contact_route d
    ∙ contact_route-sum m n bounds.0 bounds.1
    ∙ ap (λ k. (path m n, k)) (sym exact)
