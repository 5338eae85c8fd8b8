-- ===== src/Backoff/Bounds.antt =====
-- The delays in closed form.
use meshquill.Common.{
  ap, arith, dec_le, get_elem?, ok, refl, some, subst, suc, sym, zero, ℕ, ◌*◌, ◌<◌, ◌^◌, ◌∙◌, ◌≡◌,
  ◌≤◌,
}
use meshquill.Backoff.{
  ReconnectConfig, ExponentialBackoff, new, next_delay, reset, delays, after,
  max_reconnect_delay_ms, saturating_mul,
}
use Prim.Native.Nat.{min}
use Prim.Native.Nat.pow

-- Cutting at the maximum before or after the multiplication makes no difference.
grow :
    (x m maximum : ℕ)
    → 1 ≤ m
    → maximum ≤ max_reconnect_delay_ms
    → min (saturating_mul (min x maximum) m) maximum ≡ min (x * m) maximum
grow x zero maximum h l = absurd (omega arith)
grow x (suc m) maximum h l = elim (dec_le x maximum) [
  | yes small ↦ let e : min x maximum ≡ x = omega arith in rw e (omega arith)
  | no large ↦ let e : min x maximum ≡ maximum = omega arith in rw e (omega arith)
]

power_zero : (x m : ℕ) → x ≡ x * m ^ 0
power_zero x m = let e : m ^ 0 ≡ 1 = pow.zero m in rw e (omega arith)

power : (x m k : ℕ) → x * m * m ^ k ≡ x * m ^ suc k
power x m k = let e : m ^ suc k ≡ m ^ k * m = pow.suc m k in rw e (omega arith)

new-eq-ok :
    (config : ReconnectConfig) (backoff : ExponentialBackoff)
    → new config ≡ ok backoff
    → (backoff ≡ record { config = config; next_delay_ms = config.initial_delay_ms })
      × (config.initial_delay_ms ≤ config.max_delay_ms)
      × (config.max_delay_ms ≤ max_reconnect_delay_ms)
      × (2 ≤ config.multiplier)
unfolding new
new-eq-ok config backoff h = (ground arith, ground arith, ground arith, ground arith)

delays-power :
    (n k x : ℕ) (backoff : ExponentialBackoff)
    → 1 ≤ backoff.config.multiplier
    → backoff.config.max_delay_ms ≤ max_reconnect_delay_ms
    → backoff.next_delay_ms ≡ min x backoff.config.max_delay_ms
    → k < n
    → get_elem? (delays n backoff) k
      ≡ some (min (x * backoff.config.multiplier ^ k) backoff.config.max_delay_ms)
unfolding delays next_delay
delays-power zero k x backoff h l e lt = absurd (omega arith)
delays-power (suc n) zero x backoff h l e lt = ap some (
    e
    ∙ ap (λ (y : ℕ). min y backoff.config.max_delay_ms) {x = x}
        {y = x * backoff.config.multiplier ^ 0} (power_zero x backoff.config.multiplier))
delays-power (suc n) (suc k) x backoff h l e lt =
    delays-power n k (x * backoff.config.multiplier) ((next_delay backoff).1) h l
      (ap (λ (y : ℕ). min (saturating_mul y backoff.config.multiplier) backoff.config.max_delay_ms)
          e
        ∙ grow x backoff.config.multiplier backoff.config.max_delay_ms h l)
      (omega arith)
    ∙ ap (λ (y : ℕ). some (min y backoff.config.max_delay_ms)) (power x backoff.config.multiplier k)

-- For a configuration that `new` accepts, the delay before the attempt number k, counted from zero
-- in n attempts in a row, is the initial delay times the k-th power of the multiplier, cut at the
-- configured maximum.
pub new-delays :
    (config : ReconnectConfig) (backoff : ExponentialBackoff) (n k : ℕ)
    → new config ≡ ok backoff
    → k < n
    → get_elem? (delays n backoff) k
      ≡ some (min (config.initial_delay_ms * config.multiplier ^ k) config.max_delay_ms)
new-delays config backoff n k h lt =
    let (is, low, high, two) = new-eq-ok config backoff h in
    subst
      (λ b.
        get_elem? (delays n b) k
        ≡ some (min (config.initial_delay_ms * config.multiplier ^ k) config.max_delay_ms))
      (sym is)
      (delays-power n k config.initial_delay_ms
        (record { config = config; next_delay_ms = config.initial_delay_ms }) (omega arith) high
        (omega arith) lt)

after-config : (n : ℕ) (backoff : ExponentialBackoff) → (after n backoff).config ≡ backoff.config
unfolding after next_delay
after-config zero backoff = refl
after-config (suc n) backoff = after-config n ((next_delay backoff).1)

-- After any number of attempts, `reset` gives back the generator that `new` made.
pub new-reset :
    (config : ReconnectConfig) (backoff : ExponentialBackoff) (n : ℕ)
    → new config ≡ ok backoff
    → reset (after n backoff) ≡ backoff
unfolding reset
new-reset config backoff n h =
    let (is, low, high, two) = new-eq-ok config backoff h in
    ap (λ c. record { config = c; next_delay_ms = c.initial_delay_ms })
      (after-config n backoff ∙ ap (λ b. b.config) is)
    ∙ sym is
