-- ===== src/Backoff.antt =====
-- crates/meshquill-mqtt/src/backoff.rs: the delays between attempts to reconnect to the broker.
-- The proofs are in the modules below.
pub mod Bounds
mod Runs
use meshquill.Common.{
  List, Outcome, [], ltb, ok, reject_if, suc, zero, ℕ, ◌*◌, ◌==◌, ◌>>=◌, ◌>>◌, ◌∷◌,
}
use Prim.Native.Nat.{min}

pub record ReconnectConfig : Type 0 where
  pub initial_delay_ms : ℕ
  pub max_delay_ms : ℕ
  pub multiplier : ℕ

pub data BackoffError : Type 0 where
  zero_initial_delay maximum_before_initial invalid_multiplier : BackoffError
  maximum_exceeds_limit : ℕ → ℕ → BackoffError

pub record ExponentialBackoff : Type 0 where
  pub config : ReconnectConfig
  pub next_delay_ms : ℕ

abbrev pub max_reconnect_delay_ms : ℕ
max_reconnect_delay_ms = 3600000

-- `ExponentialBackoff::new`
unfoldable pub new : ReconnectConfig → Outcome BackoffError ExponentialBackoff
new config = do
  reject_if (config.initial_delay_ms == 0) zero_initial_delay
  reject_if (ltb config.max_delay_ms config.initial_delay_ms) maximum_before_initial
  reject_if (ltb max_reconnect_delay_ms config.max_delay_ms)
      (maximum_exceeds_limit config.max_delay_ms max_reconnect_delay_ms)
  reject_if (ltb config.multiplier 2) invalid_multiplier
  ok (record { config = config; next_delay_ms = config.initial_delay_ms })

-- `u64::saturating_mul`
abbrev pub saturating_mul : ℕ → ℕ → ℕ
saturating_mul a b = min (a * b) 18446744073709551615

-- `ExponentialBackoff::next_delay`: the delay in milliseconds, and the generator after it.
unfoldable pub next_delay : ExponentialBackoff → ℕ × ExponentialBackoff
next_delay backoff = (
  backoff.next_delay_ms,
  record backoff {
    next_delay_ms =
        min (saturating_mul backoff.next_delay_ms backoff.config.multiplier)
          backoff.config.max_delay_ms;
  },
)

-- `ExponentialBackoff::reset`
unfoldable pub reset : ExponentialBackoff → ExponentialBackoff
reset backoff = record backoff { next_delay_ms = backoff.config.initial_delay_ms }

-- The delays of `n` attempts in a row.
unfoldable pub delays : ℕ → ExponentialBackoff → List ℕ
unfolding next_delay
delays zero backoff = []
delays (suc n) backoff = let (delay, after) = next_delay backoff in delay ∷ delays n after

-- The generator after `n` attempts in a row.
unfoldable pub after : ℕ → ExponentialBackoff → ExponentialBackoff
unfolding next_delay
after zero backoff = backoff
after (suc n) backoff = after n ((next_delay backoff).1)
