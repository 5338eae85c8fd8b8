-- ===== src/Backoff/Runs.antt =====
-- The default configuration.
use meshquill.Common.{[], arith, get_elem?, ok, refl, some, ◌*◌, ◌^◌, ◌∷◌, ◌≡◌}
use meshquill.Backoff.{ReconnectConfig, ExponentialBackoff, new, next_delay, reset, delays, after}
use meshquill.Backoff.Bounds.{new-delays, new-reset}
use Prim.Native.Nat.{min}

abbrev default_config : ReconnectConfig
default_config = record { initial_delay_ms = 250; max_delay_ms = 30000; multiplier = 2 }

abbrev started : ExponentialBackoff
started = record { config = default_config; next_delay_ms = 250 }

new-default : new default_config ≡ ok started
unfolding new
new-default = refl

ten_delays :
    delays 10 started ≡ 250 ∷ 500 ∷ 1000 ∷ 2000 ∷ 4000 ∷ 8000 ∷ 16000 ∷ 30000 ∷ 30000 ∷ 30000 ∷ []
unfolding delays next_delay
ten_delays = refl

new-delays_example : get_elem? (delays 10 started) 7 ≡ some (min (250 * 2 ^ 7) 30000)
new-delays_example = new-delays default_config started 10 7 new-default (omega arith)

new-reset_example : reset (after 5 started) ≡ started
new-reset_example = new-reset default_config started 5 new-default
