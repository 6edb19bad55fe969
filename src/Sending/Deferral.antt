-- ===== src/Sending/Deferral.antt =====
-- `deferral_delay` of backend/app/modules/sending/service.py. The random draw is an argument, in
-- millionths; the jitter is rounded down to a microsecond.
use email_outreach_platform.Base.{
  ℕ, ◌+◌, ◌*◌, ◌/◌, ◌≤◌, ◌<◌, min, max, Option, none, some, arith, get_or, second,
}

abbrev pub min_deferral : ℕ
min_deferral = 30 * second

abbrev pub max_deferral : ℕ
max_deferral = 24 * 3600 * second

-- The limiter's estimate clamped to 30 s..24 h.
pub deferral_base : Option ℕ → ℕ
deferral_base retry_after = min (max (get_or min_deferral retry_after) min_deferral) max_deferral

unfoldable pub deferral_delay : Option ℕ → ℕ → ℕ
unfolding deferral_base
deferral_delay retry_after random =
    deferral_base retry_after + deferral_base retry_after * random / 10000000

jitter_product : (b r : ℕ) → r < 1000000 → b * r ≤ b * 1000000
jitter_product b r h = grind arith

jitter_small : (b r : ℕ) → r < 1000000 → 10 * (b * r / 10000000) ≤ b
jitter_small b r h = omega (arith, jitter_product b r h)

-- The wait is at least 30 seconds, at least the limiter's estimate up to a day, and no more than a
-- tenth over the estimate clamped to that range.
pub deferral_delay_bounds :
    (retry_after : Option ℕ) (random : ℕ)
    → random < 1000000
    → (min_deferral ≤ deferral_delay retry_after random)
      × (min (get_or 0 retry_after) max_deferral ≤ deferral_delay retry_after random)
      × (10 * deferral_delay retry_after random
          ≤ 11 * min (max (get_or 0 retry_after) min_deferral) max_deferral)
unfolding deferral_delay
deferral_delay_bounds none random h =
    let j = jitter_small (deferral_base none) random h in ground arith
deferral_delay_bounds (some r) random h =
    let j = jitter_small (deferral_base (some r)) random h in ground arith
