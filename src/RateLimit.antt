-- ===== src/RateLimit.antt =====
-- The token buckets of internal/gateway/ratelimit.go.
-- Time is in nanoseconds. The source counts tokens in float64 and refills rpm / 60 of them a second;
-- here a token is split into 60 * 10^9 parts, so that a nanosecond refills exactly `rpm` parts and
-- every quantity is a whole number. What is left out is the rounding of float64. Limits are natural
-- numbers: a negative rate or burst, which the configuration does not exclude, is not modelled.
pub mod Limiter
pub mod Take
pub mod Fairness
pub mod Retry
pub mod Concurrent
mod Tests
use hive_mind_fusion.Prelude.{
  ℕ, ◌+◌, ◌-◌, ◌*◌, ◌/◌, leb, ltb, ◌==◌, Bool, true, false, Option, some, none, if◌then◌else◌,
}

-- Nanoseconds in a second, and parts of a token.
abbrev pub second : ℕ
second = 1_000_000_000

abbrev pub token : ℕ
token = 60_000_000_000

pub record Bucket : Type 0 where
  pub tokens : ℕ
  pub max_tokens : ℕ
  pub refill_rate : ℕ
  pub last_refill : ℕ

unfoldable pub new_bucket : ℕ → ℕ → ℕ → Bucket
new_bucket now requests_per_minute burst = record {
  tokens = burst * token;
  max_tokens = burst * token;
  refill_rate = requests_per_minute;
  last_refill = now;
}

pub data Verdict : Type 0 where
  allowed : Verdict
  limited : Option ℕ → Verdict

-- The refill of `take`, with its cap. The clock that `time.Now` reads is monotonic, so the difference
-- of two readings is not cut off.
unfoldable pub refill : ℕ → Bucket → Bucket
refill now b =
    let tokens = b.tokens + (now - b.last_refill) * b.refill_rate in
    record b {
      tokens = if ltb b.max_tokens tokens then b.max_tokens else tokens;
      last_refill = now;
    }

-- The wait in nanoseconds until a token is full. With no refill the source divides by 0.0, and what
-- Go makes of the infinite result is left open: `none`.
unfoldable pub wait_time : Bucket → Option ℕ
wait_time b = if b.refill_rate == 0 then none else some ((token - b.tokens) / b.refill_rate)

unfoldable pub take : ℕ → Bucket → Bucket × Verdict
unfolding refill
take now b =
    let r = refill now b in
    if leb token r.tokens
    then (record r { tokens = r.tokens - token }, allowed)
    else (r, limited (wait_time r))

-- `Retry-After`: whole seconds of the wait, and one more.
unfoldable pub retry_after : ℕ → ℕ
retry_after wait = wait / second + 1
