-- ===== src/RateLimit/Retry.antt =====
-- What the Retry-After header promises (internal/gateway/ratelimit.go, `take` and `Middleware`).
use hive_mind_fusion.Prelude.{ℕ, ◌+◌, ◌-◌, ◌*◌, ◌/◌, ◌≤◌, ◌<◌, ◌≡◌, ◌≢◌, ◌↔◌, arith, some}
use hive_mind_fusion.RateLimit.{
  Bucket, token, second, take, allowed, limited, wait_time, retry_after,
}
use hive_mind_fusion.RateLimit.Take.{take_fixed}

-- The refused bucket, its rate, and the bounds of its wait.
pub take-limited :
    (now wait : ℕ) (b : Bucket)
    → (take now b).1 ≡ limited (some wait)
    → ((take now b).0.tokens < token)
      × (0 < b.refill_rate)
      × (wait ≡ (token - (take now b).0.tokens) / b.refill_rate)
unfolding take wait_time
take-limited now wait b h = ground arith

wait-lt : (n r : ℕ) → 0 < r → n < (n / r + 1) * r
wait-lt n r h = grind arith

wait-mul-le : (n r : ℕ) → n / r * r ≤ n
wait-mul-le n r = grind arith

-- The tokens of a bucket `elapsed` nanoseconds later.
take-allowed_iff :
    (now : ℕ) (b : Bucket)
    → token ≤ b.max_tokens
    → ((take now b).1 ≡ allowed) ↔ (token ≤ b.tokens + (now - b.last_refill) * b.refill_rate)
unfolding take
take-allowed_iff now b h = ground arith

mul_mono : (n m r : ℕ) → n ≤ m → n * r ≤ m * r
mul_mono n m r h = grind arith

retry_after-lt :
    (now later wait : ℕ) → now + retry_after wait * second ≤ later → wait + 1 ≤ later - now
unfolding retry_after
retry_after-lt now later wait h = omega arith

-- A refused caller who asks again after the seconds of the Retry-After header is admitted, if the
-- bucket can hold a token and nobody took from it in between; one who asks before the computed wait
-- has passed is refused again.
pub retry_after-take :
    (now later wait : ℕ) (b : Bucket)
    → token ≤ b.max_tokens
    → (take now b).1 ≡ limited (some wait)
    → now ≤ later
    → (now + retry_after wait * second ≤ later → (take later (take now b).0).1 ≡ allowed)
      × (later < now + wait → (take later (take now b).0).1 ≢ allowed)
retry_after-take now later wait b h e forward =
    let r = b.refill_rate in
    let b' = (take now b).0 in
    let (short, moving, is_wait) = take-limited now wait b e in
    let (same_max, same_rate, same_time) = take_fixed now b in
    let iff = take-allowed_iff later b' (omega (arith, same_max)) in
    let d = token - b'.tokens in
    let above : d < (wait + 1) * r = rw is_wait (wait-lt d r moving) in
    let below : wait * r ≤ d = rw is_wait (wait-mul-le d r) in
    (
      λ waited.
          let enough : (wait + 1) * r ≤ (later - now) * r =
            mul_mono (wait + 1) (later - now) r (retry_after-lt now later wait waited) in
          iff.1 (rw (same_time, same_rate) (omega arith)),
      λ early took.
          let few : (later - now + 1) * r ≤ wait * r =
            mul_mono (later - now + 1) wait r (omega arith) in
          let paid : token ≤ b'.tokens + (later - now) * r =
            rw (same_time, same_rate) at (iff.0 took) in
          omega arith,
    )
