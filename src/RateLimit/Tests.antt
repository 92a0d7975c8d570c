-- ===== src/RateLimit/Tests.antt =====
-- Buckets and limiters of internal/gateway/ratelimit.go at concrete times.
use hive_mind_fusion.Prelude.{
  ℕ, ◌+◌, ◌*◌, ◌≤◌, ◌<◌, Text, text, same, lookup, insert, some, List, [], ◌∷◌, ◌≡◌, ◌≢◌, refl,
  arith,
}
use hive_mind_fusion.RateLimit.{
  Bucket, token, second, refill, take, wait_time, new_bucket, retry_after, allowed, limited,
}
use hive_mind_fusion.RateLimit.Limiter.{
  Limits, RateLimiter, new_rate_limiter, with_defaults, limit_of, get_bucket, create_bucket,
  request, update,
}
use hive_mind_fusion.RateLimit.Retry.{retry_after-take}
use hive_mind_fusion.RateLimit.Fairness.{passed}

-- One request a minute for the consumer "a", the defaults for all others.
abbrev limits : Limits
limits = record {
  default = record { requests_per_minute = 0; burst = 0 };
  consumers = (text "a", record { requests_per_minute = 1; burst = 1 }) ∷ [];
}

abbrev requests : List (ℕ × Text)
requests = (5, text "a") ∷ (6, text "b") ∷ (7, text "a") ∷ (60_000_000_006, text "a") ∷ []

one_refused : passed (text "a") (new_rate_limiter limits) requests ≡ 2
unfolding passed new_rate_limiter with_defaults request get_bucket create_bucket limit_of take
    refill wait_time new_bucket retry_after lookup insert text same
one_refused = refl

-- A bucket with half a token, refilled by one token a second.
abbrev half : Bucket
half = record { tokens = 30_000_000_000; max_tokens = token; refill_rate = 60; last_refill = 0 }

waits : (take 0 half).1 ≡ limited (some 500_000_000)
unfolding take refill wait_time
waits = refl

retry_after-take_example :
    (0 + retry_after 500_000_000 * second ≤ 2_000_000_000
      → (take 2_000_000_000 (take 0 half).0).1 ≡ allowed)
    × (2_000_000_000 < 0 + 500_000_000 → (take 2_000_000_000 (take 0 half).0).1 ≢ allowed)
retry_after-take_example =
    retry_after-take 0 2_000_000_000 500_000_000 half (omega arith) waits (omega arith)

abbrev start : RateLimiter
start = new_rate_limiter limits

update_resets : (update limits (request 5 (text "a") start).0).buckets ≡ []
unfolding update
update_resets = refl
