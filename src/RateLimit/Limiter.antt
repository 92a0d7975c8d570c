-- ===== src/RateLimit/Limiter.antt =====
-- The limiter's map of buckets, `Update` and the middleware (internal/gateway/ratelimit.go).
use hive_mind_fusion.Prelude.{
  ℕ, ◌==◌, Text, text, is_empty, Map, lookup, insert, Option, some, none, if◌then◌else◌, [],
}
use hive_mind_fusion.RateLimit.{Bucket, new_bucket, Verdict, allowed, limited, take, retry_after}

pub record Limit : Type 0 where
  pub requests_per_minute : ℕ
  pub burst : ℕ

pub record Limits : Type 0 where
  pub default : Limit
  pub consumers : Map Limit

pub record RateLimiter : Type 0 where
  pub buckets : Map Bucket
  pub cfg : Limits

abbrev pub or_default : ℕ → ℕ → ℕ
or_default d n = if n == 0 then d else n

-- `NewRateLimiter` and `Update` put 60 and 10 for a default of 0.
unfoldable pub with_defaults : Limits → Limits
with_defaults cfg = record cfg {
  default = record {
    requests_per_minute = or_default 60 cfg.default.requests_per_minute;
    burst = or_default 10 cfg.default.burst;
  };
}

unfoldable pub new_rate_limiter : Limits → RateLimiter
new_rate_limiter cfg = record { buckets = []; cfg = with_defaults cfg }

-- `Update` resets every bucket.
unfoldable pub update : Limits → RateLimiter → RateLimiter
update cfg rl = record rl { buckets = []; cfg = with_defaults cfg }

abbrev pub limit_or : Limit → Option Limit → Limit
limit_or d none = d
limit_or d (some l) = l

-- The consumer's own limits where the configuration has them.
unfoldable pub limit_of : Text → Limits → Limit
limit_of consumer cfg = limit_or cfg.default (lookup consumer cfg.consumers)

-- The part of `getBucket` under the write lock, which checks again for an entry. `cfg` is what the
-- read lock saw.
unfoldable pub create_bucket : ℕ → Text → Limits → RateLimiter → RateLimiter × Bucket
create_bucket now consumer cfg rl = elim (lookup consumer rl.buckets) [
  | some b ↦ (rl, b)
  | none ↦
      let l = limit_of consumer cfg in
      let b = new_bucket now l.requests_per_minute l.burst in
      (record rl { buckets = insert consumer b rl.buckets }, b)
]

-- `getBucket` with nothing between its two locks.
unfoldable pub get_bucket : ℕ → Text → RateLimiter → RateLimiter × Bucket
get_bucket now consumer rl = elim (lookup consumer rl.buckets) [
  | some b ↦ (rl, b)
  | none ↦ create_bucket now consumer rl.cfg rl
]

-- `consumerFromContext`: the identity that the authentication left, if any.
unfoldable pub consumer_from_context : Option Text → Text
consumer_from_context none = text "__default__"
consumer_from_context (some v) = if is_empty v then text "__default__" else v

-- What the middleware answers: the next handler runs, or 429 with the header's seconds.
pub data Answer : Type 0 where
  forwarded : Answer
  too_many : Option ℕ → Answer

abbrev pub answer : Verdict → Answer
answer allowed = forwarded
answer (limited none) = too_many none
answer (limited (some wait)) = too_many (some (retry_after wait))

-- One request: the bucket is found or made, and a token taken from it. The bucket that `take`
-- changes is the one in the map.
unfoldable pub request : ℕ → Text → RateLimiter → RateLimiter × Answer
request now consumer rl =
    let (rl', b) = get_bucket now consumer rl in
    let (b', verdict) = take now b in
    (record rl' { buckets = insert consumer b' rl'.buckets }, answer verdict)
