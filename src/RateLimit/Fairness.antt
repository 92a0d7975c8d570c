-- ===== src/RateLimit/Fairness.antt =====
-- How many requests of a consumer pass in a stretch of time (internal/gateway/ratelimit.go).
use hive_mind_fusion.Prelude.{
  ℕ, ◌+◌, ◌-◌, ◌*◌, ◌≤◌, ◌≡◌, ◌∙◌, ap, refl, arith, Bool-cases, Text, lookup, lookup-insert, same,
  same_iff, same_refl, false, List, [], ◌∷◌, Option, some, none, if◌then◌else◌, inl, inr,
}
use native.Mathlib.Nat.{add-zero, add_assoc, zero-add}
use hive_mind_fusion.RateLimit.{Bucket, new_bucket, token, take, Verdict, allowed, limited}
use hive_mind_fusion.RateLimit.Limiter.{
  Limit, Limits, RateLimiter, limit_of, create_bucket, get_bucket, request, Answer, forwarded,
  too_many, answer, new_rate_limiter, with_defaults,
}
use hive_mind_fusion.RateLimit.Take.{elapsed_split, cost, take_account, take_fixed}

abbrev pub passes : Answer → ℕ
passes forwarded = 1
passes (too_many wait) = 0

-- The requests of `c` that pass, among requests of any consumers, each with its time.
unfoldable pub passed : Text → RateLimiter → List (ℕ × Text) → ℕ
passed c rl [] = 0
passed c rl ((now, consumer) ∷ es) =
    let (rl', a) = request now consumer rl in
    (if same consumer c then passes a else 0) + passed c rl' es

-- The clock does not go back.
abbrev pub Ordered : ℕ → ℕ → List (ℕ × Text) → Type 0
Ordered from to [] = from ≤ to
Ordered from to ((now, consumer) ∷ es) = (from ≤ now) × Ordered now to es

-- The account of the consumer's bucket, `used` requests after the time `t0`.
abbrev pub Account : Limit → ℕ → ℕ → ℕ → Option Bucket → Type 0
Account l t0 now used none = used ≡ 0
Account l t0 now used (some b) =
    (used * token + b.tokens ≤ l.burst * token + (b.last_refill - t0) * l.requests_per_minute)
    × (b.max_tokens ≡ l.burst * token)
    × (b.refill_rate ≡ l.requests_per_minute)
    × (t0 ≤ b.last_refill)
    × (b.last_refill ≤ now)

take-Account :
    (l : Limit) (t0 now now' used : ℕ) (b : Bucket)
    → now ≤ now'
    → Account l t0 now used (some b)
    → Account l t0 now' (used + cost (take now' b).1) (some (take now' b).0)
take-Account l t0 now now' used b h a = ground (
  arith,
  take_account now' b,
  take_fixed now' b,
  elapsed_split l.requests_per_minute t0 b.last_refill now',
)

-- The bucket that a request takes from.
abbrev pub bucket_or : ℕ → Limit → Option Bucket → Bucket
bucket_or now l none = new_bucket now l.requests_per_minute l.burst
bucket_or now l (some b) = b

get_bucket_lem :
    (now : ℕ) (c : Text) (rl : RateLimiter)
    → let b = bucket_or now (limit_of c rl.cfg) (lookup c rl.buckets) in
      ((get_bucket now c rl).1 ≡ b) × ((get_bucket now c rl).0.cfg ≡ rl.cfg)
unfolding get_bucket create_bucket
get_bucket_lem now c rl = ground arith

lookup-get_bucket :
    (now : ℕ) (c k : Text) (rl : RateLimiter)
    → same c k ≡ false
    → lookup k (get_bucket now c rl).0.buckets ≡ lookup k rl.buckets
unfolding get_bucket create_bucket
lookup-get_bucket now c k rl h =
    let l = limit_of c rl.cfg in
    ground (arith, lookup-insert c k (new_bucket now l.requests_per_minute l.burst) rl.buckets)

-- A request changes the bucket of its own consumer, by one take, and no other.
pub request_lem :
    (now : ℕ) (c k : Text) (rl : RateLimiter)
    → let b = bucket_or now (limit_of c rl.cfg) (lookup c rl.buckets) in
      (lookup k (request now c rl).0.buckets
        ≡ (if same c k then some (take now b).0 else lookup k rl.buckets))
      × ((request now c rl).1 ≡ answer (take now b).1)
      × ((request now c rl).0.cfg ≡ rl.cfg)
unfolding request
request_lem now c k rl = ground (
  arith,
  get_bucket_lem now c rl,
  lookup-insert c k (take now (get_bucket now c rl).1).0 (get_bucket now c rl).0.buckets,
  lookup-get_bucket now c k rl,
)

passes-answer : (v : Verdict) → passes (answer v) ≡ cost v
passes-answer allowed = refl
passes-answer (limited none) = refl
passes-answer (limited (some wait)) = refl

bucket_or-Account :
    (l : Limit) (t0 now now' used : ℕ) (o : Option Bucket)
    → t0 ≤ now
    → now ≤ now'
    → Account l t0 now used o
    → Account l t0 now' used (some (bucket_or now' l o))
unfolding new_bucket
bucket_or-Account l t0 now now' used none g h a = ground arith
bucket_or-Account l t0 now now' used (some b) g h a = ground arith

later-Account :
    (l : Limit) (t0 now now' used : ℕ) (o : Option Bucket)
    → now ≤ now'
    → Account l t0 now used o
    → Account l t0 now' used o
later-Account l t0 now now' used none h a = a
later-Account l t0 now now' used (some b) h a = ground arith

own-Account :
    (c : Text) (t0 now now' used : ℕ) (l : Limit) (rl : RateLimiter)
    → limit_of c rl.cfg ≡ l
    → t0 ≤ now
    → now ≤ now'
    → Account l t0 now used (lookup c rl.buckets)
    → Account l t0 now'
        (used + passes (request now' c rl).1)
        (lookup c (request now' c rl).0.buckets)
own-Account c t0 now now' used l rl fixed g h a =
    let o = lookup c rl.buckets in
    let b = bucket_or now' l o in
    let opened = bucket_or-Account l t0 now now' used o g h a in
    let (kept, answered, unchanged) = request_lem now' c c rl in
    rw (kept, same_refl, answered, passes-answer, fixed)
      (take-Account l t0 now' now' used b (omega arith) opened)

request-Account :
    (c consumer : Text) (t0 now now' used : ℕ) (l : Limit) (rl : RateLimiter)
    → limit_of c rl.cfg ≡ l
    → t0 ≤ now
    → now ≤ now'
    → Account l t0 now used (lookup c rl.buckets)
    → Account l t0 now'
        (used + (if same consumer c then passes (request now' consumer rl).1 else 0))
        (lookup c (request now' consumer rl).0.buckets)
request-Account c consumer t0 now now' used l rl fixed g h a =
    let o = lookup c rl.buckets in
    elim (Bool-cases (same consumer c)) [
      | inl mine ↦
          let e : consumer ≡ c = (same_iff consumer c).0 mine in
          rw mine (rw e (own-Account c t0 now now' used l rl fixed g h a))
      | inr other ↦
          let kept = (request_lem now' consumer c rl).0 in
          rw (other, kept, other, add-zero) (later-Account l t0 now now' used o h a)
    ]

Account-bound :
    (l : Limit) (t0 now to used : ℕ) (o : Option Bucket)
    → t0 ≤ now
    → now ≤ to
    → Account l t0 now used o
    → used * token ≤ l.burst * token + (to - t0) * l.requests_per_minute
Account-bound l t0 now to used none g h a = rw a (omega arith)
Account-bound l t0 now to used (some b) g h a =
    let split = elapsed_split l.requests_per_minute t0 b.last_refill to in ground (arith, split)

run-passed :
    (c : Text) (t0 to used : ℕ) (l : Limit) (es : List (ℕ × Text)) (now : ℕ) (rl : RateLimiter)
    → limit_of c rl.cfg ≡ l
    → t0 ≤ now
    → Ordered now to es
    → Account l t0 now used (lookup c rl.buckets)
    → (used + passed c rl es) * token ≤ l.burst * token + (to - t0) * l.requests_per_minute
unfolding passed
run-passed c t0 to used l [] now rl fixed g ordered a =
    rw add-zero (Account-bound l t0 now to used (lookup c rl.buckets) g ordered a)
run-passed c t0 to used l ((now', consumer) ∷ es) now rl fixed g (h, later) a =
    let (rl', ans) = request now' consumer rl in
    let n : ℕ = if same consumer c then passes ans else 0 in
    let ih =
      run-passed c t0 to (used + n) l es now' rl'
        ((ap (limit_of c) (request_lem now' consumer c rl).2) ∙ fixed) (omega (arith, h)) later
        (request-Account c consumer t0 now now' used l rl fixed g h a) in
    rw (← add_assoc) ih

-- However the requests of all consumers interleave, in the order of the clock, those of one consumer
-- that pass between the start of the limiter and a later time are at most its burst and its rate
-- times that stretch: 60 * 10^9 times the passed requests are at most 60 * 10^9 times the burst plus
-- the nanoseconds times the requests per minute.
pub passed-le :
    (c : Text) (cfg : Limits) (from to : ℕ) (es : List (ℕ × Text))
    → Ordered from to es
    → passed c (new_rate_limiter cfg) es * token
      ≤ (limit_of c (with_defaults cfg)).burst * token
        + (to - from) * (limit_of c (with_defaults cfg)).requests_per_minute
unfolding new_rate_limiter lookup
passed-le c cfg from to es ordered =
    let l = limit_of c (with_defaults cfg) in
    rw (← zero-add (passed c (new_rate_limiter cfg) es))
      (run-passed c from to 0 l es from (new_rate_limiter cfg) refl (omega arith) ordered refl)
