-- ===== src/RateLimit/Take.antt =====
-- One `take` of a bucket: its bounds and its account (internal/gateway/ratelimit.go).
use hive_mind_fusion.Prelude.{ℕ, ◌+◌, ◌-◌, ◌*◌, ◌≤◌, ◌≡◌, ap, arith}
use hive_mind_fusion.RateLimit.{Bucket, token, take, Verdict, allowed, limited}

pub elapsed_split :
    (r t0 last now : ℕ)
    → t0 ≤ last
    → last ≤ now
    → (last - t0) * r + (now - last) * r ≡ (now - t0) * r
elapsed_split r t0 last now h k =
    let e : last - t0 + (now - last) ≡ now - t0 = omega arith in
    omega (arith, ap (λ (n : ℕ). n * r) e)

-- 1 for an admitted request.
abbrev pub cost : Verdict → ℕ
cost allowed = 1
cost (limited wait) = 0

-- A take never puts more into the bucket than its size, and what it admits is paid for by what the
-- bucket held and by the refill of the time that has passed.
pub take_account :
    (now : ℕ) (b : Bucket)
    → (cost (take now b).1 * token + (take now b).0.tokens
        ≤ b.tokens + (now - b.last_refill) * b.refill_rate)
      × ((take now b).0.tokens ≤ b.max_tokens)
unfolding take
take_account now b = ground arith

pub take_fixed :
    (now : ℕ) (b : Bucket)
    → ((take now b).0.max_tokens ≡ b.max_tokens)
      × ((take now b).0.refill_rate ≡ b.refill_rate)
      × ((take now b).0.last_refill ≡ now)
unfolding take
take_fixed now b = ground arith
