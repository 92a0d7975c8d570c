-- ===== src/RateLimit/Concurrent/Bound.antt =====
-- How many concurrent requests of a consumer pass (internal/gateway/ratelimit.go).
use hive_mind_fusion.Prelude.{
  lookup, Option, none, some, ℕ, ◌+◌, ◌-◌, ◌*◌, ◌≤◌, Text, same, List, [], ◌∷◌, ◌++◌, if◌then◌else◌,
  ◌≡◌, refl, sym, ap, ◌∙◌, arith,
}
use hive_mind_fusion.RateLimit.{token}
use hive_mind_fusion.RateLimit.Limiter.{
  Limits, limit_of, RateLimiter, new_rate_limiter, with_defaults, request,
}
use hive_mind_fusion.RateLimit.Fairness.{passes, passed, Ordered, passed-le}
use hive_mind_fusion.RateLimit.Concurrent.{
  Served, Shared, started, create, under_lock, take_at, Step, tick, found, miss, created, taken,
  Reach, here, next,
}
use hive_mind_fusion.RateLimit.Concurrent.Invariant.{replayed, Replays}
use hive_mind_fusion.RateLimit.Concurrent.Linear.{Reach-Replays}

-- The requests of a log in the order of their takes.
unfoldable pub requests_of : List Served → List (ℕ × Text)
requests_of [] = []
requests_of (e ∷ log) = requests_of log ++ ((e.now, e.consumer) ∷ [])

abbrev pub one : Text → Served → ℕ
one c e = if same e.consumer c then passes e.answer else 0

-- The answers of the log that let a request of this consumer pass.
unfoldable pub passed_in : Text → List Served → ℕ
passed_in c [] = 0
passed_in c (e ∷ log) = one c e + passed_in c log

unfoldable after : RateLimiter → List (ℕ × Text) → RateLimiter
after rl [] = rl
after rl ((now, consumer) ∷ es) = after (request now consumer rl).0 es

after-append :
    (rl : RateLimiter) (es : List (ℕ × Text)) (now : ℕ) (k : Text)
    → after rl (es ++ ((now, k) ∷ [])) ≡ (request now k (after rl es)).0
unfolding after
after-append rl [] now k = refl
after-append rl ((t, d) ∷ es) now k = after-append (request t d rl).0 es now k

passed-append :
    (c : Text) (rl : RateLimiter) (es : List (ℕ × Text)) (now : ℕ) (k : Text)
    → passed c rl (es ++ ((now, k) ∷ []))
      ≡ passed c rl es + (if same k c then passes (request now k (after rl es)).1 else 0)
unfolding after passed
passed-append c rl [] now k = omega arith
passed-append c rl ((t, d) ∷ es) now k =
    let rest = passed-append c (request t d rl).0 es now k in omega (arith, rest)

after-requests_of :
    (cfg : Limits) (log : List Served)
    → after (new_rate_limiter cfg) (requests_of log) ≡ replayed cfg log
unfolding after requests_of replayed
after-requests_of cfg [] = refl
after-requests_of cfg (e ∷ log) =
    after-append (new_rate_limiter cfg) (requests_of log) e.now e.consumer
    ∙ ap (λ rl. (request e.now e.consumer rl).0) (after-requests_of cfg log)

passed-requests_of :
    (c : Text) (cfg : Limits) (log : List Served)
    → Replays cfg log
    → passed c (new_rate_limiter cfg) (requests_of log) ≡ passed_in c log
unfolding requests_of passed_in passed
passed-requests_of c cfg [] h = refl
passed-requests_of c cfg (e ∷ log) (is, before) =
    let rl = new_rate_limiter cfg in
    let first = passed-append c rl (requests_of log) e.now e.consumer in
    let rest = passed-requests_of c cfg log before in
    let same_answer =
      is ∙ ap (λ x. (request e.now e.consumer x).1) (sym (after-requests_of cfg log)) in
    first
    ∙ (ap
          (λ n.
            n
            + (if same e.consumer c
                then passes (request e.now e.consumer (after rl (requests_of log))).1
                else 0))
          rest
        ∙ (ap (λ a. passed_in c log + (if same e.consumer c then passes a else 0)) (sym same_answer)
            ∙ omega arith))

Ordered-later :
    (from to later : ℕ) (es : List (ℕ × Text))
    → to ≤ later
    → Ordered from to es
    → Ordered from later es
Ordered-later from to later [] h o = omega arith
Ordered-later from to later ((now, k) ∷ es) h (first, o) =
    (first, Ordered-later now to later es h o)

Ordered-append :
    (from to : ℕ) (es : List (ℕ × Text)) (k : Text)
    → Ordered from to es
    → Ordered from to (es ++ ((to, k) ∷ []))
Ordered-append from to [] k o = (o, omega arith)
Ordered-append from to ((now, d) ∷ es) k (first, o) = (first, Ordered-append now to es k o)

module _ (from : ℕ) where
  abbrev IsOrdered : Shared → Type 0
  IsOrdered s = Ordered from s.clock (requests_of s.log)

  under_lock-IsOrdered :
      (s : Shared) (i : ℕ) (c : Text) (q : Option ℕ) → IsOrdered s → IsOrdered (under_lock i c q s)
  under_lock-IsOrdered s i c none o = o
  under_lock-IsOrdered s i c (some p) o = o

  Step-IsOrdered : (s t : Shared) → Step s t → IsOrdered s → IsOrdered t
  unfolding create take_at requests_of
  Step-IsOrdered s t (tick now h) o = Ordered-later from s.clock now (requests_of s.log) h o
  Step-IsOrdered s t (found i c p free at) o = o
  Step-IsOrdered s t (miss i c free gone) o = o
  Step-IsOrdered s t (created i c at) o = under_lock-IsOrdered s i c (lookup c s.buckets) o
  Step-IsOrdered s t (taken i c p b at is) o = Ordered-append from s.clock (requests_of s.log) c o

  Reach-IsOrdered : (cfg : Limits) (s : Shared) → Reach (started cfg from) s → IsOrdered s
  unfolding requests_of
  Reach-IsOrdered cfg s here = omega arith
  Reach-IsOrdered cfg s (next {t = t} r st) = Step-IsOrdered t s st (Reach-IsOrdered cfg t r)

-- In every interleaving of the locked sections of any number of requests: of one consumer's requests, those that passed since
-- the limiter was made are at most its burst and its rate times the time since: 60 * 10^9 times their number is at
-- most 60 * 10^9 times the burst plus the nanoseconds times the requests per minute.
pub passed_in-le :
    (c : Text) (cfg : Limits) (from : ℕ) (s : Shared)
    → Reach (started cfg from) s
    → passed_in c s.log * token
      ≤ (limit_of c (with_defaults cfg)).burst * token
        + (s.clock - from) * (limit_of c (with_defaults cfg)).requests_per_minute
passed_in-le c cfg from s r =
    let bound = passed-le c cfg from s.clock (requests_of s.log) (Reach-IsOrdered from cfg s r) in
    rw (passed-requests_of c cfg s.log (Reach-Replays cfg from s r)) at bound
