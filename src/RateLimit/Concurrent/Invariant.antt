-- ===== src/RateLimit/Concurrent/Invariant.antt =====
-- What the shared limiter and the replay of its answers have in common (internal/gateway/ratelimit.go).
use hive_mind_fusion.Prelude.{
  ◌⊎◌, zero, suc, ℕ, ◌≤◌, ◌<◌, ◌==◌, Text, lookup, Bool-cases, Option, none, some, List, [], ◌∷◌,
  ◌++◌, length, get_elem?, ◌≡◌, refl, ap, ◌∙◌, inl, inr, arith,
}
use hive_mind_fusion.RateLimit.{Bucket, new_bucket, take, refill}
use hive_mind_fusion.RateLimit.Limiter.{
  Limit, Limits, limit_of, RateLimiter, new_rate_limiter, with_defaults, request,
}
use hive_mind_fusion.RateLimit.Fairness.{bucket_or}
use hive_mind_fusion.RateLimit.Concurrent.{Pc, holding, Served, Shared, put}

-- The requests of the log one after another, in the order of their takes.
unfoldable pub replayed : Limits → List Served → RateLimiter
replayed cfg [] = new_rate_limiter cfg
replayed cfg (e ∷ log) = (request e.now e.consumer (replayed cfg log)).0

-- Each was answered as it is then.
abbrev pub Replays : Limits → List Served → Type 0
Replays cfg [] = Unit
Replays cfg (e ∷ log) =
    (e.answer ≡ (request e.now e.consumer (replayed cfg log)).1) × Replays cfg log

-- A new bucket is as good as none: its first take fills it up to the burst that it has.
take-new_bucket :
    (t now rate burst : ℕ)
    → t ≤ now
    → take now (new_bucket t rate burst) ≡ take now (new_bucket now rate burst)
unfolding take refill new_bucket
take-new_bucket t now rate burst h = ground arith

abbrev pub bucket_of : List Bucket → Option ℕ → Option Bucket
bucket_of heap none = none
bucket_of heap (some p) = get_elem? heap p

-- The bucket in the heap and the one of the replay: the same, or one from which nothing was taken yet.
abbrev pub Rel : ℕ → Limit → Option Bucket → Option Bucket → Type 0
Rel now l none none = Unit
Rel now l none (some b) = ⊥
Rel now l (some b) (some b') = b ≡ b'
Rel now l (some b) none = (t : ℕ) × (t ≤ now) × (b ≡ new_bucket t l.requests_per_minute l.burst)

Rel-later :
    (now now' : ℕ) (l : Limit) (o o' : Option Bucket)
    → now ≤ now'
    → Rel now l o o'
    → Rel now' l o o'
Rel-later now now' l none none h r = tt
Rel-later now now' l none (some b) h r = elim r [ ]
Rel-later now now' l (some b) (some b') h r = r
Rel-later now now' l (some b) none h (t, before, e) = (t, omega arith, e)

pub Rel-none : (now : ℕ) (l : Limit) (o : Option Bucket) → Rel now l none o → o ≡ none
Rel-none now l none r = refl
Rel-none now l (some b) r = elim r [ ]

pub Rel-take :
    (now : ℕ) (l : Limit) (b : Bucket) (o : Option Bucket)
    → Rel now l (some b) o
    → take now b ≡ take now (bucket_or now l o)
Rel-take now l b (some b') r = ap (take now) r
Rel-take now l b none (t, before, e) =
    ap (take now) e ∙ take-new_bucket t now l.requests_per_minute l.burst before

pub get_elem?-append :
    (xs ys : List Bucket) (p : ℕ) → p < length xs → get_elem? (xs ++ ys) p ≡ get_elem? xs p
get_elem?-append [] ys p h = absurd (omega arith)
get_elem?-append (x ∷ xs) ys zero h = refl
get_elem?-append (x ∷ xs) ys (suc p) h = get_elem?-append xs ys p (omega arith)

pub get_elem?-last :
    (xs : List Bucket) (b : Bucket) → get_elem? (xs ++ (b ∷ [])) (length xs) ≡ some b
get_elem?-last [] b = refl
get_elem?-last (x ∷ xs) b = get_elem?-last xs b

pub put-cases :
    (i j : ℕ) (pc q : Pc) (threads : ℕ → Pc) → put i pc threads j ≡ q → (pc ≡ q) ⊎ (threads j ≡ q)
put-cases i j pc q threads h = elim (Bool-cases (i == j)) [
  | inl y ↦ inl (rw y at h)
  | inr n ↦ inr (rw n at h)
]

module _ (cfg : Limits) where
  abbrev pub limit : Text → Limit
  limit c = limit_of c (with_defaults cfg)

  pub record Inv (s : Shared) : Type 0 where
    pub settled : s.cfg ≡ with_defaults cfg
    pub replay_settled : (replayed cfg s.log).cfg ≡ with_defaults cfg
    pub replays : Replays cfg s.log
    pub inside : (c : Text) (p : ℕ) → lookup c s.buckets ≡ some p → p < length s.heap
    pub apart :
        (c d : Text) (p : ℕ) → lookup c s.buckets ≡ some p → lookup d s.buckets ≡ some p → c ≡ d
    pub holds : (i : ℕ) (c : Text) (p : ℕ) → s.threads i ≡ holding c p → lookup c s.buckets ≡ some p
    pub related :
        (c : Text)
        → Rel s.clock
            (limit c)
            (bucket_of s.heap (lookup c s.buckets))
            (lookup c (replayed cfg s.log).buckets)

  -- A goroutine that changes nothing but itself.
  pub put-Inv :
      (s : Shared) (i : ℕ) (pc : Pc)
      → ((c : Text) (p : ℕ) → pc ≡ holding c p → lookup c s.buckets ≡ some p)
      → Inv s
      → Inv (record s { threads = put i pc s.threads })
  put-Inv s i pc right v = record {
    settled = v.settled;
    replay_settled = v.replay_settled;
    replays = v.replays;
    inside = v.inside;
    apart = v.apart;
    holds = λ j c p h. elim (put-cases i j pc (holding c p) s.threads h) [
      | inl its ↦ right c p its
      | inr other ↦ v.holds j c p other
    ];
    related = v.related;
  }

  pub tick-Inv : (s : Shared) (now : ℕ) → s.clock ≤ now → Inv s → Inv (record s { clock = now })
  tick-Inv s now h v = record {
    settled = v.settled;
    replay_settled = v.replay_settled;
    replays = v.replays;
    inside = v.inside;
    apart = v.apart;
    holds = v.holds;
    related = λ c. Rel-later s.clock now (limit c) _ _ h (v.related c);
  }
