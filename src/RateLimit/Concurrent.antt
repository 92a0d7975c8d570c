-- ===== src/RateLimit/Concurrent.antt =====
-- Requests that share the limiter (internal/gateway/ratelimit.go, `getBucket` and `take`): the goroutines of the requests
-- take the limiter's lock and the locks of the buckets in any order. A bucket is a place of the heap, which goroutines
-- keep while the map may change. `Update` is not among the steps: the gateway makes a new limiter on a reload.
pub mod Invariant
pub mod Taking
pub mod Linear
pub mod Bound
mod Tests
use hive_mind_fusion.Prelude.{
  ℕ, ◌≤◌, ◌==◌, Text, Map, lookup, insert, Option, none, some, List, [], ◌∷◌, ◌++◌, length, set,
  get_elem?, if◌then◌else◌, ◌≡◌,
}
use hive_mind_fusion.RateLimit.{Bucket, new_bucket, take}
use hive_mind_fusion.RateLimit.Limiter.{Limits, limit_of, with_defaults, Answer, answer}

-- A goroutine: between requests, after a read lock that found no entry, or with a bucket.
pub data Pc : Type 0 where
  idle : Pc
  missed : Text → Pc
  holding : Text → ℕ → Pc

-- What was answered, to whom and when.
pub record Served : Type 0 where
  pub now : ℕ
  pub consumer : Text
  pub answer : Answer

-- `log` has the answers, the last one first.
pub record Shared : Type 0 where
  pub clock : ℕ
  pub heap : List Bucket
  pub buckets : Map ℕ
  pub cfg : Limits
  pub threads : ℕ → Pc
  pub log : List Served

abbrev pub put : ℕ → Pc → (ℕ → Pc) → ℕ → Pc
put i pc threads j = if i == j then pc else threads j

abbrev pub started : Limits → ℕ → Shared
started cfg clock = record {
  clock = clock;
  heap = [];
  buckets = [];
  cfg = with_defaults cfg;
  threads = λ i. idle;
  log = [];
}

-- The part under the write lock, by what the map has then.
abbrev pub under_lock : ℕ → Text → Option ℕ → Shared → Shared
under_lock i c (some p) s = record s { threads = put i (holding c p) s.threads }
under_lock i c none s =
    let l = limit_of c s.cfg in
    record s {
      heap = s.heap ++ (new_bucket s.clock l.requests_per_minute l.burst ∷ []);
      buckets = insert c (length s.heap) s.buckets;
      threads = put i (holding c (length s.heap)) s.threads;
    }

unfoldable pub create : ℕ → Text → Shared → Shared
create i c s = under_lock i c (lookup c s.buckets) s

-- A take of the bucket at a place, and the answer.
unfoldable pub take_at : ℕ → Text → ℕ → Bucket → Shared → Shared
take_at i c p b s = record s {
  heap = set s.heap p (take s.clock b).0;
  threads = put i idle s.threads;
  log = record { now = s.clock; consumer = c; answer = answer (take s.clock b).1 } ∷ s.log;
}

pub data Step (s : Shared) : Shared → Type 0 where
  tick : (now : ℕ) → s.clock ≤ now → Step s (record s { clock = now })
  found :
      (i : ℕ) (c : Text) (p : ℕ)
      → s.threads i ≡ idle
      → lookup c s.buckets ≡ some p
      → Step s (record s { threads = put i (holding c p) s.threads })
  miss :
      (i : ℕ) (c : Text)
      → s.threads i ≡ idle
      → lookup c s.buckets ≡ none
      → Step s (record s { threads = put i (missed c) s.threads })
  created : (i : ℕ) (c : Text) → s.threads i ≡ missed c → Step s (create i c s)
  taken :
      (i : ℕ) (c : Text) (p : ℕ) (b : Bucket)
      → s.threads i ≡ holding c p
      → get_elem? s.heap p ≡ some b
      → Step s (take_at i c p b s)

pub data Reach (s : Shared) : Shared → Type 0 where
  here : Reach s s
  next : {t u : Shared} → Reach s t → Step t u → Reach s u
