-- ===== src/Consumer/Usage.antt =====
-- The accounts after any sequence of requests (internal/gateway/consumer.go).
use hive_mind_fusion.Prelude.{
  ℕ, ◌+◌, ◌%◌, ◌^◌, Text, same, same_iff, Map, lookup, lookup-insert, List, [], ◌∷◌, if◌then◌else◌,
  ◌≡◌, refl, arith, Bool-cases, inl, inr,
}
use hive_mind_fusion.Consumer.{
  ConsumerStats, ConsumerTracker, stats_or_fresh, add_usage, record_usage,
}

-- One `Record`.
pub record Entry : Type 0 where
  pub now : ℕ
  pub consumer : Text
  pub prompt : ℕ
  pub completion : ℕ

unfoldable pub record_all : List Entry → ConsumerTracker → ConsumerTracker
record_all [] ct = ct
record_all (e ∷ es) ct = record_all es (record_usage e.now e.consumer e.prompt e.completion ct)

-- The sum of a quantity over the entries of one consumer.
unfoldable pub sum_of : (Entry → ℕ) → Text → List Entry → ℕ
sum_of f name [] = 0
sum_of f name (e ∷ es) =
    let rest = sum_of f name es in if same e.consumer name then f e + rest else rest

abbrev pub stats_of : Text → ConsumerTracker → ConsumerStats
stats_of name ct = stats_or_fresh (lookup name ct.stats)

-- The counters agree with these totals, up to the wrap-around of 64 bits.
abbrev pub Counts : ConsumerStats → ℕ → ℕ → ℕ → Type 0
Counts s n p c =
    (s.request_count ≡ n % 2 ^ 64)
    × (s.prompt_tokens ≡ p % 2 ^ 64)
    × (s.completion_tokens ≡ c % 2 ^ 64)

stats_of-record_usage :
    (name : Text) (e : Entry) (ct : ConsumerTracker)
    → stats_of name (record_usage e.now e.consumer e.prompt e.completion ct) ≡ (
        if same e.consumer name
        then add_usage e.now e.prompt e.completion (stats_of name ct)
        else stats_of name ct)
unfolding record_usage
stats_of-record_usage name e ct =
    let s = add_usage e.now e.prompt e.completion (stats_of e.consumer ct) in
    ground (arith, lookup-insert e.consumer name s ct.stats, same_iff e.consumer name)

add_usage-Counts :
    (now prompt completion n p c : ℕ) (s : ConsumerStats)
    → Counts s n p c
    → Counts (add_usage now prompt completion s) (n + 1) (p + prompt) (c + completion)
unfolding add_usage
add_usage-Counts now prompt completion n p c s h = (omega arith, omega arith, omega arith)

module _ (name : Text) where
  abbrev of : (Entry → ℕ) → List Entry → ℕ
  of f es = sum_of f name es

  record_all-Counts :
      (es : List Entry) (n p c : ℕ) (ct : ConsumerTracker)
      → Counts (stats_of name ct) n p c
      → Counts
          (stats_of name (record_all es ct))
          (n + of (λ e. 1) es)
          (p + of (λ (e : Entry). e.prompt) es)
          (c + of (λ (e : Entry). e.completion) es)
  unfolding record_all sum_of
  record_all-Counts [] n p c ct h = omega (arith, h)
  record_all-Counts (e ∷ es) n p c ct h =
      let ct' = record_usage e.now e.consumer e.prompt e.completion ct in
      let one = stats_of-record_usage name e ct in
      elim (Bool-cases (same e.consumer name)) [
        | inl mine ↦
            let stepped = rw mine at one in
            let ih = record_all-Counts es (n + 1) (p + e.prompt) (c + e.completion) ct' (
              rw stepped
                (add_usage-Counts e.now e.prompt e.completion n p c (stats_of name ct) h)) in
            rw mine (omega (arith, ih))
        | inr other ↦
            let stepped = rw other at one in
            rw other (record_all-Counts es n p c ct' (rw stepped h))
      ]

-- After any sequence of recorded requests the counters of a consumer are the number of its requests
-- and the sums of their prompt and completion tokens, modulo 2^64, whatever other consumers do.
pub record_all_lem :
    (name : Text) (es : List Entry) (keys : Map Text)
    → Counts
        (stats_of name (record_all es (record { stats = []; api_keys = keys })))
        (sum_of (λ e. 1) name es)
        (sum_of (λ (e : Entry). e.prompt) name es)
        (sum_of (λ (e : Entry). e.completion) name es)
unfolding lookup
record_all_lem name es keys =
    let h =
      record_all-Counts name es 0 0 0 (record { stats = []; api_keys = keys }) (refl, refl, refl) in
    omega (arith, h)
