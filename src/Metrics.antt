-- ===== src/Metrics.antt =====
-- The instruments of internal/gateway/metrics.go. The Prometheus library is a record of operations on vectors of
-- unknown state, with what the gateway relies on as a second record. Durations are nanoseconds, and a gauge of
-- VRAM is in bytes.
pub mod Memory
pub mod Counting
mod Tests
use hive_mind_fusion.Prelude.{
  ℕ, ◌+◌, Text, text, same, decimal, Bool, true, false, ◌&&◌, List, [], ◌∷◌, Option, none, some,
  if◌then◌else◌, ◌≡◌,
}
use hive_mind_fusion.Proxy.Chains.{Observation}
use hive_mind_fusion.Proxy.Routing.{Routed, walked}

-- The values of the labels, in the order in which a vector names them.
abbrev pub Labels : Type 0
Labels = List Text

unfoldable pub same_labels : Labels → Labels → Bool
same_labels [] [] = true
same_labels (a ∷ s) (b ∷ t) = same a b && same_labels s t
same_labels _ _ = false

-- `CounterVec`, `HistogramVec` and `GaugeVec` of client_golang: `With(labels)` and the method called on it.
pub record Prometheus : Type 1 where
  pub Counters : Type 0
  pub no_counters : Counters
  pub inc : Labels → Counters → Counters
  pub count : Counters → Labels → ℕ
  pub Histograms : Type 0
  pub no_histograms : Histograms
  pub observe : Labels → ℕ → Histograms → Histograms
  pub samples : Histograms → Labels → List ℕ
  pub Gauges : Type 0
  pub no_gauges : Gauges
  pub set : Labels → ℕ → Gauges → Gauges
  pub value : Gauges → Labels → Option ℕ

-- A new vector is empty, and a call changes the instrument of its own labels. The samples of a histogram are
-- those observed, the last one first.
pub record IsLawful (P : Prometheus) : Type 0 where
  pub count-no_counters : (k : Labels) → P.count P.no_counters k ≡ 0
  pub count-inc :
      (l k : Labels) (v : P.Counters)
      → P.count (P.inc l v) k ≡ (if same_labels l k then P.count v k + 1 else P.count v k)
  pub samples-no_histograms : (k : Labels) → P.samples P.no_histograms k ≡ []
  pub samples-observe :
      (l k : Labels) (x : ℕ) (v : P.Histograms)
      → P.samples (P.observe l x v) k
        ≡ (if same_labels l k then x ∷ P.samples v k else P.samples v k)
  pub value-no_gauges : (k : Labels) → P.value P.no_gauges k ≡ none
  pub value-set :
      (l k : Labels) (x : ℕ) (v : P.Gauges)
      → P.value (P.set l x v) k ≡ (if same_labels l k then some x else P.value v k)

module _ (P : Prometheus) where
  pub record Metrics : Type 0 where
    pub requests_total : P.Counters
    pub request_duration : P.Histograms
    pub tokens_total : P.Counters
    pub vram_usage_bytes : P.Gauges
    pub backend_health : P.Gauges

  unfoldable pub new_metrics : Metrics
  new_metrics = record {
    requests_total = P.no_counters;
    request_duration = P.no_histograms;
    tokens_total = P.no_counters;
    vram_usage_bytes = P.no_gauges;
    backend_health = P.no_gauges;
  }

  -- `ObserveRequest`.
  unfoldable pub observe_request : Observation → ℕ → Metrics → Metrics
  observe_request o duration m = record m {
    requests_total =
        P.inc (o.consumer ∷ o.model ∷ o.backend ∷ decimal o.status ∷ []) m.requests_total;
    request_duration =
        P.observe (o.consumer ∷ o.model ∷ o.backend ∷ []) duration m.request_duration;
  }

  unfoldable pub set_vram_usage : Text → ℕ → Metrics → Metrics
  set_vram_usage backend bytes m = record m {
    vram_usage_bytes = P.set (backend ∷ []) bytes m.vram_usage_bytes;
  }

  unfoldable pub set_backend_health : Text → Bool → Metrics → Metrics
  set_backend_health backend healthy m = record m {
    backend_health = P.set (backend ∷ []) (if healthy then 1 else 0) m.backend_health;
  }

  -- What a routed request tells the metrics: a walk of a chain is observed once, the rest not at all.
  abbrev pub observe_routed : Routed → ℕ → Metrics → Metrics
  observe_routed (walked (reply, o)) duration m = observe_request o duration m
  observe_routed _ duration m = m

  -- The metrics after these requests, the first one first, each with its duration.
  unfoldable pub observe_all : List (Routed × ℕ) → Metrics → Metrics
  unfolding observe_request
  observe_all [] m = m
  observe_all ((r, duration) ∷ rs) m = observe_all rs (observe_routed r duration m)
