-- ===== src/Metrics/Memory.antt =====
-- A Prometheus library in memory: each vector is a function of its labels.
use hive_mind_fusion.Prelude.{ℕ, ◌+◌, List, [], ◌∷◌, Option, none, some, if◌then◌else◌, refl}
use hive_mind_fusion.Metrics.{Prometheus, IsLawful, Labels, same_labels}

abbrev pub memory : Prometheus
memory = record {
  Counters = Labels → ℕ;
  no_counters = λ k. 0;
  inc = λ l v k. if same_labels l k then v k + 1 else v k;
  count = λ v k. v k;
  Histograms = Labels → List ℕ;
  no_histograms = λ k. [];
  observe = λ l x v k. if same_labels l k then x ∷ v k else v k;
  samples = λ v k. v k;
  Gauges = Labels → Option ℕ;
  no_gauges = λ k. none;
  set = λ l x v k. if same_labels l k then some x else v k;
  value = λ v k. v k;
}

pub memory-IsLawful : IsLawful memory
memory-IsLawful = record {
  count-no_counters = λ k. refl;
  count-inc = λ l k v. refl;
  samples-no_histograms = λ k. refl;
  samples-observe = λ l k x v. refl;
  value-no_gauges = λ k. refl;
  value-set = λ l k x v. refl;
}
