-- ===== src/Metrics/Tests.antt =====
-- The metrics of two requests that were walked and one that was not (internal/gateway/metrics.go).
use hive_mind_fusion.Prelude.{ℕ, text, same, decimal, List, [], ◌∷◌, reverse, ◌≡◌, refl}
use hive_mind_fusion.Proxy.Chains.{unavailable, observe}
use hive_mind_fusion.Proxy.Routing.{Routed, model_required, walked}
use hive_mind_fusion.Metrics.{new_metrics, observe_all}
use hive_mind_fusion.Metrics.Memory.{memory, memory-IsLawful}
use hive_mind_fusion.Metrics.Counting.{counted, timed, observe_all-new_metrics}

abbrev refused : ℕ → Routed × ℕ
refused duration =
    (walked (unavailable (text "m") [], observe (text "c") (text "m") (text "none") 503), duration)

abbrev requests : List (Routed × ℕ)
requests = refused 5 ∷ (model_required, 1) ∷ refused 7 ∷ []

observe_all-new_metrics_example :
    (memory.count
        (observe_all memory requests (new_metrics memory)).requests_total
        (text "c" ∷ text "m" ∷ text "none" ∷ decimal 503 ∷ [])
      ≡ counted (text "c") (text "m") (text "none") 503 requests)
    × (memory.samples
          (observe_all memory requests (new_metrics memory)).request_duration
          (text "c" ∷ text "m" ∷ text "none" ∷ [])
        ≡ reverse (timed (text "c") (text "m") (text "none") requests))
observe_all-new_metrics_example =
    observe_all-new_metrics memory memory-IsLawful (text "c") (text "m") (text "none") 503 requests

counted-requests : counted (text "c") (text "m") (text "none") 503 requests ≡ 2
unfolding counted text same
counted-requests = refl
