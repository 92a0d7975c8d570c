-- ===== src/Metrics/Counting.antt =====
-- What the request metrics hold after any sequence of routed requests (internal/gateway/metrics.go,
-- `ObserveRequest`, as internal/gateway/proxy.go calls it).
use mathlib.Core.List.{reverse-cons}
use hive_mind_fusion.Prelude.{
  ℕ, ◌+◌, ◌==◌, Text, same, same_iff, decimal, Bool, ◌&&◌, List, [], ◌∷◌, ◌++◌, append_assoc,
  append-nil, reverse, if◌then◌else◌, ◌≡◌, refl, sym, ap, ◌∙◌, arith, Bool-cases, inl, inr,
}
use hive_mind_fusion.Numerals.{decimal-injective}
use hive_mind_fusion.Proxy.Chains.{Observation}
use hive_mind_fusion.Proxy.Routing.{
  Routed, unreadable_body, model_required, no_such_tier, fused, unknown_model, walked,
}
use hive_mind_fusion.Metrics.{
  Prometheus, IsLawful, same_labels, Metrics, new_metrics, observe_request, observe_all,
}

-- An observation of this consumer, model and backend.
abbrev pub is_of : Text → Text → Text → Observation → Bool
is_of consumer model backend o =
    same o.consumer consumer && (same o.model model && same o.backend backend)

-- How many of the requests were walked with this observation.
unfoldable pub counted : Text → Text → Text → ℕ → List (Routed × ℕ) → ℕ
counted consumer model backend status [] = 0
counted consumer model backend status ((walked (reply, o), duration) ∷ rs) =
    let rest = counted consumer model backend status rs in
    if is_of consumer model backend o && o.status == status then rest + 1 else rest
counted consumer model backend status (r ∷ rs) = counted consumer model backend status rs

-- The durations of those walked for this consumer and model to this backend, in order.
unfoldable pub timed : Text → Text → Text → List (Routed × ℕ) → List ℕ
timed consumer model backend [] = []
timed consumer model backend ((walked (reply, o), duration) ∷ rs) =
    let rest = timed consumer model backend rs in
    if is_of consumer model backend o then duration ∷ rest else rest
timed consumer model backend (r ∷ rs) = timed consumer model backend rs

same-decimal : (m n : ℕ) → same (decimal m) (decimal n) ≡ (m == n)
same-decimal m n = ground (arith, same_iff (decimal m) (decimal n), decimal-injective m n)

-- The two vectors look at the labels of an observation as the tests above do.
same_labels-request :
    (consumer model backend : Text) (status : ℕ) (o : Observation)
    → same_labels
        (o.consumer ∷ o.model ∷ o.backend ∷ decimal o.status ∷ [])
        (consumer ∷ model ∷ backend ∷ decimal status ∷ [])
      ≡ (is_of consumer model backend o && o.status == status)
unfolding same_labels
same_labels-request consumer model backend status o =
    rw (same-decimal o.status status) (ground arith)

same_labels-backend :
    (consumer model backend : Text) (o : Observation)
    → same_labels (o.consumer ∷ o.model ∷ o.backend ∷ []) (consumer ∷ model ∷ backend ∷ [])
      ≡ is_of consumer model backend o
unfolding same_labels
same_labels-backend consumer model backend o = ground arith

module _ (P : Prometheus) (L : IsLawful P) (consumer model backend : Text) where
  count-observe_all :
      (status : ℕ) (rs : List (Routed × ℕ)) (m : Metrics P)
      → P.count
          (observe_all P rs m).requests_total
          (consumer ∷ model ∷ backend ∷ decimal status ∷ [])
        ≡ P.count m.requests_total (consumer ∷ model ∷ backend ∷ decimal status ∷ [])
          + counted consumer model backend status rs
  unfolding observe_all counted
  count-observe_all status [] m = omega arith
  count-observe_all status ((walked (reply, o), d) ∷ rs) m =
      let rest = count-observe_all status rs (observe_request P o d m) in
      let inc =
        L.count-inc (o.consumer ∷ o.model ∷ o.backend ∷ decimal o.status ∷ [])
          (consumer ∷ model ∷ backend ∷ decimal status ∷ []) m.requests_total in
      ground (arith, rest, inc, same_labels-request consumer model backend status o)
  count-observe_all status ((unreadable_body, d) ∷ rs) m = count-observe_all status rs m
  count-observe_all status ((model_required, d) ∷ rs) m = count-observe_all status rs m
  count-observe_all status ((no_such_tier t ts, d) ∷ rs) m = count-observe_all status rs m
  count-observe_all status ((fused t b, d) ∷ rs) m = count-observe_all status rs m
  count-observe_all status ((unknown_model t, d) ∷ rs) m = count-observe_all status rs m

  samples-observe_all :
      (rs : List (Routed × ℕ)) (m : Metrics P)
      → P.samples (observe_all P rs m).request_duration (consumer ∷ model ∷ backend ∷ [])
        ≡ reverse (timed consumer model backend rs)
          ++ P.samples m.request_duration (consumer ∷ model ∷ backend ∷ [])
  unfolding observe_all timed observe_request
  samples-observe_all [] m = refl
  samples-observe_all ((walked (reply, o), d) ∷ rs) m =
      let k = consumer ∷ model ∷ backend ∷ [] in
      let rest = samples-observe_all rs (observe_request P o d m) in
      let now = L.samples-observe (o.consumer ∷ o.model ∷ o.backend ∷ []) k d m.request_duration in
      let later = timed consumer model backend rs in
      let old = P.samples m.request_duration k in
      elim (Bool-cases (is_of consumer model backend o)) [
        | inl y ↦
            let here : P.samples (observe_request P o d m).request_duration k ≡ d ∷ old =
              now ∙ rw (same_labels-backend consumer model backend o, y) refl in
            rw y (
              rest
              ∙ (ap (λ t. reverse later ++ t) here
                  ∙ (sym (append_assoc (reverse later) (d ∷ []) old)
                      ∙ ap (λ t. t ++ old) (sym (reverse-cons d later)))))
        | inr n ↦
            let here : P.samples (observe_request P o d m).request_duration k ≡ old =
              now ∙ rw (same_labels-backend consumer model backend o, n) refl in
            rw n (rest ∙ ap (λ t. reverse later ++ t) here)
      ]
  samples-observe_all ((unreadable_body, d) ∷ rs) m = samples-observe_all rs m
  samples-observe_all ((model_required, d) ∷ rs) m = samples-observe_all rs m
  samples-observe_all ((no_such_tier t ts, d) ∷ rs) m = samples-observe_all rs m
  samples-observe_all ((fused t b, d) ∷ rs) m = samples-observe_all rs m
  samples-observe_all ((unknown_model t, d) ∷ rs) m = samples-observe_all rs m

  -- For a lawful Prometheus library, and after any sequence of routed requests against new metrics: the counter of a
  -- consumer, a model, a backend and a status is the number of requests that were walked with that observation, and the
  -- samples of the histogram are the durations of those for the consumer, the model and the backend, the last one first.
  pub observe_all-new_metrics :
      (status : ℕ) (rs : List (Routed × ℕ))
      → (P.count
            (observe_all P rs (new_metrics P)).requests_total
            (consumer ∷ model ∷ backend ∷ decimal status ∷ [])
          ≡ counted consumer model backend status rs)
        × (P.samples
              (observe_all P rs (new_metrics P)).request_duration
              (consumer ∷ model ∷ backend ∷ [])
            ≡ reverse (timed consumer model backend rs))
  unfolding new_metrics
  observe_all-new_metrics status rs =
      let k = consumer ∷ model ∷ backend ∷ [] in
      let counts = count-observe_all status rs (new_metrics P) in
      let times = samples-observe_all rs (new_metrics P) in
      (
        omega
            (arith, counts, L.count-no_counters (consumer ∷ model ∷ backend ∷ decimal status ∷ [])),
        times
            ∙ (ap (λ t. reverse (timed consumer model backend rs) ++ t) (L.samples-no_histograms k)
                ∙ append-nil (reverse (timed consumer model backend rs))),
      )
