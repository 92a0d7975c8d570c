-- ===== src/Gateway/Backends.antt =====
-- The health checker as the proxy asks it (internal/gateway/proxy.go, `forwardChain`; internal/gateway/health.go).
use mathlib.Core.Path.{subst}
use hive_mind_fusion.Prelude.{
  ℕ, ◌≤◌, Text, text, Bool, true, false, not, lookup, List, some, ◌≡◌, ◌≢◌, sym, ap, ◌∙◌, inl, inr,
  pos, leb_ℤ, ◌≤ℤ◌, length, ◌+◌, max_int, arith,
}
use hive_mind_fusion.Health.{unhealthy, BackendHealth, HealthChecker, is_healthy}
use hive_mind_fusion.Health.Invariant.{Event, run}
use hive_mind_fusion.Health.Counting.{FailsFor, failures_of, is_healthy-run}
use hive_mind_fusion.Fallback.{Chain}
use hive_mind_fusion.Proxy.{Request, World}
use hive_mind_fusion.Proxy.Chains.{Observation, forward_chain, forward_chain-Walked}

-- The checker at each position of the walk: probes go on while a request is walked.
unfoldable pub with_health : (ℕ → HealthChecker) → World → World
with_health at w = record w { healthy = λ i name. is_healthy name (at i) }

unserved-Walked :
    (w : World) (validation : Bool) (consumer model name : Text) (r : Request) (chain : Chain)
    (at : ℕ → HealthChecker)
    → name ≢ text "none"
    → ((i : ℕ) → is_healthy name (at i) ≡ false)
    → (forward_chain (with_health at w) validation consumer model r chain).1.backend ≢ name
unfolding with_health
unserved-Walked w validation consumer model name r chain at named down same_name =
    elim (forward_chain-Walked (with_health at w) validation consumer model r chain) [
      | inl (resp, o, s, e) ↦
          let its : s.backend.name ≡ name =
            sym (ap (λ (x : Observation). x.backend) s.observed)
            ∙ (sym (ap (λ x. x.1.backend) e) ∙ same_name) in
          let up = subst (λ x. is_healthy x (at (0 + length s.before)) ≡ true) its s.healthy in
          let clash = sym up ∙ down (0 + length s.before) in cc
      | inr (all, e) ↦ named (sym same_name ∙ ap (λ x. x.1.backend) e)
    ]

-- For a backend whose entry begins with no failures and is not unhealthy, with a threshold of at least 1: while, at each
-- position of the walk of a chain, its probes since then all failed and were at least as many as the threshold, no more
-- than an `int` counts, and no reload came in between, the walk is not served by a backend of its name.
pub forward_chain-unhealthy :
    (w : World) (validation : Bool) (consumer model name : Text) (r : Request) (chain : Chain)
    (hc : HealthChecker) (s : BackendHealth) (es : ℕ → List Event)
    → name ≢ text "none"
    → lookup name hc.states ≡ some s
    → s.failures ≡ pos 0
    → s.state ≢ unhealthy
    → pos 1 ≤ℤ hc.threshold
    → ((i : ℕ) → FailsFor name (es i))
    → ((i : ℕ) → failures_of name (es i) ≤ max_int)
    → ((i : ℕ) → hc.threshold ≤ℤ pos (failures_of name (es i)))
    → (forward_chain
        (with_health (λ i. run hc (es i)) w)
        validation
        consumer
        model
        r
        chain).1.backend
      ≢ name
forward_chain-unhealthy w validation consumer model name r chain hc s es named e zeroed ready
      positive bad few enough =
    let reached : (i : ℕ) → leb_ℤ hc.threshold (pos (failures_of name (es i))) ≡ true =
      λ i. let enough_i = enough i in ground arith in
    unserved-Walked w validation consumer model name r chain (λ i. run hc (es i)) named
      (λ i.
        is_healthy-run name (es i) hc s e zeroed ready positive (bad i) (few i)
        ∙ ap not (reached i))
