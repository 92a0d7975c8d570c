-- ===== src/Health/Runs.antt =====
-- Every schedule of probes and reloads of the health checker (internal/gateway/health.go).
use hive_mind_fusion.Prelude.{
  ℕ, Text, lookup, List, [], ◌∷◌, some, same_iff, ◌≡◌, arith, pos, ◌≤ℤ◌, Option-cases, inl, inr,
}
use hive_mind_fusion.Config.{Config}
use hive_mind_fusion.Health.{BackendHealth, HealthChecker, Probe, new_health_checker, check_one}
use hive_mind_fusion.Health.Checks.{lookup-initial_states}
use hive_mind_fusion.Health.Invariant.{
  Event, probed, reloaded, step, run, IsSound, update_config-IsSound, lookup-check_one,
  gauge-check_one, check_one_missing, check_one_fixed, probe-Agrees,
}

present-IsSound :
    (now : ℕ) (name : Text) (probe : Probe) (hc : HealthChecker) (s : BackendHealth)
    → lookup name hc.states ≡ some s
    → IsSound hc
    → IsSound (check_one now name probe hc)
present-IsSound now name probe hc s e h = record {
  positive = rw ((check_one_fixed now name probe hc).0) h.positive;
  covered = λ k. ground (
    arith,
    check_one_fixed now name probe hc,
    lookup-check_one now name probe hc s k e,
    h.covered k,
    same_iff name k,
  );
  agrees = λ k. ground (
    arith,
    check_one_fixed now name probe hc,
    lookup-check_one now name probe hc s k e,
    gauge-check_one now name probe hc s k e,
    h.agrees k,
    h.agrees name,
    same_iff name k,
    probe-Agrees hc.threshold (lookup name hc.gauge) now probe s h.positive,
  );
}

check_one-IsSound :
    (now : ℕ) (name : Text) (probe : Probe) (hc : HealthChecker)
    → IsSound hc
    → IsSound (check_one now name probe hc)
check_one-IsSound now name probe hc h = elim (Option-cases (lookup name hc.states)) [
  | inl gone ↦ rw (check_one_missing now name probe hc gone) h
  | inr (s, e) ↦ present-IsSound now name probe hc s e h
]

step-IsSound : (hc : HealthChecker) (e : Event) → IsSound hc → IsSound (step hc e)
unfolding step
step-IsSound hc (probed now name probe) h = check_one-IsSound now name probe hc h
step-IsSound hc (reloaded cfg) h = update_config-IsSound cfg hc h

run-IsSound : (hc : HealthChecker) (es : List Event) → IsSound hc → IsSound (run hc es)
unfolding run
run-IsSound hc [] h = h
run-IsSound hc (e ∷ es) h = run-IsSound (step hc e) es (step-IsSound hc e h)

new_health_checker-IsSound :
    (cfg : Config)
    → pos 0 ≤ℤ cfg.gateway.health_failure_threshold
    → IsSound (new_health_checker cfg)
unfolding new_health_checker lookup
new_health_checker-IsSound cfg h = record {
  positive = ground arith;
  covered = λ name. ground (arith, lookup-initial_states [] cfg.backends name);
  agrees = λ name. ground (arith, lookup-initial_states [] cfg.backends name);
}

-- However probes and reloads interleave after a start with a threshold that is not negative: exactly
-- the backends of the current configuration have an entry; an entry whose failures reach the
-- threshold is unhealthy; and the health gauge of a backend is 0 while its state is unhealthy and 1
-- while it is healthy.
pub run-new_health_checker-IsSound :
    (cfg : Config) (es : List Event)
    → pos 0 ≤ℤ cfg.gateway.health_failure_threshold
    → IsSound (run (new_health_checker cfg) es)
run-new_health_checker-IsSound cfg es h =
    run-IsSound (new_health_checker cfg) es (new_health_checker-IsSound cfg h)
