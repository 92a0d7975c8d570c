-- ===== src/Health/Streaks.antt =====
-- When a backend is taken out and comes back (internal/gateway/health.go: `NewHealthChecker`, `checkOne`,
-- `UpdateConfig` and `IsHealthy`).
use hive_mind_fusion.Prelude.{
  ℕ, ◌+◌, ◌≤◌, ◌<◌, ◌==◌, ltb, Bool, true, false, not, Text, lookup, List, [], ◌∷◌, Option, none,
  some, if◌then◌else◌, same, same_iff, length, ◌≡◌, refl, arith, sym, ◌∙◌, ℤ, pos, negsuc, leb_ℤ,
  ◌≤ℤ◌, max_int, Option-cases, inl, inr, is_zero,
}
use mathlib.Core.Path.{subst}
use hive_mind_fusion.Config.{Config}
use hive_mind_fusion.Health.{
  BackendHealth, HealthChecker, Probe, failed, status, new_health_checker, check_one, is_ok, fail,
  succeed, is_healthy, is_unhealthy, seen, update_config,
}
use hive_mind_fusion.Health.Checks.{entry_after, lookup-update_config, lookup-initial_states}
use hive_mind_fusion.Health.Invariant.{
  Event, probed, reloaded, step, run, lookup-check_one, check_one_missing, check_one_fixed,
  probe_entry,
}

-- The failed probes in a row of a backend that is configured, after one more: no response or a status from
-- 500 on makes one more, any other status ends the row.
abbrev pub after_probe : Probe → Option ℕ → Option ℕ
after_probe p none = none
after_probe failed (some n) = some (n + 1)
after_probe (status code) (some n) = if ltb code 500 then some 0 else some (n + 1)

-- A reload forgets what it does not list and starts anew what it adds.
abbrev pub after_reload : Bool → Option ℕ → Option ℕ
after_reload false o = none
after_reload true none = some 0
after_reload true (some n) = some n

-- The failed probes in a row of the backend of this name, `none` while it is not configured.
unfoldable pub streak : Text → Option ℕ → List Event → Option ℕ
streak name o [] = o
streak name o (probed now k probe ∷ es) =
    streak name (if same k name then after_probe probe o else o) es
streak name o (reloaded cfg ∷ es) = streak name (after_reload (seen cfg.backends name) o) es

abbrev pub below : ℤ → Option ℕ → Bool
below t none = false
below t (some n) = not (leb_ℤ t (pos n))

-- The failures that take a backend out: a configured 0 means 3.
abbrev pub failures_allowed : ℤ → ℤ
failures_allowed (pos n) = if n == 0 then pos 3 else pos n
failures_allowed (negsuc n) = negsuc n

abbrev Tracks : ℤ → Option ℕ → Option BackendHealth → Type 0
Tracks t none none = Unit
Tracks t none (some s) = ⊥
Tracks t (some n) none = ⊥
Tracks t (some n) (some s) = (s.failures ≡ pos n) × (is_unhealthy s.state ≡ leb_ℤ t (pos n))

abbrev within : Option ℕ → ℕ
within none = 0
within (some n) = n

abbrev entry_probed : ℕ → ℤ → Probe → Option BackendHealth → Option BackendHealth
entry_probed now t p none = none
entry_probed now t p (some s) = some (probe_entry now t p s)

lookup-probed :
    (now : ℕ) (k name : Text) (probe : Probe) (hc : HealthChecker)
    → lookup name (check_one now k probe hc).states ≡ (
        if same k name
        then entry_probed now hc.threshold probe (lookup name hc.states)
        else lookup name hc.states)
lookup-probed now k name probe hc = elim (Option-cases (lookup k hc.states)) [
  | inl gone ↦ rw (check_one_missing now k probe hc gone) (ground (arith, same_iff k name))
  | inr (s, e) ↦ ground (arith, lookup-check_one now k probe hc s name e, same_iff k name)
]

probe-Tracks :
    (t : ℤ) (now : ℕ) (p : Probe) (o : Option ℕ) (e : Option BackendHealth)
    → pos 1 ≤ℤ t
    → within o < max_int
    → Tracks t o e
    → Tracks t (after_probe p o) (entry_probed now t p e)
unfolding is_ok succeed fail
probe-Tracks t now p none none positive few h = tt
probe-Tracks t now p none (some s) positive few h = absurd h
probe-Tracks t now p (some n) none positive few h = absurd h
probe-Tracks t now failed (some n) (some s) positive few h = ground arith
probe-Tracks t now (status code) (some n) (some s) positive few h = ground arith

reload-Tracks :
    (t : ℤ) (listed : Bool) (o : Option ℕ) (e : Option BackendHealth)
    → pos 1 ≤ℤ t
    → Tracks t o e
    → Tracks t (after_reload listed o) (if listed then entry_after e true else none)
reload-Tracks t false o e positive h = tt
reload-Tracks t true none none positive h = ground arith
reload-Tracks t true none (some s) positive h = absurd h
reload-Tracks t true (some n) none positive h = absurd h
reload-Tracks t true (some n) (some s) positive h = h

within-after_probe : (p : Probe) (o : Option ℕ) → within (after_probe p o) ≤ within o + 1
within-after_probe p none = omega arith
within-after_probe failed (some n) = omega arith
within-after_probe (status code) (some n) = ground arith

within-after_reload : (listed : Bool) (o : Option ℕ) → within (after_reload listed o) ≤ within o
within-after_reload listed o = ground arith

step-Tracks :
    (name : Text) (t : ℤ) (e : Event) (es : List Event) (o : Option ℕ) (hc : HealthChecker)
    → hc.threshold ≡ t
    → pos 1 ≤ℤ t
    → within o + length (e ∷ es) ≤ max_int
    → Tracks t o (lookup name hc.states)
    → (o' : Option ℕ) × (streak name o (e ∷ es) ≡ streak name o' es)
      × ((step hc e).threshold ≡ t)
      × (within o' + length es ≤ max_int)
      × Tracks t o' (lookup name (step hc e).states)
unfolding streak step update_config
step-Tracks name t (probed now k probe) es o hc fixed positive few h =
    let entry = lookup-probed now k name probe hc in
    let here = probe-Tracks t now probe o (lookup name hc.states) positive (omega (arith, few)) h in
    (
      if same k name then after_probe probe o else o,
      refl,
      (check_one_fixed now k probe hc).0 ∙ fixed,
      ground (arith, within-after_probe probe o),
      rw entry (ground (arith, here)),
    )
step-Tracks name t (reloaded cfg) es o hc fixed positive few h = (
  after_reload (seen cfg.backends name) o,
  refl,
  fixed,
  omega (arith, within-after_reload (seen cfg.backends name) o, few),
  subst (λ x. Tracks t (after_reload (seen cfg.backends name) o) x)
      (sym (lookup-update_config cfg hc name))
      (reload-Tracks t (seen cfg.backends name) o (lookup name hc.states) positive h),
)

run-Tracks :
    (name : Text) (t : ℤ) (es : List Event) (o : Option ℕ) (hc : HealthChecker)
    → hc.threshold ≡ t
    → pos 1 ≤ℤ t
    → within o + length es ≤ max_int
    → Tracks t o (lookup name hc.states)
    → Tracks t (streak name o es) (lookup name (run hc es).states)
unfolding run streak
run-Tracks name t [] o hc fixed positive few h = h
run-Tracks name t (e ∷ es) o hc fixed positive few h =
    let (o', next, fixed', few', h') = step-Tracks name t e es o hc fixed positive few h in
    subst (λ x. Tracks t x (lookup name (run (step hc e) es).states)) (sym next)
      (run-Tracks name t es o' (step hc e) fixed' positive few' h')

available-Tracks :
    (name : Text) (t : ℤ) (o : Option ℕ) (hc : HealthChecker)
    → Tracks t o (lookup name hc.states)
    → is_healthy name hc ≡ below t o
unfolding is_healthy
available-Tracks name t none hc h = ground arith
available-Tracks name t (some n) hc h = ground arith

allowed : (p : ℤ) → (if is_zero p then pos 3 else p) ≡ failures_allowed p
allowed (pos n) = ground arith
allowed (negsuc n) = refl

allowed-positive : (p : ℤ) → pos 0 ≤ℤ p → pos 1 ≤ℤ failures_allowed p
allowed-positive (pos n) h = ground arith
allowed-positive (negsuc n) h = ground arith

start-Tracks :
    (cfg : Config) (name : Text)
    → pos 1 ≤ℤ failures_allowed cfg.gateway.health_failure_threshold
    → Tracks
        (failures_allowed cfg.gateway.health_failure_threshold)
        (after_reload (seen cfg.backends name) none)
        (lookup name (new_health_checker cfg).states)
unfolding new_health_checker lookup
start-Tracks cfg name positive = rw (lookup-initial_states [] cfg.backends name) (
    reload-Tracks (failures_allowed cfg.gateway.health_failure_threshold) (seen cfg.backends name)
      none none positive tt)

threshold_lem :
    (cfg : Config)
    → (new_health_checker cfg).threshold ≡ failures_allowed cfg.gateway.health_failure_threshold
unfolding new_health_checker
threshold_lem cfg = allowed cfg.gateway.health_failure_threshold

-- For each configuration with a failure threshold that is not negative, and each sequence of probes and
-- reloads of any backends with no more events than an `int` counts, from the start of the checker: a
-- backend is available exactly if it is configured and the probes of it that failed since its last
-- success (or since it was configured, if that is later) are fewer than the threshold of the first
-- configuration, where 0 counts as 3.
pub is_healthy-streak :
    (cfg : Config) (name : Text) (es : List Event)
    → pos 0 ≤ℤ cfg.gateway.health_failure_threshold
    → length es ≤ max_int
    → is_healthy name (run (new_health_checker cfg) es)
      ≡ below
          (failures_allowed cfg.gateway.health_failure_threshold)
          (streak name (after_reload (seen cfg.backends name) none) es)
is_healthy-streak cfg name es h few =
    let t = failures_allowed cfg.gateway.health_failure_threshold in
    let o = after_reload (seen cfg.backends name) none in
    let positive : pos 1 ≤ℤ t = allowed-positive cfg.gateway.health_failure_threshold h in
    let start = start-Tracks cfg name positive in
    available-Tracks name t (streak name o es) (run (new_health_checker cfg) es) (
      run-Tracks name t es o (new_health_checker cfg) (threshold_lem cfg) positive
        (ground (arith, few)) start)
