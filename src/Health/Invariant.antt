-- ===== src/Health/Invariant.antt =====
-- What holds of the health checker between any two of its locked sections
-- (internal/gateway/health.go): the probes run in goroutines, and a schedule is the order in which
-- they and the reloads take the lock.
use hive_mind_fusion.Prelude.{
  ℕ, Text, lookup, has_key, lookup-insert, Bool, true, false, List, [], ◌∷◌, Option, none, some,
  if◌then◌else◌, same, same_iff, ◌≡◌, refl, arith, ℤ, pos, leb_ℤ, inc_int, ◌≤ℤ◌,
}
use hive_mind_fusion.Config.{Config}
use hive_mind_fusion.Health.{
  healthy, unhealthy, BackendHealth, HealthChecker, Probe, seen, update_config, check_one, is_ok,
  succeed, fail,
}
use hive_mind_fusion.Health.Checks.{entry_after, lookup-update_config}

pub data Event : Type 0 where
  probed : ℕ → Text → Probe → Event
  reloaded : Config → Event

unfoldable pub step : HealthChecker → Event → HealthChecker
step hc (probed now name probe) = check_one now name probe hc
step hc (reloaded cfg) = update_config cfg hc

unfoldable pub run : HealthChecker → List Event → HealthChecker
run hc [] = hc
run hc (e ∷ es) = run (step hc e) es

-- An entry agrees with the threshold and with the gauge of its backend.
abbrev pub Agrees : ℤ → Option Bool → BackendHealth → Type 0
Agrees threshold gauge s =
    (threshold ≤ℤ s.failures → s.state ≡ unhealthy)
    × (s.state ≡ unhealthy → gauge ≡ some false)
    × (s.state ≡ healthy → gauge ≡ some true)

abbrev pub AgreesIf : ℤ → Option Bool → Option BackendHealth → Type 0
AgreesIf threshold gauge none = Unit
AgreesIf threshold gauge (some s) = Agrees threshold gauge s

-- Exactly the configured backends have an entry, and each entry agrees with the threshold and the
-- gauge.
pub record IsSound (hc : HealthChecker) : Type 0 where
  pub positive : pos 1 ≤ℤ hc.threshold
  pub covered : (name : Text) → has_key name hc.states ≡ seen hc.backends name
  pub agrees : (name : Text) → AgreesIf hc.threshold (lookup name hc.gauge) (lookup name hc.states)

succeed-Agrees :
    (t : ℤ) (now : ℕ) (s : BackendHealth) → pos 1 ≤ℤ t → Agrees t (some true) (succeed now s)
unfolding succeed
succeed-Agrees t now s h = ground arith

fail-Agrees :
    (t : ℤ) (g : Option Bool) (now : ℕ) (s : BackendHealth)
    → Agrees t g s
    → Agrees t (if leb_ℤ t (inc_int s.failures) then some false else g) (fail now t s)
unfolding fail
fail-Agrees t g now s h = ground arith

update_entry-AgreesIf :
    (t : ℤ) (g : Option Bool) (o : Option BackendHealth) (new : Bool)
    → pos 1 ≤ℤ t
    → AgreesIf t g o
    → AgreesIf t g (if new then entry_after o true else none)
update_entry-AgreesIf t g none true h a = ground arith
update_entry-AgreesIf t g none false h a = tt
update_entry-AgreesIf t g (some s) true h a = a
update_entry-AgreesIf t g (some s) false h a = tt

update_config-covered :
    (cfg : Config) (hc : HealthChecker) (name : Text)
    → has_key name (update_config cfg hc).states ≡ seen cfg.backends name
update_config-covered cfg hc name = ground (arith, lookup-update_config cfg hc name)

threshold-update_config :
    (cfg : Config) (hc : HealthChecker) → (update_config cfg hc).threshold ≡ hc.threshold
unfolding update_config
threshold-update_config cfg hc = refl

gauge-update_config : (cfg : Config) (hc : HealthChecker) → (update_config cfg hc).gauge ≡ hc.gauge
unfolding update_config
gauge-update_config cfg hc = refl

backends-update_config :
    (cfg : Config) (hc : HealthChecker) → (update_config cfg hc).backends ≡ cfg.backends
unfolding update_config
backends-update_config cfg hc = refl

pub update_config-IsSound :
    (cfg : Config) (hc : HealthChecker) → IsSound hc → IsSound (update_config cfg hc)
update_config-IsSound cfg hc h = record {
  positive = rw (threshold-update_config cfg hc) h.positive;
  covered = λ name. rw (backends-update_config cfg hc) (update_config-covered cfg hc name);
  agrees = λ name.
      rw
        (
          threshold-update_config cfg hc,
          gauge-update_config cfg hc,
          lookup-update_config cfg hc name,
        )
        (update_entry-AgreesIf _ _ _ _ h.positive (h.agrees name));
}

-- What the locked part of a probe leaves of a backend's entry.
abbrev pub probe_entry : ℕ → ℤ → Probe → BackendHealth → BackendHealth
probe_entry now t probe s = if is_ok probe then succeed now s else fail now t s

abbrev pub probe_gauge : ℤ → Probe → BackendHealth → Option Bool → Option Bool
probe_gauge t probe s g =
    if is_ok probe then some true else if leb_ℤ t (inc_int s.failures) then some false else g

pub lookup-check_one :
    (now : ℕ) (name : Text) (probe : Probe) (hc : HealthChecker) (s : BackendHealth) (k : Text)
    → lookup name hc.states ≡ some s
    → lookup k (check_one now name probe hc).states
      ≡ (if same name k then some (probe_entry now hc.threshold probe s) else lookup k hc.states)
unfolding check_one
lookup-check_one now name probe hc s k h = ground (
  arith,
  lookup-insert name k (succeed now s) hc.states,
  lookup-insert name k (fail now hc.threshold s) hc.states,
)

pub gauge-check_one :
    (now : ℕ) (name : Text) (probe : Probe) (hc : HealthChecker) (s : BackendHealth) (k : Text)
    → lookup name hc.states ≡ some s
    → lookup k (check_one now name probe hc).gauge ≡ (
        if same name k
        then probe_gauge hc.threshold probe s (lookup name hc.gauge)
        else lookup k hc.gauge)
unfolding check_one
gauge-check_one now name probe hc s k h = ground (
  arith,
  lookup-insert name k true hc.gauge,
  lookup-insert name k false hc.gauge,
  same_iff name k,
)

pub check_one_missing :
    (now : ℕ) (name : Text) (probe : Probe) (hc : HealthChecker)
    → lookup name hc.states ≡ none
    → check_one now name probe hc ≡ hc
unfolding check_one
check_one_missing now name probe hc h = ground arith

pub check_one_fixed :
    (now : ℕ) (name : Text) (probe : Probe) (hc : HealthChecker)
    → ((check_one now name probe hc).threshold ≡ hc.threshold)
      × ((check_one now name probe hc).backends ≡ hc.backends)
unfolding check_one
check_one_fixed now name probe hc = ground arith

pub probe-Agrees :
    (t : ℤ) (g : Option Bool) (now : ℕ) (probe : Probe) (s : BackendHealth)
    → pos 1 ≤ℤ t
    → Agrees t g s
    → Agrees t (probe_gauge t probe s g) (probe_entry now t probe s)
probe-Agrees t g now probe s h a = ground (arith, succeed-Agrees t now s h, fail-Agrees t g now s a)
