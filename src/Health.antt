-- ===== src/Health.antt =====
-- The health checker of internal/gateway/health.go. A map entry is held by value: every access to
-- it is under the checker's lock and goes through the map. Times are nanoseconds, 0 for the zero
-- `time.Time`. The log lines are left out.
pub mod Checks
pub mod Invariant
pub mod Runs
pub mod Counting
pub mod Streaks
pub mod Gpu
pub mod Report
mod Tests
use hive_mind_fusion.Prelude.{
  ℕ, ◌+◌, ◌*◌, Text, text, is_empty, Map, lookup, insert, keep_keys, has_key, Bool, true, false,
  List, [], ◌∷◌, ◌++◌, Option, none, some, ℤ, pos, leb_ℤ, inc_int, is_zero, ltb, if◌then◌else◌, map,
  same, any, has_prefix, trim_right, ◌==◌,
}
use hive_mind_fusion.Config.{Backend, Config}

pub data BackendState : Type 0 where
  unknown healthy unhealthy : BackendState

pub record BackendHealth : Type 0 where
  pub state : BackendState
  pub failures : ℤ
  pub last_check : ℕ

-- `interval` is in nanoseconds. `gauge` is the last value of each backend's health gauge, which
-- `SetBackendHealth` writes; the metrics are wired before the checks start.
pub record HealthChecker : Type 0 where
  pub backends : List Backend
  pub states : Map BackendHealth
  pub interval : ℤ
  pub threshold : ℤ
  pub gauge : Map Bool

abbrev pub fresh : BackendHealth
fresh = record { state = unknown; failures = pos 0; last_check = 0 }

-- `states[b.Name] = &backendHealth{state: StateUnknown}` for every backend.
unfoldable pub initial_states : Map BackendHealth → List Backend → Map BackendHealth
initial_states m [] = m
initial_states m (b ∷ bs) = initial_states (insert b.name fresh m) bs

-- The interval in seconds: a configured 0 means 30.
unfoldable pub new_health_checker : Config → HealthChecker
new_health_checker cfg = record {
  backends = cfg.backends;
  states = initial_states [] cfg.backends;
  interval =
      if is_zero cfg.gateway.health_interval_secs then pos 30 else cfg.gateway.health_interval_secs;
  threshold =
      if is_zero cfg.gateway.health_failure_threshold
      then pos 3
      else cfg.gateway.health_failure_threshold;
  gauge = [];
}

-- The first loop of `UpdateConfig`: entries for the backends that have none.
unfoldable pub add_missing : Map BackendHealth → List Backend → Map BackendHealth
add_missing m [] = m
add_missing m (b ∷ bs) = add_missing (if has_key b.name m then m else insert b.name fresh m) bs

-- `seen[name]`.
unfoldable pub seen : List Backend → Text → Bool
seen bs name = any (λ (b : Backend). same b.name name) bs

unfoldable pub update_config : Config → HealthChecker → HealthChecker
update_config cfg hc = record hc {
  backends = cfg.backends;
  states = keep_keys (seen cfg.backends) (add_missing hc.states cfg.backends);
}

-- What the HTTP client returns for a probe: an error, or a response with its status.
pub data Probe : Type 0 where
  failed : Probe
  status : ℕ → Probe

-- `err == nil && resp.StatusCode < 500`.
unfoldable pub is_ok : Probe → Bool
is_ok failed = false
is_ok (status code) = ltb code 500

-- The URL that `checkOne` asks for.
unfoldable pub probe_url : Backend → Text
probe_url b =
    let endpoint = if is_empty b.health_endpoint then text "/health" else b.health_endpoint in
    if has_prefix (text "http") endpoint then endpoint else trim_right (text "/") b.url ++ endpoint

-- `checkAll` starts a probe for each of these names and URLs.
unfoldable pub check_all : HealthChecker → List (Text × Text)
unfolding probe_url
check_all hc = map (λ (b : Backend). (b.name, probe_url b)) hc.backends

unfoldable pub succeed : ℕ → BackendHealth → BackendHealth
succeed now s = record s { state = healthy; failures = pos 0; last_check = now }

unfoldable pub fail : ℕ → ℤ → BackendHealth → BackendHealth
fail now threshold s =
    let t = record s { failures = inc_int s.failures; last_check = now } in
    if leb_ℤ threshold t.failures then record t { state = unhealthy } else t

-- The locked part of `checkOne` after a probe of the backend of this name.
unfoldable pub check_one : ℕ → Text → Probe → HealthChecker → HealthChecker
check_one now name probe hc = elim (lookup name hc.states) [
  | none ↦ hc
  | some s ↦
      if is_ok probe
      then record hc {
        states = insert name (succeed now s) hc.states;
        gauge = insert name true hc.gauge;
      }
      else record hc {
        states = insert name (fail now hc.threshold s) hc.states;
        gauge =
            if leb_ℤ hc.threshold (inc_int s.failures)
            then insert name false hc.gauge
            else hc.gauge;
      }
]

abbrev pub is_unhealthy : BackendState → Bool
is_unhealthy unhealthy = true
is_unhealthy _ = false

abbrev pub available : Option BackendHealth → Bool
available none = false
available (some s) = if is_unhealthy s.state then false else true

-- `IsHealthy`: a backend without an entry is not available, an unknown one is.
unfoldable pub is_healthy : Text → HealthChecker → Bool
is_healthy name hc = available (lookup name hc.states)
