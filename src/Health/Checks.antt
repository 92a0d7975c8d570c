-- ===== src/Health/Checks.antt =====
-- The entries that a reload leaves (internal/gateway/health.go, `UpdateConfig`).
use hive_mind_fusion.Prelude.{
  Text, Map, lookup, insert, lookup-insert, lookup-keep_keys, Bool, true, List, [], ◌∷◌, Option,
  none, some, if◌then◌else◌, same_iff, ◌≡◌, refl, arith,
}
use hive_mind_fusion.Config.{Backend, Config}
use hive_mind_fusion.Health.{
  BackendHealth, HealthChecker, fresh, initial_states, add_missing, seen, update_config,
}

-- The entry kept where there is one, a fresh one for a new backend.
abbrev pub entry_after : Option BackendHealth → Bool → Option BackendHealth
entry_after (some s) new = some s
entry_after none new = if new then some fresh else none

lookup-add_missing :
    (m : Map BackendHealth) (bs : List Backend) (name : Text)
    → lookup name (add_missing m bs) ≡ entry_after (lookup name m) (seen bs name)
unfolding add_missing seen
lookup-add_missing m [] name = ground arith
lookup-add_missing m (b ∷ bs) name = ground (
  arith,
  lookup-add_missing m bs name,
  lookup-add_missing (insert b.name fresh m) bs name,
  lookup-insert b.name name fresh m,
  same_iff b.name name,
)

-- After a reload a backend of the new configuration has the entry that it had, or a fresh one in
-- the unknown state, and no other name has an entry.
pub lookup-update_config :
    (cfg : Config) (hc : HealthChecker) (name : Text)
    → lookup name (update_config cfg hc).states
      ≡ (if seen cfg.backends name then entry_after (lookup name hc.states) true else none)
unfolding update_config
lookup-update_config cfg hc name = ground (
  arith,
  lookup-keep_keys (seen cfg.backends) name (add_missing hc.states cfg.backends),
  lookup-add_missing hc.states cfg.backends name,
)

-- A new checker has a fresh entry for each configured backend and no other.
pub lookup-initial_states :
    (m : Map BackendHealth) (bs : List Backend) (name : Text)
    → lookup name (initial_states m bs) ≡ (if seen bs name then some fresh else lookup name m)
unfolding initial_states seen
lookup-initial_states m [] name = refl
lookup-initial_states m (b ∷ bs) name = ground (
  arith,
  lookup-initial_states (insert b.name fresh m) bs name,
  lookup-insert b.name name fresh m,
  same_iff b.name name,
)
