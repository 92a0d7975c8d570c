-- ===== src/Health/Tests.antt =====
-- Runs of the health checker, and its theorems at concrete inputs.
use hive_mind_fusion.Prelude.{
  ◌++◌, some, none, text, lookup, insert, same, true, false, List, [], ◌∷◌, ◌≡◌, refl, arith,
  keep_keys,
}
use hive_mind_fusion.Config.Samples.{sample}
use hive_mind_fusion.Health.{
  failed, status, HealthChecker, new_health_checker, check_one, is_healthy, is_ok, seen,
  update_config, add_missing, initial_states, fail, succeed,
}
use hive_mind_fusion.Health.Invariant.{Event, probed, reloaded, step, run, IsSound}
use hive_mind_fusion.Health.Runs.{run-new_health_checker-IsSound}
use hive_mind_fusion.Health.Streaks.{
  after_reload, streak, below, failures_allowed, is_healthy-streak,
}

abbrev outage : List Event
outage =
    probed 5 (text "a") failed
    ∷ probed 6 (text "b") (status 200)
    ∷ probed 7 (text "a") (status 503)
    ∷ []

two_failures_available : is_healthy (text "a") (run (new_health_checker sample) outage) ≡ true
unfolding is_healthy run new_health_checker step check_one fail succeed is_ok initial_states lookup
    insert text same
two_failures_available = refl

abbrev start : HealthChecker
start = new_health_checker sample

reload_drops :
    is_healthy (text "a") (run start (reloaded (record sample { backends = [] }) ∷ [])) ≡ false
unfolding is_healthy run new_health_checker step update_config add_missing keep_keys seen
    initial_states lookup insert text same
reload_drops = refl

run-new_health_checker-IsSound_example : IsSound (run start outage)
run-new_health_checker-IsSound_example = run-new_health_checker-IsSound sample outage (omega arith)

-- Two failures, a success, two failures and a reload that changes nothing.
abbrev interrupted : List Event
interrupted =
    probed 1 (text "a") failed
    ∷ probed 2 (text "a") (status 500)
    ∷ probed 3 (text "a") (status 404)
    ∷ probed 4 (text "a") failed
    ∷ reloaded sample
    ∷ probed 5 (text "a") (status 503)
    ∷ []

abbrev third_failure : List Event
third_failure = interrupted ++ probed 6 (text "a") failed ∷ []

-- The success starts the count anew, and the third failure after it takes the backend out.
counts_from_success :
    (streak (text "a") (some 0) interrupted ≡ some 2)
    × (streak (text "a") (some 0) third_failure ≡ some 3)
unfolding streak seen same text
counts_from_success = (refl, refl)

is_healthy-streak_example :
    is_healthy (text "a") (run start third_failure)
    ≡ below
        (failures_allowed sample.gateway.health_failure_threshold)
        (streak (text "a") (after_reload (seen sample.backends (text "a")) none) third_failure)
is_healthy-streak_example =
    is_healthy-streak sample (text "a") third_failure (omega arith) (omega arith)
