-- ===== src/Gateway/Servers/Tests.antt =====
-- A listener that cannot bind its port, and a shutdown (internal/gateway/gateway.go).
use hive_mind_fusion.Prelude.{
  ◌<◌, length, Text, text, Bool, true, false, List, [], ◌∷◌, none, some, ◌≡◌, ◌≢◌, refl, ◌⊎◌, arith,
}
use hive_mind_fusion.Consumer.Persist.{waiting, System}
use hive_mind_fusion.Gateway.Servers.{
  shutdown_errors, got, Served, Server, proxy, admin, metrics, failed, got, Served, ended, Running,
  thread, put, started, message, Step, serve_returned, sent, run_returned, Reach, begin, next,
  ServerErrors, shutdown,
}
use hive_mind_fusion.Gateway.Servers.Results.{FromFailed, run_lem}

abbrev addr : Server → Text
addr proxy = text "127.0.0.1:8080"
addr admin = text "127.0.0.1:8081"
addr metrics = text "127.0.0.1:8082"

abbrev taken : Text
taken = text "address already in use"

abbrev bound : Running
bound = put admin (got (failed taken)) started

bound-Reach : Reach addr bound
bound-Reach = next begin (serve_returned admin (failed taken) refl)

abbrev told : Running
told = put admin (ended (failed taken)) (record bound { err_ch = message addr admin taken ∷ [] })

told-Reach : Reach addr told
told-Reach = next bound-Reach (sent admin (failed taken) taken refl refl (omega arith))

abbrev back : Running
back = record told { err_ch = []; returned = some (message addr admin taken) }

back-Reach : Reach addr back
back-Reach = next told-Reach (run_returned (message addr admin taken) [] refl refl)

run_lem_example :
    ((m : Text) → back.returned ≡ some m → FromFailed addr back m)
    × ((srv : Server) (e : Text)
        → thread srv back ≡ ended (failed e)
        → (back.returned ≢ none) ⊎ ((t : Running) × Step addr back t × (t.returned ≢ none)))
    × (((srv : Server) (e : Text) → thread srv back ≢ ended (failed e)) → back.returned ≡ none)
    × ((srv : Server) (x : Served) → thread srv back ≡ got x → length back.err_ch < 3)
run_lem_example = run_lem addr back back-Reach

abbrev all_there : Server → Bool
all_there srv = true

abbrev slow_proxy : ServerErrors
slow_proxy proxy = some (text "context deadline exceeded")
slow_proxy admin = none
slow_proxy metrics = none

abbrev order : List Server
order = metrics ∷ proxy ∷ admin ∷ []

abbrev system : System
system = record {
  tracker = record { stats = []; api_keys = [] };
  disk = record { file = none; tmp = none };
  pc = waiting;
  stopped = false;
}

abbrev all_close : ServerErrors
all_close srv = none

second_panics : shutdown all_there all_close order (record system { stopped = true }) ≡ none
unfolding shutdown shutdown_errors
second_panics = refl
