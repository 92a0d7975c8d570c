-- ===== src/Gateway/Servers.antt =====
-- The three listeners of the gateway (internal/gateway/gateway.go, `Run` and `Shutdown`). What a call of `ListenAndServe`
-- returns, and when, is left open. `main` is not part of the repository.
pub mod Threads
pub mod Room
pub mod Results
pub mod Stopping
mod Tests
use hive_mind_fusion.Prelude.{
  length, ◌<◌, Text, text, Bool, true, false, List, [], ◌∷◌, ◌++◌, Option, none, some,
  if◌then◌else◌, ◌≡◌, pos, decimal,
}
use hive_mind_fusion.Config.{Config}
use hive_mind_fusion.Consumer.Persist.{System}

pub data Server : Type 0 where
  proxy : Server
  admin : Server
  metrics : Server

-- nil, http.ErrServerClosed, or another error with its message.
pub data Served : Type 0 where
  nil : Served
  server_closed : Served
  failed : Text → Served

-- The goroutine of a server: in `ListenAndServe`, after it with what it returned, or at its end.
pub data Thread : Type 0 where
  listening : Thread
  got : Served → Thread
  ended : Served → Thread

pub record Running : Type 0 where
  pub proxy_thread : Thread
  pub admin_thread : Thread
  pub metrics_thread : Thread
  -- The channel of three places.
  pub err_ch : List Text
  -- What `Run` returned.
  pub returned : Option Text

abbrev pub thread : Server → Running → Thread
thread proxy s = s.proxy_thread
thread admin s = s.admin_thread
thread metrics s = s.metrics_thread

abbrev pub put : Server → Thread → Running → Running
put proxy t s = record s { proxy_thread = t }
put admin t s = record s { admin_thread = t }
put metrics t s = record s { metrics_thread = t }

abbrev pub started : Running
started = record {
  proxy_thread = listening;
  admin_thread = listening;
  metrics_thread = listening;
  err_ch = [];
  returned = none;
}

-- `err != nil && err != http.ErrServerClosed`, with the error.
abbrev pub reported : Served → Option Text
reported nil = none
reported server_closed = none
reported (failed e) = some e

-- The addresses of the servers are an argument.
abbrev pub message : (Server → Text) → Server → Text → Text
message addr srv e = text "server " ++ (addr srv ++ (text ": " ++ e))

-- A goroutine goes on, or `Run` takes an error.
pub data Step (addr : Server → Text) (s : Running) : Running → Type 0 where
  serve_returned :
      (srv : Server) (r : Served) → thread srv s ≡ listening → Step addr s (put srv (got r) s)
  silent :
      (srv : Server) (r : Served)
      → thread srv s ≡ got r
      → reported r ≡ none
      → Step addr s (put srv (ended r) s)
  sent :
      (srv : Server) (r : Served) (e : Text)
      → thread srv s ≡ got r
      → reported r ≡ some e
      → length s.err_ch < 3
      → Step addr s
          (put srv (ended r) (record s { err_ch = s.err_ch ++ (message addr srv e ∷ []) }))
  run_returned :
      (m : Text) (ms : List Text)
      → s.returned ≡ none
      → s.err_ch ≡ m ∷ ms
      → Step addr s (record s { err_ch = ms; returned = some m })

pub data Reach (addr : Server → Text) : Running → Type 0 where
  begin : Reach addr started
  next : {s t : Running} → Reach addr s → Step addr s t → Reach addr t

-- `Shutdown`: which servers there are, what `Shutdown` of each returns, and the order in which their goroutines get to the
-- channel.
abbrev pub ServerErrors : Type 0
ServerErrors = Server → Option Text

abbrev pub with_error : Option Text → List Text → List Text
with_error none es = es
with_error (some e) es = e ∷ es

unfoldable pub shutdown_errors : (Server → Bool) → ServerErrors → List Server → List Text
shutdown_errors there errors [] = []
shutdown_errors there errors (srv ∷ srvs) =
    let rest = shutdown_errors there errors srvs in
    if there srv then with_error (errors srv) rest else rest

-- `none` is the panic of closing the channel of the tracker a second time.
abbrev pub first_or_stop : List Text → System → Option (System × Option Text)
first_or_stop [] sys = if sys.stopped then none else some (record sys { stopped = true }, none)
first_or_stop (e ∷ es) sys = some (sys, some e)

-- The result comes with the usage tracker's state; that `Stop` waits for the goroutine is left to the steps of that
-- state.
unfoldable pub shutdown :
    (Server → Bool) → ServerErrors → List Server → System → Option (System × Option Text)
unfolding shutdown_errors
shutdown there errors order sys = first_or_stop (shutdown_errors there errors order) sys
