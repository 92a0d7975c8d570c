-- ===== src/Lib.antt =====
-- Verification library of HiveMindFusion, a gateway in front of language models.
--
-- A request enters the gateway (internal/gateway/gateway.go) through a stack of handlers: the
-- authentication, the PII filter, the rate limiter, the usage accounting and the router. The router
-- sends it to the fusion engine, which asks a panel of models and merges their answers, or to the
-- reverse proxy, which walks the fallback chain of the model over the backends that the health checker
-- takes for available. Everything is built from one configuration, and built again on a reload.
--
-- Files and code (paths from the repository's root):
-- - Config, Config/Validate: internal/config/config.go. The structs, `validate`, `resolveEnvVars`, `Load`.
-- - Health, Health/Invariant, Health/Report, Health/Gpu: internal/gateway/health.go. `HealthChecker` with its map of
--   states, `UpdateConfig`, `checkOne`, `IsHealthy` and `ServeHTTP`. A run is a list of events: a probe
--   that comes back, or a reload. Probes of several backends are concurrent in the source, and each
--   changes the state under the lock, so a run is any order of them.
-- - RateLimit, RateLimit/Limiter: internal/gateway/ratelimit.go. `bucket.take`, `getBucket`, `Update`,
--   the middleware. RateLimit/Concurrent: the same among concurrent requests, one locked section a step,
--   with the buckets in a heap.
-- - Fallback: internal/gateway/fallback.go. `buildFallbackChain`.
-- - Proxy and its children: internal/gateway/proxy.go. Attempt is `forwardAttempt`, Chains
--   `forwardChain`, Caller `backendCaller`, Routing `routeRequest`, Virtual `handleModels` and the
--   handlers of the fusion engine, Writers which response writers can flush.
-- - Fusion and its children: internal/fusion. Panels is panels.go with the engine's tables, Transforms
--   is transforms.go, Stages has the four stages of fusion.go, FanOut the goroutines of `fanOut`,
--   Pipeline `RunFusion` and `RunFusionStream`.
-- - Pii, Pii/Middleware: internal/pii/client.go and internal/pii/middleware.go. Pii/Concurrent: scans of
--   concurrent requests, with the wait for the shield between two steps.
-- - Auth: internal/gateway/auth.go and `buildKnownConsumers` of internal/gateway/gateway.go.
-- - Consumer: internal/gateway/consumer.go, with Persist for the usage file: `persist` as a function, and
--   the goroutine of `Start` among the requests and `Stop` as a step relation, one access at a time.
--   Compress: internal/gateway/compress.go.
-- - Metrics: internal/gateway/metrics.go over a record of the operations of the Prometheus library, with
--   what is relied on as a second record; Memory is an instance of both.
-- - Gateway: the order of the handlers in `buildProxyHandler` of internal/gateway/gateway.go.
--   Gateway/Assembly: `New`, `buildProxyHandler`, `Reload` and `handlePanels` there, and `newProxy` of
--   internal/gateway/proxy.go, which put the components together from a configuration; `route_live` routes a request
--   with the checker and the tracker of the gateway, which a reload keeps.
--   Gateway/Router has the routes of internal/gateway/router.go with what the handlers put around their
--   response writers, Gateway/Servers `Run` and `Shutdown` with the goroutines of the three servers.
--   Gateway/Backends puts the health checker under the walk of the proxy. Gateway/Reload is a running gateway under
--   probes and reloads; a reload is one step there.
-- - Rag, Rag/Context, Rag/Inject: internal/rag/middleware.go and internal/rag/qdrant.go. `InjectContext`
--   with its embedding, its search and the context block. Rag/Ingest: internal/rag/ingest.go.
-- - Models/Gguf: internal/models/gguf.go, with Writer as the file format that it reads.
--   Models/Scanner: internal/models/scanner.go. Models/Launcher, Models/Lifecycle:
--   internal/models/launcher.go and internal/models/lifecycle.go, on a state of PID files and
--   processes, with Table as the abstract view of the PID files.
-- - Vram, Vram/Gpus: internal/vram/calculator.go and internal/vram/nvml.go.
-- - Prelude: byte strings, maps, integers and lists. Numerals: reading back decimal texts. The other
--   files, named for what they prove, have lemmas and theorems; every Tests file has concrete runs and instances of the theorems.
--
-- Choices of the model:
-- - A Go string is the list of its bytes. Case mapping and white space are those of ASCII.
-- - A Go map is an association list; where the source iterates over a map, the order is that of the
--   list, and no theorem depends on which one it is.
-- - A Go `int` whose sign matters is an integer, with the wrap-around of the failure counter written
--   out; counters are natural numbers modulo 2^64.
-- - Tokens of the rate limiter are whole parts of a token, 60 * 10^9 each, in place of float64.
-- - The environment is an argument: the clock, the transport, URL and JSON parsing, the shield, the
--   sidecar, the backends' answers and the embedded prompts; for the model processes the whole
--   operating system. A network call that a loop repeats takes
--   its position as an argument, so that each call may answer differently.
-- - A panic is the value `none` of the functions that can have it; a panic of the routes ends the request
--   and leaves what was changed before it.
-- - Scores and vectors are opaque. The float64 numbers of the VRAM estimate are whole multiples of
--   2^-58 MiB, rounded to 53 bits after each operation (Prelude/Float64), which needs 192 rounds of fuel
--   at most, since the numbers stay below 2^245; the product that is taken in `int` wraps as in the source.
-- - A PID file that cannot be written leaves whatever the operating system says; a process that was
--   started, signalled or killed stays in the lists of the host.
-- - Loops are structural recursion over lists. Besides the bits of a float64 two have fuel: the digits of
--   a number, where the number plus one is enough since each round drops a digit, and the nesting of
--   arrays in a GGUF file, where the length of the file is enough since a level takes 12 bytes; a theorem
--   shows the latter.
--
-- Not modelled: logs, the registration of the metrics, the listeners below what `ListenAndServe` and
-- `Shutdown` return, the times of tickers, redirects of the multiplexers, context timeouts but for their
-- effect on calls, and the scripts around the program.
mod Prelude
pub mod Numerals
pub mod Config
pub mod Health
pub mod RateLimit
pub mod Fallback
pub mod Proxy
pub mod Fusion
pub mod Pii
pub mod Auth
pub mod Consumer
pub mod Compress
pub mod Metrics
pub mod Gateway
pub mod Models
pub mod Rag
pub mod Vram
