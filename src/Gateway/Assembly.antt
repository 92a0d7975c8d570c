-- ===== src/Gateway/Assembly.antt =====
-- How the gateway is built and rebuilt (`New`, `buildProxyHandler`, `Reload`, `handlePanels` of
-- internal/gateway/gateway.go, `newProxy` and `modelNames` of internal/gateway/proxy.go,
-- `NewConsumerTracker` of internal/gateway/consumer.go). The transport, the metrics and the mux are left out.
use hive_mind_fusion.Prelude.{
  ℕ, pos_part, Text, Map, lookup, Bool, true, false, List, [], ◌∷◌, Option, none, some,
  if◌then◌else◌, map,
}
use hive_mind_fusion.Config
use hive_mind_fusion.Config.{Config, ConsumerLimit, RagConsumer}
use hive_mind_fusion.Auth.{Auth, build_known_consumers, new_auth}
use hive_mind_fusion.Auth.Identity.{auth_of}
use hive_mind_fusion.Pii.{Client, new_client}
use hive_mind_fusion.RateLimit.Limiter.{Limit, Limits, RateLimiter, new_rate_limiter}
use hive_mind_fusion.Consumer.{ConsumerTracker, identify}
use hive_mind_fusion.Compress.{Sidecar, new_compressor, compress_body}
use hive_mind_fusion.Fallback.{Chain, build_fallback_chain}
use hive_mind_fusion.Fusion.{Engine, Panel}
use hive_mind_fusion.Fusion.Panels.{new_engine}
use hive_mind_fusion.Health.{HealthChecker, new_health_checker, update_config}
use hive_mind_fusion.Proxy.Routing.{Proxy, Routed, route_request}
use hive_mind_fusion.Rag.Ingest.{Ingester, new_ingester}
use hive_mind_fusion.Rag.Inject.{Services, Middleware, new_middleware, inject_context}
use hive_mind_fusion.Proxy
use hive_mind_fusion.Proxy.{World}
use hive_mind_fusion.Gateway.Backends.{with_health}

-- The environment variables, the services of the RAG middleware and the compression sidecar.
pub record Outside : Type 0 where
  pub env : Text → Text
  pub rag : Services
  pub sidecar : Sidecar

-- The RAG middlewares of the consumers that have it enabled.
unfoldable pub rag_handlers : Config → Map RagConsumer → Map Middleware
unfolding new_middleware
rag_handlers cfg [] = []
rag_handlers cfg ((name, rc) ∷ rcs) =
    let rest = rag_handlers cfg rcs in
    if rc.enabled
    then (
      name,
      new_middleware cfg.qdrant.endpoint (record {
        enabled = true;
        collection = rc.collection;
        top_k = rc.top_k;
        min_score = rc.min_score;
        embed_endpoint = cfg.embed.endpoint;
        embed_model = cfg.embed.model;
      }),
    )
      ∷ rest
    else rest

abbrev pub handler_of : Services → Option Middleware → Option (Text → Text)
handler_of s none = none
handler_of s (some m) = some (inject_context s m)

abbrev pub engine_if : Bool → Config.Fusion → Option Engine
engine_if enabled cfg = if enabled then some (new_engine cfg) else none

unfoldable pub new_proxy : Outside → Config → Proxy
unfolding rag_handlers build_fallback_chain new_compressor compress_body new_engine
new_proxy out cfg = record {
  backends = build_fallback_chain cfg.backends;
  fusion_engine = engine_if cfg.fusion.enabled cfg.fusion;
  rag_handler =
      λ consumer. handler_of out.rag (lookup consumer (rag_handlers cfg cfg.rag.consumers));
  compress = compress_body out.sidecar (new_compressor cfg.compression);
  validation = cfg.gateway.response_validation;
}

unfoldable pub model_names : Proxy → List Text
model_names p = map (λ (c : Text × Chain). c.0) p.backends

-- What `buildProxyHandler` makes anew. The tracker and the health checker are those of the gateway, which
-- `route_live` reads.
pub record Live : Type 0 where
  pub auth : Auth
  pub pii : Option Client
  pub limiter : RateLimiter
  pub proxy : Proxy

-- Negative limits, which the configuration does not exclude, are not modelled.
abbrev pub limit_from : ConsumerLimit → Limit
limit_from l = record {
  requests_per_minute = pos_part l.requests_per_minute;
  burst = pos_part l.burst;
}

abbrev pub limits_from : Config.RateLimitConfig → Limits
limits_from c = record {
  default = record {
    requests_per_minute = pos_part c.default_requests_per_minute;
    burst = pos_part c.default_burst;
  };
  consumers = map (λ (p : Text × ConsumerLimit). (p.0, limit_from p.1)) c.consumers;
}

unfoldable pub build_proxy_handler : Outside → Config → Live
unfolding new_proxy new_rate_limiter new_client build_known_consumers new_auth
build_proxy_handler out cfg = record {
  auth = auth_of cfg out.env;
  pii = if cfg.pii.enabled then some (new_client cfg.pii.bypass_on_failure) else none;
  limiter = new_rate_limiter (limits_from cfg.rate_limit);
  proxy = new_proxy out cfg;
}

-- `live` and the ingester of the admin listener are `none` before `Run`.
pub record Gateway : Type 0 where
  pub cfg : Config
  pub health : HealthChecker
  pub consumer : ConsumerTracker
  pub live : Option Live
  pub ingester : Option Ingester

unfoldable pub new_consumer_tracker : Config → ConsumerTracker
new_consumer_tracker cfg = record { stats = []; api_keys = cfg.consumers.api_keys }

unfoldable pub new_gateway : Config → Gateway
unfolding new_health_checker new_consumer_tracker
new_gateway cfg = record {
  cfg = cfg;
  health = new_health_checker cfg;
  consumer = new_consumer_tracker cfg;
  live = none;
  ingester = none;
}

-- `Run` seeds the chain and makes the ingester; a reload leaves the latter as it is.
unfoldable pub start : Outside → Gateway → Gateway
unfolding build_proxy_handler new_ingester
start out g = record g {
  live = some (build_proxy_handler out g.cfg);
  ingester = some (new_ingester g.cfg);
}

unfoldable pub reload : Outside → Config → Gateway → Gateway
unfolding update_config build_proxy_handler
reload out cfg g = record g {
  cfg = cfg;
  health = update_config cfg g.health;
  live = some (build_proxy_handler out cfg);
}

-- The panels and whether the engine is on.
abbrev pub engine_panels : Option Engine → Map Panel × Bool
engine_panels none = ([], false)
engine_panels (some e) = (e.panels, true)

abbrev pub panels_of : Option Live → Map Panel × Bool
panels_of none = ([], false)
panels_of (some l) = engine_panels l.proxy.fusion_engine

unfoldable pub handle_panels : Gateway → Map Panel × Bool
handle_panels g = panels_of g.live

-- How a request is routed by the proxy that is live, `none` before `Run`. `newProxy` gets the gateway's own
-- checker and the `Identify` of its own tracker, which a reload keeps: a backend is looked up in the
-- checker as it is at each position of the walk, and the consumer is found with the tracker's keys.
unfoldable pub route_live :
    (Text → Option Text)
    → World
    → (ℕ → HealthChecker)
    → Gateway
    → Proxy.Request
    → Option Text
    → Option Routed
unfolding with_health route_request identify
route_live decode_model w at g r body = elim g.live [
  | none ↦ none
  | some l ↦
      some (
        route_request (with_health at w) decode_model l.proxy (identify g.consumer r.header) r body)
]
