-- ===== src/Gateway/Router.antt =====
-- The routes of the proxy listener and of the admin listener (internal/gateway/router.go; `Run` and `handleHealth` of
-- internal/gateway/gateway.go). The patterns of the multiplexers have no method and no wildcard, so that a clean path is
-- served by the pattern that equals it; paths that the multiplexer redirects to their clean form are left out.
pub mod Streaming
mod Tests
use hive_mind_fusion.Prelude.{
  Text, text, Map, lookup, Bool, true, false, List, [], ◌∷◌, Option, none, some, if◌then◌else◌,
}
use hive_mind_fusion.Fusion.{Caller, Engine}
use hive_mind_fusion.Fusion.Stages.{Assets}
use hive_mind_fusion.Pii.{Client}
use hive_mind_fusion.Proxy.{Request, World}
use hive_mind_fusion.Proxy.Writers.{Writer, of_server, capturing, recording_body}
use hive_mind_fusion.Proxy.Routing.{Proxy, Routed, fused, route_request}
use hive_mind_fusion.Proxy.Virtual.{
  Model, FusionBody, FusionReply, handle_fusion_request, handle_models,
}
use hive_mind_fusion.Consumer.{ConsumerTracker, identify}

pub data Route : Type 0 where
  completions : Route
  models : Route
  health : Route

unfoldable pub setup_routes : Map Route
setup_routes =
    (text "/v1/chat/completions", completions)
    ∷ (text "/v1/completions", completions)
    ∷ (text "/v1/models", models)
    ∷ (text "/health", health)
    ∷ []

pub data AdminRoute : Type 0 where
  health_report : AdminRoute
  ingest : AdminRoute
  usage : AdminRoute
  panels : AdminRoute

unfoldable pub admin_routes : Map AdminRoute
admin_routes =
    (text "/health", health_report)
    ∷ (text "/admin/ingest", ingest)
    ∷ (text "/admin/usage", usage)
    ∷ (text "/panels", panels)
    ∷ []

-- What the proxy listener answers with.
pub data Page : Type 0 where
  routed : Routed → Page
  fusion : FusionReply → Page
  listing : List Model → Page
  status_ok : Page
  not_found : Page

-- The JSON decoders of the model field and of a fusion body, the backends and what a panel is asked through.
pub record Outside : Type 0 where
  pub world : World
  pub decode_model : Text → Option Text
  pub assets : Assets
  pub call : Caller
  pub decode_body : Text → Option FusionBody

module _ (out : Outside) (w : Writer) (p : Proxy) (ct : ConsumerTracker) where
  abbrev pub completions_page : Option Engine → Routed → Page
  completions_page (some e) (fused tier body) =
      fusion (handle_fusion_request out.assets out.call out.decode_body w e body tier)
  completions_page _ r = routed r

  abbrev pub page : Option Route → Request → Option Text → Page
  page none r body = not_found
  page (some completions) r body =
      completions_page p.fusion_engine
        (route_request out.world out.decode_model p (identify ct r.header) r body)
  page (some models) r body = listing (handle_models p)
  page (some health) r body = status_ok

  -- The multiplexer, for a request whose body reads as given, `none` for a failure.
  unfoldable pub serve_mux : Request → Option Text → Page
  serve_mux r body = page (lookup r.path setup_routes) r body

-- The writer that the routes get from `buildProxyHandler`: the PII filter, if it is there, records the body, and the
-- accounting captures it. The authentication and the rate limiter hand their writer on.
abbrev pub filter_writer : Option Client → Writer → Writer
filter_writer none w = w
filter_writer (some client) w = recording_body w

unfoldable pub routes_writer : Option Client → Writer
routes_writer client = capturing (filter_writer client of_server)
