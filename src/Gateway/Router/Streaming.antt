-- ===== src/Gateway/Router/Streaming.antt =====
-- Streaming of the fusion engine behind the handlers of the gateway (internal/gateway/gateway.go, `buildProxyHandler`;
-- internal/gateway/proxy.go, `handleFusionStream`).
use hive_mind_fusion.Prelude.{
  Text, lookup, true, false, [], ◌++◌, Option, some, ◌≡◌, ◌≢◌, ◌⊎◌, refl, ap, ◌∙◌, arith,
}
use hive_mind_fusion.Fusion.{Engine}
use hive_mind_fusion.Fusion.Panels.{has_tier, prefix_long, prefix_short}
use hive_mind_fusion.Pii.{Client}
use hive_mind_fusion.Proxy.{Request}
use hive_mind_fusion.Proxy.Writers.{is_flusher}
use hive_mind_fusion.Proxy.Routing.{Proxy, fused, route_request, route_request-fusion}
use hive_mind_fusion.Proxy.Virtual.{
  FusionBody, streaming_unsupported, handle_fusion_stream, handle_fusion_request,
}
use hive_mind_fusion.Consumer.{ConsumerTracker, identify}
use hive_mind_fusion.Gateway.Router.{
  Outside, completions, setup_routes, fusion, completions_page, page, serve_mux, routes_writer,
}

routes_writer-no_flusher : (client : Option Client) → is_flusher (routes_writer client) ≡ false
unfolding is_flusher routes_writer
routes_writer-no_flusher client = refl

module _ (out : Outside) (client : Option Client) (p : Proxy) (ct : ConsumerTracker) where
  handle_fusion_request-stream :
      (e : Engine) (body tier : Text) (b : FusionBody)
      → out.decode_body body ≡ some b
      → b.stream ≡ true
      → handle_fusion_request out.assets out.call out.decode_body (routes_writer client) e body tier
        ≡ streaming_unsupported
  unfolding handle_fusion_request handle_fusion_stream
  handle_fusion_request-stream e body tier b decoded streams =
      ground (arith, decoded, streams, routes_writer-no_flusher client)

  -- Behind the handlers of the gateway, with or without the PII filter, and with a running engine: a request to one
  -- of the two completion endpoints that asks for a stream of a tier that the engine has is answered with the error
  -- "streaming not supported", whatever the panel's models would answer.
  pub serve_mux-stream :
      (r : Request) (body model tier : Text) (e : Engine) (b : FusionBody)
      → lookup r.path setup_routes ≡ some completions
      → p.fusion_engine ≡ some e
      → out.decode_model body ≡ some model
      → tier ≢ []
      → (model ≡ prefix_long ++ tier) ⊎ (model ≡ prefix_short ++ tier)
      → has_tier tier e ≡ true
      → out.decode_body body ≡ some b
      → b.stream ≡ true
      → serve_mux out (routes_writer client) p ct r (some body) ≡ fusion streaming_unsupported
  unfolding serve_mux
  serve_mux-stream r body model tier e b at on decoded some_tier spelled known is_body streams =
      let routed_to =
        route_request-fusion out.world out.decode_model p (identify ct r.header) r body model tier e
          on decoded some_tier spelled in
      let fused_to : route_request out.world out.decode_model p (identify ct r.header) r (some body)
          ≡ fused tier body =
        routed_to ∙ rw known refl in
      let w = routes_writer client in
      ap (λ x. page out w p ct x r (some body)) at
      ∙ (ap (λ x. completions_page out w p ct p.fusion_engine x) fused_to
          ∙ (ap (λ x. completions_page out w p ct x (fused tier body)) on
              ∙ ap fusion (handle_fusion_request-stream e body tier b is_body streams)))
