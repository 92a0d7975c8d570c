-- ===== src/Proxy/Tests.antt =====
-- Requests through the proxy and calls of backends at concrete inputs (internal/gateway/proxy.go).
use hive_mind_fusion.Prelude.{
  inr, ◌++◌, if◌then◌else◌, Text, text, same, strip_prefix, has_prefix, lookup, insert, keep_keys,
  true, false, [], ◌∷◌, Option, none, some, if◌then◌else◌, ◌≡◌, ◌≢◌, refl, pos,
}
use hive_mind_fusion.Config.{Backend}
use hive_mind_fusion.Config.Samples.{sample_backend}
use hive_mind_fusion.Fallback.{Chain}
use hive_mind_fusion.Fusion.{Panel, Engine}
use hive_mind_fusion.Fusion.Panels.{has_tier, tier_names, extract_tier, prefix_long, prefix_short}
use hive_mind_fusion.Proxy.{Request, Response, World}
use hive_mind_fusion.Proxy.Attempt.{
  parse_path_rewrite, rewritten_path, direct, mark, modify_response, forward_attempt,
}
use hive_mind_fusion.Proxy.Chains.{
  answered, Observation, forward_from, forward_chain, Walked, forward_chain-Walked,
}
use hive_mind_fusion.Proxy.Routing.{
  fused, no_such_tier, route_request-fusion, Proxy, walked, route_chain, route_model, route_request,
}
use hive_mind_fusion.Proxy.Virtual.{
  is_listed, chain_models, tier_model, handle_models, IsServed, handle_models-IsServed,
}

abbrev first : Backend
first = sample_backend (text "a") (text "m") (pos 1)

abbrev second : Backend
second = record (sample_backend (text "b") (text "m") (pos 2)) { path_rewrite = text "/v1=/v2" }

abbrev chain : Chain
chain = first ∷ second ∷ []

abbrev good : Response
good = record { status = 200; header = []; body = text "{}" }

-- The first backend is up but does not answer, the second answers on the rewritten path only.
abbrev world : World
world = record {
  parse_url = λ url. some (record { scheme = text "http"; host = text "h" });
  decode_check = λ body. none;
  healthy = λ i name. true;
  round_trip = λ i out. if same out.request.path (text "/v2") then some good else none;
}

abbrev ask : Request
ask = record { path = text "/v1"; header = []; body = text "q" }

abbrev served : Response
served = record good {
  header = (text "X-HiveMind-Backend", text "b") ∷ (text "X-HiveMind-Fallback", text "b") ∷ [];
}

abbrev seen : Observation
seen = record { consumer = text "c"; model = text "m"; backend = text "b"; status = 200 }

falls_back : forward_chain world false (text "c") (text "m") ask chain ≡ (answered served, seen)
unfolding forward_chain forward_from forward_attempt modify_response mark direct rewritten_path
    parse_path_rewrite keep_keys has_prefix lookup insert text same
falls_back = refl

forward_chain-Walked_example :
    Walked world false
      (text "c")
      (text "m")
      ask
      0
      chain
      chain
      (forward_chain world false (text "c") (text "m") ask chain)
forward_chain-Walked_example = forward_chain-Walked world false (text "c") (text "m") ask chain

attempt : forward_attempt world false 1 second true ask ≡ some served
unfolding forward_attempt modify_response mark direct rewritten_path parse_path_rewrite keep_keys
    has_prefix lookup insert text same
attempt = refl

abbrev panel : Panel
panel = record {
  name = text "t";
  panelists = text "m" ∷ [];
  judge = text "m";
  synth = text "m";
  deliberator = text "m";
  timeout_ms = pos 1000;
  min_quorum = pos 1;
}

abbrev engine : Engine
engine = record { panels = (text "t", panel) ∷ [] }

abbrev proxy : Proxy
proxy = record {
  backends = (text "m", chain) ∷ [];
  fusion_engine = some engine;
  rag_handler = λ consumer. none;
  compress = λ body. body;
  validation = false;
}

-- A body is its own model name here.
abbrev decode : Text → Option Text
decode body = some body

routed :
    route_request world decode proxy (text "c") ask (some (text "m"))
    ≡ walked
        (forward_chain world false (text "c") (text "m") (record ask { body = text "m" }) chain)
unfolding route_request route_model route_chain extract_tier prefix_long prefix_short strip_prefix
    lookup text same
routed = refl

some_tier : text "t" ≢ []
unfolding text
some_tier e = cc

some_model : text "m" ≢ []
unfolding text
some_model e = cc

listed : is_listed (text "m") (handle_models proxy) ≡ true
unfolding handle_models chain_models tier_model tier_names text same
listed = refl

no_empty_tier : has_tier [] engine ≡ false
unfolding has_tier lookup text same
no_empty_tier = refl

abbrev fusion_t : Text
fusion_t = prefix_short ++ text "t"

route_request-fusion_example : route_request world decode proxy (text "c") ask (some fusion_t) ≡ (
    if has_tier (text "t") engine
    then fused (text "t") fusion_t
    else no_such_tier (text "t") (tier_names engine))
route_request-fusion_example =
    route_request-fusion world decode proxy (text "c") ask fusion_t fusion_t (text "t") engine refl
      refl some_tier (inr refl)

handle_models-IsServed_example :
    IsServed world proxy
      (text "c")
      ask
      (text "m")
      (text "m")
      (route_request world decode proxy (text "c") ask (some (text "m")))
handle_models-IsServed_example =
    handle_models-IsServed world decode proxy (text "c") ask (text "m") (text "m") refl some_model
      (λ e on. cc (on, no_empty_tier)) listed
