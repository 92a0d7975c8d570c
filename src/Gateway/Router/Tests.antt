-- ===== src/Gateway/Router/Tests.antt =====
-- A streamed fusion request to the proxy listener (internal/gateway/router.go).
use hive_mind_fusion.Prelude.{
  text, lookup, same, true, false, pos, some, none, [], ◌∷◌, ◌++◌, ◌≡◌, ◌≢◌, inr, refl,
}
use hive_mind_fusion.Fusion.{Caller, Panel, Engine}
use hive_mind_fusion.Fusion.Panels.{has_tier, prefix_short}
use hive_mind_fusion.Pii.{new_client}
use hive_mind_fusion.Proxy.{Request}
use hive_mind_fusion.Proxy.Routing.{Proxy}
use hive_mind_fusion.Proxy.Virtual.{FusionBody, streaming_unsupported}
use hive_mind_fusion.Consumer.{ConsumerTracker}
use hive_mind_fusion.Gateway.Router.{
  Outside, completions, setup_routes, fusion, serve_mux, routes_writer,
}
use hive_mind_fusion.Gateway.Router.Streaming.{serve_mux-stream}

abbrev call : Caller
call stage model messages = record {
  response = record { model = model; content = text "yes"; tokens = 5; latency_ms = 1; error = [] };
  err = none;
}

abbrev panel : Panel
panel = record {
  name = text "t";
  panelists = text "m" ∷ [];
  judge = text "m";
  synth = text "m";
  deliberator = text "m";
  timeout_ms = pos 1000;
  min_quorum = pos 1;
}

abbrev engine : Engine
engine = record { panels = (text "t", panel) ∷ [] }

abbrev proxy : Proxy
proxy = record {
  backends = [];
  fusion_engine = some engine;
  rag_handler = λ consumer. none;
  compress = λ body. body;
  validation = false;
}

abbrev fusion_body : FusionBody
fusion_body = record { messages = []; stream = true }

-- A body is its own model name here, and asks for a stream.
abbrev out : Outside
out = record {
  world = record {
    parse_url = λ url. none;
    decode_check = λ body. none;
    healthy = λ i name. true;
    round_trip = λ i sent. none;
  };
  decode_model = λ body. some body;
  assets = record {
    templates = λ family. [];
    deliberator_prompt = text "{input}";
    judge_prompt = [];
    synthesizer_prompt = [];
    decode_object = λ s. none;
    encode_object = λ spec. none;
  };
  call = call;
  decode_body = λ body. some fusion_body;
}

abbrev ask : Request
ask = record { path = text "/v1/completions"; header = []; body = [] }

abbrev tracker : ConsumerTracker
tracker = record { stats = []; api_keys = [] }

found : lookup (text "/v1/completions") setup_routes ≡ some completions
unfolding setup_routes lookup text same
found = refl

known : has_tier (text "t") engine ≡ true
unfolding has_tier lookup text same
known = refl

some_tier : text "t" ≢ []
unfolding text
some_tier e = cc

serve_mux-stream_example :
    serve_mux out
      (routes_writer (some (new_client true)))
      proxy
      tracker
      ask
      (some (prefix_short ++ text "t"))
    ≡ fusion streaming_unsupported
serve_mux-stream_example =
    serve_mux-stream out (some (new_client true)) proxy tracker ask (prefix_short ++ text "t")
      (prefix_short ++ text "t") (text "t") engine fusion_body found refl refl some_tier (inr refl)
      known refl refl
