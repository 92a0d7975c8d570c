-- ===== src/Config/Samples.antt =====
-- A small configuration for the tests of every component.
use hive_mind_fusion.Prelude.{Text, text, true, false, [], ◌∷◌, ℤ, pos}
use hive_mind_fusion.Config.{Backend, FusionPanel, Config}

abbrev pub sample_backend : Text → Text → ℤ → Backend
sample_backend name model priority = record {
  name = name;
  url = text "http://h:1";
  model = model;
  priority = priority;
  health_endpoint = [];
  path_rewrite = [];
  api_key = [];
  api_key_env = text "KEY";
  expected_down = false;
}

abbrev pub sample_panel : FusionPanel
sample_panel = record {
  panelists = text "m" ∷ text "n" ∷ [];
  judge = text "m";
  synth = text "m";
  deliberator = [];
  timeout_ms = pos 1000;
  min_quorum = pos 0;
}

abbrev pub sample : Config
sample = record {
  gateway = record {
    port = pos 8400;
    admin_port = pos 8401;
    metrics_port = pos 8402;
    health_interval_secs = pos 0;
    health_failure_threshold = pos 0;
    response_validation = false;
  };
  backends =
      sample_backend (text "a") (text "m") (pos 2)
      ∷ sample_backend (text "b") (text "m") (pos 1)
      ∷ [];
  pii = record { endpoint = []; enabled = false; bypass_on_failure = false; timeout_ms = pos 0 };
  models = record { dir = []; default = [] };
  rate_limit = record {
    default_requests_per_minute = pos 0;
    default_burst = pos 0;
    consumers = [];
  };
  consumers = record { api_keys = (text "k", text "alice") ∷ [] };
  qdrant = record { endpoint = text "http://q"; collection = [] };
  embed = record { endpoint = []; model = [] };
  rag = record { consumers = [] };
  compression = record {
    enabled = false;
    endpoint = [];
    min_body_size = pos 0;
    timeout_ms = pos 0;
  };
  fusion = record { enabled = true; panels = (text "test", sample_panel) ∷ [] };
}
