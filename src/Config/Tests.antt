-- ===== src/Config/Tests.antt =====
-- Loads of a small configuration, and the theorems of the configuration at it.
use hive_mind_fusion.Prelude.{Text, text, same, some, [], ◌∷◌, ◌≡◌, ◌↔◌, refl, pos, if◌then◌else◌}
use hive_mind_fusion.Config.{Config}
use hive_mind_fusion.Config.Samples.{sample}
use hive_mind_fusion.Config.Validate.{
  qdrant_endpoint, gateway_port, validate, gateway_errors, backend_errors, backends_errors,
  pii_errors, panel_errors, panels_errors, fusion_errors, Env, resolve_env_vars, loaded,
  config_path, checked, load,
}
use hive_mind_fusion.Config.Laws.{IsValid, validate_iff, AllResolved, load-loaded}

abbrev env : Env
env name = if same name (text "KEY") then text "s3cret" else []

abbrev bad : Config
bad = record sample {
  gateway = record (sample.gateway) { port = pos 0 };
  qdrant = record { endpoint = []; collection = [] };
}

bad_fields : validate bad ≡ gateway_port ∷ qdrant_endpoint ∷ []
unfolding validate gateway_errors backend_errors backends_errors pii_errors panel_errors
    panels_errors fusion_errors text
bad_fields = refl

validate_iff_example : (validate bad ≡ []) ↔ IsValid bad
validate_iff_example = validate_iff bad

loads : load (λ path. some sample) env ≡ loaded (resolve_env_vars env sample)
unfolding load checked validate gateway_errors backend_errors backends_errors pii_errors
    panel_errors panels_errors fusion_errors text
loads = refl

load-loaded_example :
    (cfg : Config) × ((λ (path : Text). some sample) (config_path env) ≡ some cfg)
    × IsValid cfg
    × (resolve_env_vars env sample
        ≡ record cfg { backends = (resolve_env_vars env sample).backends })
    × AllResolved env cfg.backends (resolve_env_vars env sample).backends
load-loaded_example = load-loaded (λ path. some sample) env (resolve_env_vars env sample) loads
