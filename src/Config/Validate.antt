-- ===== src/Config/Validate.antt =====
-- Loading a configuration: `Load`, `validate` and `resolveEnvVars` of internal/config/config.go. The
-- TOML decoder, the environment and the file system are arguments. An error keeps its field as
-- data; the text that `fmt.Sprintf` makes of it is not modelled.
use hive_mind_fusion.Prelude.{
  ℕ, ◌+◌, Text, text, is_empty, Bool, true, false, ◌&&◌, not, List, [], ◌∷◌, ◌++◌, Option, none,
  some, is_zero, if◌then◌else◌, Map,
}
use hive_mind_fusion.Config.{Gateway, Backend, Pii, FusionPanel, Fusion, Config}

-- The fields that `validate` names.
pub data Field : Type 0 where
  gateway_port gateway_admin_port gateway_metrics_port backends : Field
  backend_name backend_url backend_model : ℕ → Field
  pii_endpoint pii_timeout_ms qdrant_endpoint fusion_panels : Field
  panel_panelists panel_judge panel_synth panel_timeout_ms : Text → Field

-- `if bad { errs = append(errs, &ValidationError{Field: f}) }`.
abbrev pub report : Bool → Field → List Field
report bad f = if bad then f ∷ [] else []

abbrev pub is_nil {ℓ} : {A : Type ℓ} → List A → Bool
is_nil [] = true
is_nil (x ∷ xs) = false

unfoldable pub gateway_errors : Gateway → List Field
gateway_errors g =
    report (is_zero g.port) gateway_port
    ++ (report (is_zero g.admin_port) gateway_admin_port
        ++ report (is_zero g.metrics_port) gateway_metrics_port)

unfoldable pub backend_errors : ℕ → Backend → List Field
backend_errors i b =
    report (is_empty b.name) (backend_name i)
    ++ (report (is_empty b.url) (backend_url i) ++ report (is_empty b.model) (backend_model i))

-- `for i, b := range c.Backends`.
unfoldable pub backends_errors : ℕ → List Backend → List Field
backends_errors i [] = []
backends_errors i (b ∷ bs) = backend_errors i b ++ backends_errors (i + 1) bs

unfoldable pub pii_errors : Pii → List Field
pii_errors p =
    report (p.enabled && is_empty p.endpoint) pii_endpoint
    ++ report (p.enabled && is_zero p.timeout_ms) pii_timeout_ms

unfoldable pub panel_errors : Text → FusionPanel → List Field
panel_errors name p =
    report (is_nil p.panelists) (panel_panelists name)
    ++ (report (is_empty p.judge) (panel_judge name)
        ++ (report (is_empty p.synth) (panel_synth name)
            ++ report (is_zero p.timeout_ms) (panel_timeout_ms name)))

-- `for name, p := range c.Fusion.Panels`, in the order of the list.
unfoldable pub panels_errors : Map FusionPanel → List Field
panels_errors [] = []
panels_errors ((name, p) ∷ ps) = panel_errors name p ++ panels_errors ps

unfoldable pub fusion_errors : Fusion → List Field
fusion_errors f =
    if f.enabled then report (is_nil f.panels) fusion_panels ++ panels_errors f.panels else []

-- `errors.Join` of nothing is nil, so the configuration is accepted when the list is empty.
unfoldable pub validate : Config → List Field
validate c =
    gateway_errors c.gateway
    ++ (report (is_nil c.backends) backends
        ++ (backends_errors 0 c.backends
            ++ (pii_errors c.pii
                ++ (report (is_empty c.qdrant.endpoint) qdrant_endpoint
                    ++ fusion_errors c.fusion))))

-- The environment: `os.Getenv` returns "" for a variable that is not set.
abbrev pub Env : Type 0
Env = Text → Text

unfoldable pub resolve_backend : Env → Backend → Backend
resolve_backend env b =
    if not (is_empty b.api_key_env) && is_empty b.api_key
    then record b { api_key = env b.api_key_env }
    else b

unfoldable pub resolve_backends : Env → List Backend → List Backend
resolve_backends env [] = []
resolve_backends env (b ∷ bs) = resolve_backend env b ∷ resolve_backends env bs

unfoldable pub resolve_env_vars : Env → Config → Config
resolve_env_vars env c = record c { backends = resolve_backends env c.backends }

pub data LoadResult : Type 0 where
  loaded : Config → LoadResult
  undecodable : Text → LoadResult
  invalid : List Field → LoadResult

unfoldable pub config_path : Env → Text
config_path env =
    let path = env (text "HIVEMIND_CONFIG") in
    if is_empty path then text "/etc/hivemind/config.toml" else path

-- What follows a successful decoding.
unfoldable pub checked : Env → Config → List Field → LoadResult
checked env cfg [] = loaded (resolve_env_vars env cfg)
checked env cfg (e ∷ es) = invalid (e ∷ es)

-- `decode` stands for `toml.DecodeFile`; `none` is its error.
unfoldable pub load : (Text → Option Config) → Env → LoadResult
load decode env = elim (decode (config_path env)) [
  | none ↦ undecodable (config_path env)
  | some cfg ↦ checked env cfg (validate cfg)
]
