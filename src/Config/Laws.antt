-- ===== src/Config/Laws.antt =====
-- What `validate` and `Load` of internal/config/config.go accept and reject.
use hive_mind_fusion.Prelude.{
  ℕ, ◌+◌, Text, true, List, [], ◌∷◌, ◌++◌, Option, some, pos, All, Map, ◌≡◌, ◌≢◌, ◌↔◌, refl, arith,
  Option-cases, inl, inr,
}
use hive_mind_fusion.Config.{Gateway, Backend, Pii, FusionPanel, Fusion, Config}
use hive_mind_fusion.Config.Validate.{
  Field, gateway_errors, backend_errors, backends_errors, pii_errors, panel_errors, panels_errors,
  fusion_errors, validate, Env, resolve_backend, resolve_backends, resolve_env_vars, loaded,
  config_path, checked, load,
}

append-eq-nil_iff {ℓ} : {A : Type ℓ} (xs ys : List A) → (xs ++ ys ≡ []) ↔ ((xs ≡ []) × (ys ≡ []))
append-eq-nil_iff [] ys = ground arith
append-eq-nil_iff (x ∷ xs) ys = ground arith

abbrev pub IsValidGateway : Gateway → Type 0
IsValidGateway g = (g.port ≢ pos 0) × (g.admin_port ≢ pos 0) × (g.metrics_port ≢ pos 0)

abbrev pub IsValidBackend : Backend → Type 0
IsValidBackend b = (b.name ≢ []) × (b.url ≢ []) × (b.model ≢ [])

abbrev pub IsValidPii : Pii → Type 0
IsValidPii p = p.enabled ≡ true → (p.endpoint ≢ []) × (p.timeout_ms ≢ pos 0)

abbrev pub IsValidPanel : FusionPanel → Type 0
IsValidPanel p = (p.panelists ≢ []) × (p.judge ≢ []) × (p.synth ≢ []) × (p.timeout_ms ≢ pos 0)

abbrev pub IsValidFusion : Fusion → Type 0
IsValidFusion f =
    f.enabled ≡ true → (f.panels ≢ []) × All (λ (e : Text × FusionPanel). IsValidPanel e.1) f.panels

-- What the fields of a configuration are asked to satisfy.
pub record IsValid (c : Config) : Type 0 where
  pub gateway : IsValidGateway c.gateway
  pub some_backend : c.backends ≢ []
  pub backends : All IsValidBackend c.backends
  pub pii : IsValidPii c.pii
  pub qdrant : c.qdrant.endpoint ≢ []
  pub fusion : IsValidFusion c.fusion

gateway_errors_iff : (g : Gateway) → (gateway_errors g ≡ []) ↔ IsValidGateway g
unfolding gateway_errors
gateway_errors_iff g = ground arith

backend_errors_iff : (i : ℕ) (b : Backend) → (backend_errors i b ≡ []) ↔ IsValidBackend b
unfolding backend_errors
backend_errors_iff i b = ground arith

backends_errors_iff :
    (i : ℕ) (bs : List Backend) → (backends_errors i bs ≡ []) ↔ All IsValidBackend bs
unfolding backends_errors
backends_errors_iff i [] = ground arith
backends_errors_iff i (b ∷ bs) =
    let (out, back) = append-eq-nil_iff (backend_errors i b) (backends_errors (i + 1) bs) in
    let (b_out, b_back) = backend_errors_iff i b in
    let (bs_out, bs_back) = backends_errors_iff (i + 1) bs in
    (λ e. (b_out (out e).0, bs_out (out e).1), λ v. back (b_back v.0, bs_back v.1))

pii_errors_iff : (p : Pii) → (pii_errors p ≡ []) ↔ IsValidPii p
unfolding pii_errors
pii_errors_iff p = ground arith

panel_errors_iff : (n : Text) (p : FusionPanel) → (panel_errors n p ≡ []) ↔ IsValidPanel p
unfolding panel_errors
panel_errors_iff n p = ground arith

panels_errors_iff :
    (ps : Map FusionPanel)
    → (panels_errors ps ≡ []) ↔ All (λ (e : Text × FusionPanel). IsValidPanel e.1) ps
unfolding panels_errors
panels_errors_iff [] = ground arith
panels_errors_iff ((n, p) ∷ ps) =
    let (out, back) = append-eq-nil_iff (panel_errors n p) (panels_errors ps) in
    let (p_out, p_back) = panel_errors_iff n p in
    let (ps_out, ps_back) = panels_errors_iff ps in
    (λ e. (p_out (out e).0, ps_out (out e).1), λ v. back (p_back v.0, ps_back v.1))

fusion_errors_iff : (f : Fusion) → (fusion_errors f ≡ []) ↔ IsValidFusion f
unfolding fusion_errors
fusion_errors_iff f = ground (arith, panels_errors_iff f.panels)

-- `validate` finds no error exactly when the three ports are set, there is a backend, every backend
-- has a name, a URL and a model, an enabled PII shield has an endpoint and a timeout, Qdrant has an
-- endpoint, and an enabled fusion engine has a panel and every panel of it is complete.
pub validate_iff : (c : Config) → (validate c ≡ []) ↔ IsValid c
unfolding validate
validate_iff c = ground (
  arith,
  append-eq-nil_iff {0} (gateway_errors c.gateway),
  gateway_errors_iff c.gateway,
  backends_errors_iff 0 c.backends,
  pii_errors_iff c.pii,
  fusion_errors_iff c.fusion,
)

-- What resolving the environment may change of a backend: a key that is not set, and only that.
abbrev pub IsResolved : Env → Backend → Backend → Type 0
IsResolved env b b' =
    (b' ≡ record b { api_key = b'.api_key })
    × (b.api_key ≢ [] → b'.api_key ≡ b.api_key)
    × (b.api_key ≡ [] → b.api_key_env ≢ [] → b'.api_key ≡ env b.api_key_env)
    × (b.api_key ≡ [] → b.api_key_env ≡ [] → b'.api_key ≡ [])

resolve_backend-IsResolved : (env : Env) (b : Backend) → IsResolved env b (resolve_backend env b)
unfolding resolve_backend
resolve_backend-IsResolved env b = ground arith

abbrev pub AllResolved : Env → List Backend → List Backend → Type 0
AllResolved env [] [] = Unit
AllResolved env (b ∷ bs) (b' ∷ bs') = IsResolved env b b' × AllResolved env bs bs'
AllResolved env _ _ = ⊥

resolve_backends-AllResolved :
    (env : Env) (bs : List Backend) → AllResolved env bs (resolve_backends env bs)
unfolding resolve_backends
resolve_backends-AllResolved env [] = tt
resolve_backends-AllResolved env (b ∷ bs) =
    (resolve_backend-IsResolved env b, resolve_backends-AllResolved env bs)

checked-eq-loaded :
    (env : Env) (cfg c : Config) (es : List Field)
    → checked env cfg es ≡ loaded c
    → (es ≡ []) × (c ≡ resolve_env_vars env cfg)
unfolding checked
checked-eq-loaded env cfg c [] h = (refl, cc)
checked-eq-loaded env cfg c (e ∷ es) h = cc

-- A configuration that `Load` returns was decoded from the file, satisfies every requirement of
-- `validate`, and differs from what was decoded in the backends' API keys alone: a key that the file
-- sets is kept, and a missing one is read from the variable that the backend names.
pub load-loaded :
    (decode : Text → Option Config) (env : Env) (c : Config)
    → load decode env ≡ loaded c
    → (cfg : Config) × (decode (config_path env) ≡ some cfg)
      × IsValid cfg
      × (c ≡ record cfg { backends = c.backends })
      × AllResolved env cfg.backends c.backends
unfolding load resolve_env_vars
load-loaded decode env c h = elim (Option-cases (decode (config_path env))) [
  | inl failed ↦ absurd (ground arith)
  | inr (cfg, decoded) ↦
      let (valid, same) = checked-eq-loaded env cfg c (validate cfg) (rw (decoded, load) at h) in
      (
        cfg,
        decoded,
        (validate_iff cfg).0 valid,
        rw same,
        rw same (resolve_backends-AllResolved env cfg.backends),
      )
]
