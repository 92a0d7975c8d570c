-- ===== src/Proxy/Routing.antt =====
-- Where a request goes (internal/gateway/proxy.go): `routeRequest`, `handleFusionRequest`,
-- `handleModels` and the routes that lead there.
use hive_mind_fusion.Prelude.{
  Text, is_empty, Map, lookup, Bool, List, [], ◌++◌, Option, none, some, if◌then◌else◌, ◌≡◌, ◌≢◌,
  ◌⊎◌, arith,
}
use hive_mind_fusion.Fallback.{Chain}
use hive_mind_fusion.Fusion.{Engine}
use hive_mind_fusion.Fusion.Panels.{extract_tier, has_tier, tier_names, prefix_long, prefix_short}
use hive_mind_fusion.Fusion.Tiers.{extract_tier_iff, extract_tier-empty}
use hive_mind_fusion.Proxy.{Request, World}
use hive_mind_fusion.Proxy.Chains.{Reply, Observation, forward_chain}

-- The proxy's tables, with the RAG handlers and the compressor as the functions on bodies that they
-- are. A handler's error leaves the body, so it is the identity then.
pub record Proxy : Type 0 where
  pub backends : Map Chain
  pub fusion_engine : Option Engine
  pub rag_handler : Text → Option (Text → Text)
  pub compress : Text → Text
  pub validation : Bool

-- What `routeRequest` decides: an error of its own, the fusion engine, or a walk of a chain.
pub data Routed : Type 0 where
  unreadable_body : Routed
  model_required : Routed
  no_such_tier : Text → List Text → Routed
  fused : Text → Text → Routed
  unknown_model : Text → Routed
  walked : Reply × Observation → Routed

abbrev pub injected : Option (Text → Text) → Text → Text
injected none body = body
injected (some inject) body = inject body

-- The tier of a model, "" where the engine is off.
abbrev pub tier_of : Option Engine → Text → Text
tier_of none model = []
tier_of (some e) model = extract_tier model

abbrev pub route_tier : Option Engine → Text → Text → Routed
route_tier none body tier = unknown_model tier
route_tier (some e) body tier =
    if has_tier tier e then fused tier body else no_such_tier tier (tier_names e)

module _ (w : World) (decode_model : Text → Option Text) (p : Proxy) (consumer : Text) where
  unfoldable pub route_chain : Request → Text → Text → Routed
  route_chain r model body = elim (lookup model p.backends) [
    | none ↦ unknown_model model
    | some chain ↦
        let sent = p.compress (injected (p.rag_handler consumer) body) in
        walked (forward_chain w p.validation consumer model (record r { body = sent }) chain)
  ]

  unfoldable pub route_model : Request → Text → Text → Routed
  route_model r body model =
      let tier = tier_of p.fusion_engine model in
      if is_empty model
      then model_required
      else if is_empty tier
      then route_chain r model body
      else route_tier p.fusion_engine body tier

  -- `none` for a body that cannot be read; `decode_model` is the JSON decoder on the model field.
  unfoldable pub route_request : Request → Option Text → Routed
  route_request r none = unreadable_body
  route_request r (some body) = elim (decode_model body) [
    | none ↦ model_required
    | some model ↦ route_model r body model
  ]

  -- With a running engine, a request for "hivemind/fusion-" or "fusion-" with a tier's name goes to the
  -- engine if it has the tier, and is refused with its tiers if not: never to a backend.
  pub route_request-fusion :
      (r : Request) (body model tier : Text) (e : Engine)
      → p.fusion_engine ≡ some e
      → decode_model body ≡ some model
      → tier ≢ []
      → (model ≡ prefix_long ++ tier) ⊎ (model ≡ prefix_short ++ tier)
      → route_request r (some body)
        ≡ (if has_tier tier e then fused tier body else no_such_tier tier (tier_names e))
  unfolding route_request route_model
  route_request-fusion r body model tier e on decoded some_tier spelled =
      let e_tier = (extract_tier_iff model tier some_tier).1 spelled in
      ground (arith, e_tier, extract_tier-empty)
