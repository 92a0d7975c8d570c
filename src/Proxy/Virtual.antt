-- ===== src/Proxy/Virtual.antt =====
-- The models that the proxy serves in-process (internal/gateway/proxy.go): `handleModels`,
-- `handleFusionRequest` and `handleFusionStream`. Completion ids and time stamps are left out.
use hive_mind_fusion.Prelude.{
  ◌∙◌, ℕ, ℤ, Text, text, same, same_iff, same_refl, Map, lookup, has_key, Bool, true, false, ◌||◌,
  List, [], ◌∷◌, ◌++◌, Option, none, some, if◌then◌else◌, map, ◌≡◌, ◌≢◌, ◌⊎◌, inl, inr, refl, arith,
  Option-cases, Bool-cases, is_empty, sym,
}
use hive_mind_fusion.Fallback.{Chain}
use hive_mind_fusion.Fusion.{Message, Caller, Panel, Engine}
use hive_mind_fusion.Fusion.Panels.{prefix_long, prefix_short, extract_tier, has_tier, tier_names}
use hive_mind_fusion.Fusion.Tiers.{extract_tier_iff}
use hive_mind_fusion.Fusion.Stages.{Assets}
use hive_mind_fusion.Fusion.Pipeline.{
  Completion, FusionResult, unknown_tier, crashed, no_quorum, completed, StreamChunk, StreamResult,
  unknown_stream, stream_crashed, streamed, run_fusion, run_fusion_stream,
}
use hive_mind_fusion.Proxy.{Request, World}
use hive_mind_fusion.Proxy.Writers.{Writer, is_flusher}
use hive_mind_fusion.Proxy.Chains.{forward_chain}
use hive_mind_fusion.Proxy.Routing.{
  tier_of, Proxy, Routed, injected, walked, fused, no_such_tier, route_model, route_chain,
  route_request, route_request-fusion,
}

-- An entry of GET /models.
pub record Model : Type 0 where
  pub id : Text
  pub owned_by : Text

-- `chain[0].Name`, "" for an empty chain.
abbrev pub owner : Chain → Text
owner [] = []
owner (b ∷ bs) = b.name

unfoldable pub chain_models : Map Chain → List Model
chain_models [] = []
chain_models ((name, chain) ∷ m) = record { id = name; owned_by = owner chain } ∷ chain_models m

unfoldable pub tier_model : Text → Model
tier_model tier = record { id = prefix_long ++ tier; owned_by = text "hivemind-fusion" }

abbrev pub virtual_models : Option Engine → List Model
virtual_models none = []
virtual_models (some e) = map tier_model (tier_names e)

unfoldable pub handle_models : Proxy → List Model
handle_models p = chain_models p.backends ++ virtual_models p.fusion_engine

-- The decoded body of a request to the engine.
pub record FusionBody : Type 0 where
  pub messages : List Message
  pub stream : Bool

-- An event of the stream: a chunk, or the line that closes the stream.
pub data SseEvent : Type 0 where
  chunk : StreamChunk → SseEvent
  done : SseEvent

-- What the client gets: 400, 500 for a writer that cannot flush or with the unknown tier, 502 with the numbers of the quorum, the
-- completion or the events. A panic in the handler ends the request, one in the goroutine of the
-- stream ends the process.
pub data FusionReply : Type 0 where
  invalid_body : FusionReply
  streaming_unsupported : FusionReply
  internal_error : Text → FusionReply
  request_panics process_panics : FusionReply
  bad_gateway : (valid asked : ℕ) → (needed : ℤ) → FusionReply
  answered : Completion → FusionReply
  events : List SseEvent → FusionReply

abbrev pub plain_reply : FusionResult → FusionReply
plain_reply (unknown_tier tier) = internal_error tier
plain_reply crashed = request_panics
plain_reply (no_quorum v n q) = bad_gateway v n q
plain_reply (completed c) = answered c

-- The loop over the channel. An error of the run is only logged: the channel is closed with nothing
-- in it.
abbrev pub stream_reply : StreamResult → FusionReply
stream_reply (unknown_stream tier) = events (done ∷ [])
stream_reply stream_crashed = process_panics
stream_reply (streamed chunks) = events (map chunk chunks ++ done ∷ [])

module _ (a : Assets) (call : Caller) (decode_body : Text → Option FusionBody) where
  unfoldable pub handle_fusion_stream : Writer → Engine → Text → List Message → FusionReply
  handle_fusion_stream w e tier messages =
      if is_flusher w
      then stream_reply (run_fusion_stream a call e tier messages)
      else streaming_unsupported

  unfoldable pub handle_fusion_request : Writer → Engine → Text → Text → FusionReply
  handle_fusion_request w e body tier = elim (decode_body body) [
    | none ↦ invalid_body
    | some b ↦
        if b.stream
        then handle_fusion_stream w e tier b.messages
        else plain_reply (run_fusion a call e tier b.messages)
  ]

-- A model is among the listed ones.
abbrev pub is_listed : Text → List Model → Bool
is_listed id [] = false
is_listed id (m ∷ ms) = same m.id id || is_listed id ms

is_listed-append :
    (id : Text) (ms ns : List Model)
    → is_listed id (ms ++ ns) ≡ (is_listed id ms || is_listed id ns)
is_listed-append id [] ns = refl
is_listed-append id (m ∷ ms) ns = ground (arith, is_listed-append id ms ns)

is_listed-chain_models : (id : Text) (m : Map Chain) → is_listed id (chain_models m) ≡ has_key id m
unfolding chain_models lookup
is_listed-chain_models id [] = refl
is_listed-chain_models id ((name, chain) ∷ m) = ground (arith, is_listed-chain_models id m)

is_listed-tiers :
    (id : Text) (ps : Map Panel)
    → is_listed id (map tier_model (map (λ (p : Text × Panel). p.0) ps)) ≡ true
    → (tier : Text) × (id ≡ prefix_long ++ tier) × (has_key tier ps ≡ true)
unfolding tier_model lookup
is_listed-tiers id [] h = cc
is_listed-tiers id ((tier, panel) ∷ ps) h = elim (Bool-cases (same (prefix_long ++ tier) id)) [
  | inl mine ↦
      (tier, sym ((same_iff (prefix_long ++ tier) id).0 mine), ground (arith, same_refl tier))
  | inr other ↦
      let (t, e, known) = is_listed-tiers id ps (ground arith) in
      (t, e, ground (arith, same_iff tier t))
]

-- What a listed model is: a backend's, or a tier of the running engine.
listed-cases :
    (p : Proxy) (id : Text)
    → is_listed id (handle_models p) ≡ true
    → (has_key id p.backends ≡ true)
      ⊎ ((e : Engine) × (tier : Text) × (p.fusion_engine ≡ some e)
          × (id ≡ prefix_long ++ tier)
          × (has_tier tier e ≡ true))
unfolding handle_models tier_names has_tier
listed-cases p id h =
    let split = is_listed-append id (chain_models p.backends) (virtual_models p.fusion_engine) in
    let chains = is_listed-chain_models id p.backends in
    elim (Bool-cases (has_key id p.backends)) [
      | inl mine ↦ inl mine
      | inr other ↦ elim (Option-cases p.fusion_engine) [
        | inl off ↦ absurd (ground arith)
        | inr (e, on) ↦
            let (tier, named, known) = is_listed-tiers id e.panels (ground arith) in
            inr (e, tier, on, named, known)
      ]
    ]

-- What a listed model is answered with: a walk of its own chain, with its body after RAG and compression; a run of the
-- tier of the running engine that its name reads as; or 404, where its name reads as a tier that the running engine
-- lacks although a backend serves it.
is_empty-nil : (s : Text) → is_empty s ≡ true → s ≡ []
is_empty-nil [] h = refl
is_empty-nil (c ∷ s) h = cc

module _ (w : World) (p : Proxy) (consumer : Text) (r : Request) (body model : Text) where
  abbrev pub IsWalked : Routed → Type 0
  IsWalked result =
      (chain : Chain) × (lookup model p.backends ≡ some chain)
      × (result
          ≡ walked (
              forward_chain w p.validation consumer model
                (record r { body = p.compress (injected (p.rag_handler consumer) body) }) chain))

  abbrev pub IsFused : Routed → Type 0
  IsFused result =
      (e : Engine) × (tier : Text) × (p.fusion_engine ≡ some e)
      × ((model ≡ prefix_long ++ tier) ⊎ (model ≡ prefix_short ++ tier))
      × (tier ≢ [])
      × (has_tier tier e ≡ true)
      × (result ≡ fused tier body)

  abbrev pub IsMissing : Routed → Type 0
  IsMissing result =
      (e : Engine) × (tier : Text) × (p.fusion_engine ≡ some e)
      × ((model ≡ prefix_long ++ tier) ⊎ (model ≡ prefix_short ++ tier))
      × (tier ≢ [])
      × (has_tier tier e ≡ false)
      × (has_key model p.backends ≡ true)
      × (result ≡ no_such_tier tier (tier_names e))

  abbrev pub IsServed : Routed → Type 0
  IsServed result = IsWalked result ⊎ (IsFused result ⊎ IsMissing result)

module _ (w : World) (decode_model : Text → Option Text) (p : Proxy) (consumer : Text) (r : Request)
    (body model : Text) (decoded : decode_model body ≡ some model) (some_model : model ≢ []) where
  abbrev answer : Routed
  answer = route_request w decode_model p consumer r (some body)

  -- A backend's model whose name reads as no tier, or with the engine off.
  plain-IsWalked :
      (chain : Chain)
      → lookup model p.backends ≡ some chain
      → tier_of p.fusion_engine model ≡ []
      → IsWalked w p consumer r body model answer
  unfolding route_request route_model route_chain
  plain-IsWalked chain found plain = (chain, found, ground arith)

  spelled :
      (tier : Text)
      → extract_tier model ≡ tier
      → tier ≢ []
      → (model ≡ prefix_long ++ tier) ⊎ (model ≡ prefix_short ++ tier)
  spelled tier e some_tier = (extract_tier_iff model tier some_tier).0 e

  fusion-answer :
      (e : Engine) (tier : Text)
      → p.fusion_engine ≡ some e
      → tier ≢ []
      → (model ≡ prefix_long ++ tier) ⊎ (model ≡ prefix_short ++ tier)
      → answer ≡ (if has_tier tier e then fused tier body else no_such_tier tier (tier_names e))
  fusion-answer e tier on some_tier name =
      route_request-fusion w decode_model p consumer r body model tier e on decoded some_tier name

  tiered-IsServed :
      (e : Engine) (tier : Text)
      → p.fusion_engine ≡ some e
      → extract_tier model ≡ tier
      → tier ≢ []
      → has_key model p.backends ≡ true
      → IsServed w p consumer r body model answer
  tiered-IsServed e tier on reads some_tier backend =
      let name = spelled tier reads some_tier in
      let is = fusion-answer e tier on some_tier name in
      elim (Bool-cases (has_tier tier e)) [
        | inl known ↦ inr (inl (e, tier, on, name, some_tier, known, is ∙ rw known refl))
        | inr missing ↦
            inr (inr (e, tier, on, name, some_tier, missing, backend, is ∙ rw missing refl))
      ]

  chain-IsServed :
      (chain : Chain)
      → lookup model p.backends ≡ some chain
      → IsServed w p consumer r body model answer
  chain-IsServed chain found = elim (Option-cases p.fusion_engine) [
    | inl off ↦ inl (plain-IsWalked chain found (rw off refl))
    | inr (e, on) ↦ elim (Bool-cases (is_empty (extract_tier model))) [
      | inl plain ↦
          inl (plain-IsWalked chain found (rw on (is_empty-nil (extract_tier model) plain)))
      | inr tiered ↦
          tiered-IsServed e (extract_tier model) on refl (λ e. ground arith) (rw found refl)
    ]
  ]

  tier-IsServed :
      (e : Engine) (tier : Text)
      → p.fusion_engine ≡ some e
      → tier ≢ []
      → model ≡ prefix_long ++ tier
      → has_tier tier e ≡ true
      → IsServed w p consumer r body model answer
  tier-IsServed e tier on some_tier named known = inr (
      inl (
        e,
        tier,
        on,
        inl named,
        some_tier,
        known,
        fusion-answer e tier on some_tier (inl named) ∙ rw known refl,
      ))

-- A model that GET /models lists is served when a request names it, if no tier has an empty name: by a walk of the chain
-- of its own backends, or by the tier of the running engine that its name reads as. The exception is a backend's
-- model whose name reads as a tier that the running engine lacks, which is answered with 404.
pub handle_models-IsServed :
    (w : World) (decode_model : Text → Option Text) (p : Proxy) (consumer : Text) (r : Request)
    (body model : Text)
    → decode_model body ≡ some model
    → model ≢ []
    → ((e : Engine) → p.fusion_engine ≡ some e → has_tier [] e ≡ false)
    → is_listed model (handle_models p) ≡ true
    → IsServed w p consumer r body model (route_request w decode_model p consumer r (some body))
handle_models-IsServed w decode_model p consumer r body model decoded some_model named listed =
    elim (listed-cases p model listed) [
      | inr (e, tier, on, spelled, known) ↦
          tier-IsServed w decode_model p consumer r body model decoded some_model e tier on
            (λ empty. ground (arith, named e on, rw empty at known)) spelled known
      | inl backend ↦ elim (Option-cases (lookup model p.backends)) [
        | inl gone ↦ absurd (ground arith)
        | inr (chain, found) ↦
            chain-IsServed w decode_model p consumer r body model decoded some_model chain found
      ]
    ]
