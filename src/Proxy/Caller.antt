-- ===== src/Proxy/Caller.antt =====
-- How the fusion engine calls a backend (internal/gateway/proxy.go, `backendCaller`).
use hive_mind_fusion.Prelude.{
  ℕ, suc, Text, text, is_empty, same, Map, lookup, Bool, List, [], ◌∷◌, ◌++◌, Option, none, some,
  if◌then◌else◌, ◌≡◌, ◌↔◌, arith, Option-cases, inl, inr,
}
use hive_mind_fusion.Config.{Backend}
use hive_mind_fusion.Fallback.{Chain}
use hive_mind_fusion.Fusion.{Message, CallResult}
use hive_mind_fusion.Proxy.{Target}
use hive_mind_fusion.Proxy.Attempt.{parse_path_rewrite}

-- What comes back from a backend: nothing, a body that breaks off, or its bytes.
pub data Arrival : Type 0 where
  unreached : Arrival
  broken : Text → Arrival
  arrived : Text → Arrival

-- The decoded answer: content and reasoning of each choice, and the tokens.
pub record Decoded : Type 0 where
  pub choices : List (Text × Text)
  pub total_tokens : ℕ

-- What goes out: the URL, the Authorization header ("" for none) and the messages.
pub record Call : Type 0 where
  pub url : Text
  pub authorization : Text
  pub model : Text
  pub messages : List Message

-- The URL parser, whether a request can be built for a URL, the health checks and the transport at each
-- position of the chain, the JSON decoder, and the clock since the start.
pub record Net : Type 0 where
  pub parse_url : Text → Option Target
  pub can_request : Text → Bool
  pub healthy : ℕ → Text → Bool
  pub round_trip : ℕ → Call → Arrival
  pub decode : Text → Option Decoded
  pub latency_ms : ℕ → ℕ

unfoldable pub chat_path : Text
unfolding text
chat_path = text "/v1/chat/completions"

abbrev pub rewrite_chat : Option (Text × Text) → Text
rewrite_chat none = chat_path
rewrite_chat (some (old, new)) = if same old chat_path then new else chat_path

unfoldable pub call_url : Backend → Target → Text
call_url b t =
    let path =
      if is_empty b.path_rewrite
      then chat_path
      else rewrite_chat (parse_path_rewrite b.path_rewrite) in
    t.scheme ++ (text "://" ++ (t.host ++ path))

unfoldable pub call_of : Backend → Target → Text → List Message → Call
call_of b t model messages = record {
  url = call_url b t;
  authorization = if is_empty b.api_key then [] else text "Bearer " ++ b.api_key;
  model = model;
  messages = messages;
}

-- The first choice's content, or its reasoning where the content is empty.
unfoldable pub content_of : List (Text × Text) → Text
content_of [] = []
content_of ((content, reasoning) ∷ cs) = if is_empty content then reasoning else content

abbrev pub reply : Text → Text → ℕ → ℕ → CallResult
reply model content tokens latency = record {
  response = record {
    model = model;
    content = content;
    tokens = tokens;
    latency_ms = latency;
    error = [];
  };
  err = none;
}

abbrev pub fault : Text → Text → Text → CallResult
fault model error err = record {
  response = record { model = model; content = []; tokens = 0; latency_ms = 0; error = error };
  err = some err;
}

-- A body that is no JSON is passed on as the content.
unfoldable pub read_answer : Net → Text → ℕ → Text → CallResult
read_answer n model i body = elim (n.decode body) [
  | none ↦ reply model body 0 (n.latency_ms i)
  | some d ↦ reply model (content_of d.choices) d.total_tokens (n.latency_ms i)
]

module _ (n : Net) (model : Text) (messages : List Message) where
  -- One backend of the chain: `none` is `continue`.
  unfoldable pub try_backend : ℕ → Backend → Option CallResult
  try_backend i b =
      if n.healthy i b.name
      then elim (n.parse_url b.url) [
        | none ↦ none
        | some t ↦
            if n.can_request (call_url b t)
            then elim (n.round_trip i (call_of b t model messages)) [
              | unreached ↦ none
              | broken e ↦ some (fault model (text "read error") e)
              | arrived body ↦ some (read_answer n model i body)
            ]
            else none
      ]
      else none

  unfoldable pub call_from : ℕ → Chain → CallResult
  call_from i [] =
      fault model (text "all backends exhausted")
        (text "all backends exhausted for model: " ++ model)
  call_from i (b ∷ bs) =
      let next = call_from (suc i) bs in elim (try_backend i b) [ none ↦ next | some r ↦ r ]

  unfoldable pub backend_caller : Map Chain → CallResult
  backend_caller backends = elim (lookup model backends) [
    | none ↦ fault model (text "unknown model") (text "unknown model: " ++ model)
    | some chain ↦ call_from 0 chain
  ]

  -- An error in the response goes with a returned error, and the model is the one that was asked.
  abbrev pub IsConsistent : CallResult → Type 0
  IsConsistent r = (r.response.model ≡ model) × ((r.response.error ≡ []) ↔ (r.err ≡ none))

  try_backend-IsConsistent :
      (i : ℕ) (b : Backend) (r : CallResult) → try_backend i b ≡ some r → IsConsistent r
  unfolding try_backend read_answer text
  try_backend-IsConsistent i b r h = ground arith

  call_from-IsConsistent : (i : ℕ) (chain : Chain) → IsConsistent (call_from i chain)
  unfolding call_from text
  call_from-IsConsistent i [] = ground arith
  call_from-IsConsistent i (b ∷ bs) = elim (Option-cases (try_backend i b)) [
    | inl on ↦ ground (arith, call_from-IsConsistent (suc i) bs)
    | inr (r, e) ↦ ground (arith, try_backend-IsConsistent i b r e)
  ]

  -- A call of a backend for the fusion engine answers under the model that was asked for, and its
  -- response carries an error exactly if the call returns one.
  backend_caller-IsConsistent : (backends : Map Chain) → IsConsistent (backend_caller backends)
  unfolding backend_caller text
  backend_caller-IsConsistent backends = elim (Option-cases (lookup model backends)) [
    | inl gone ↦ ground arith
    | inr (chain, e) ↦ ground (arith, call_from-IsConsistent 0 chain)
  ]
