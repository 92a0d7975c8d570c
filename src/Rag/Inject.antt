-- ===== src/Rag/Inject.antt =====
-- Context injection (internal/rag/middleware.go `NewMiddleware`, `InjectContext`, `embed`, `lastUserMessage`;
-- internal/rag/qdrant.go `Search`).
use mathlib.Core.Option.{bind}
use hive_mind_fusion.Prelude.{
  ℕ, ℤ, pos, ltb_ℤ, leb_ℤ, ◌==◌, Text, text, same, is_empty, trim_right, Bool, List, [], ◌∷◌, ◌++◌,
  Option, none, some, if◌then◌else◌, reverse,
}
use hive_mind_fusion.Rag.{SearchResult, ChatMessage}
use hive_mind_fusion.Rag.Context.{Format, build_context_block, capped, prepend_system_context}

pub record ConsumerConfig : Type 0 where
  pub enabled : Bool
  pub collection : Text
  pub top_k : ℤ
  pub min_score : ℤ
  pub embed_endpoint : Text
  pub embed_model : Text

pub record ChatRequest : Type 0 where
  pub model : Text
  pub messages : List ChatMessage
  pub stream : Option Bool

abbrev pub Vector : Type 0
Vector = List ℕ

-- `with_payload` is always true.
pub record SearchRequest : Type 0 where
  pub vector : Vector
  pub limit : ℤ
  pub score_threshold : Option ℤ

pub record EmbedRequest : Type 0 where
  pub model : Text
  pub input : Text

-- A reply with its status and its body.
pub record Reply : Type 0 where
  pub status : ℕ
  pub body : Text

-- What is outside: a POST of a body to a URL (`none` when there is no response), the JSON codecs (`none` for an
-- error), and the text of a score.
pub record Services : Type 0 where
  pub post : Text → Text → Option Reply
  pub encode_embed : EmbedRequest → Option Text
  pub decode_embed : Text → Option (List Vector)
  pub encode_search : SearchRequest → Option Text
  pub decode_search : Text → Option (List SearchResult)
  pub decode_chat : Text → Option ChatRequest
  pub encode_chat : ChatRequest → Option Text
  pub format : Format

pub record Middleware : Type 0 where
  pub qdrant : Text
  pub cfg : ConsumerConfig

unfoldable pub new_middleware : Text → ConsumerConfig → Middleware
new_middleware qdrant_endpoint cfg = record { qdrant = qdrant_endpoint; cfg = cfg }

-- The content of the first message of the user; the code goes through the messages from the last one.
unfoldable pub find_user : List ChatMessage → Text
find_user [] = []
find_user (m ∷ ms) =
    let rest = find_user ms in if same m.role (text "user") then m.content else rest

unfoldable pub last_user_message : List ChatMessage → Text
unfolding find_user
last_user_message messages = find_user (reverse messages)

-- The body of a reply with status 200.
unfoldable pub ok_body : Reply → Option Text
ok_body r = if r.status == 200 then some r.body else none

-- The first embedding, if it has a number.
abbrev pub first_embedding : List Vector → Option Vector
first_embedding [] = none
first_embedding ([] ∷ vs) = none
first_embedding ((x ∷ v) ∷ vs) = some (x ∷ v)

unfoldable pub embed : Services → ConsumerConfig → Text → Option Vector
unfolding ok_body trim_right
embed s cfg input =
    if is_empty cfg.embed_endpoint
    then none
    else bind (s.encode_embed (record { model = cfg.embed_model; input = input })) (λ body.
      bind (s.post (trim_right (text "/") cfg.embed_endpoint ++ text "/v1/embeddings") body)
        (λ reply. bind (ok_body reply) (λ answer. bind (s.decode_embed answer) first_embedding)))

abbrev pub threshold : ℤ → Option ℤ
threshold min_score = if ltb_ℤ (pos 0) min_score then some min_score else none

unfoldable pub search_request : Vector → ℤ → ℤ → SearchRequest
search_request vector top_k min_score = record {
  vector = vector;
  limit = top_k;
  score_threshold = threshold min_score;
}

-- `Search` on the client of a Qdrant endpoint.
unfoldable pub search_points : Services → Text → Text → Vector → ℤ → ℤ → Option (List SearchResult)
unfolding ok_body search_request
search_points s endpoint collection vector top_k min_score =
    bind (s.encode_search (search_request vector top_k min_score)) (λ body.
      bind
        (s.post (endpoint ++ (text "/collections/" ++ (collection ++ text "/points/search"))) body)
        (λ reply. bind (ok_body reply) s.decode_search))

abbrev pub collection_or : Text → Text → Text
collection_or standard [] = standard
collection_or standard (c ∷ name) = c ∷ name

unfoldable pub results_for : Services → Middleware → Vector → Option (List SearchResult)
unfolding search_points
results_for s m vector =
    search_points s m.qdrant (collection_or (text "knowledge_graph") m.cfg.collection) vector
      (if leb_ℤ m.cfg.top_k (pos 0) then pos 5 else m.cfg.top_k) m.cfg.min_score

-- The request with the context block in front.
unfoldable pub with_context : Format → ChatRequest → List SearchResult → ChatRequest
unfolding prepend_system_context capped build_context_block
with_context format req results = record req {
  messages = prepend_system_context req.messages (capped (build_context_block format results));
}

-- The body to send on, `none` where the code returns the body it was given.
abbrev pub changed_body : Services → ChatRequest → List SearchResult → Option Text
changed_body s req [] = none
changed_body s req (r ∷ rs) = s.encode_chat (with_context s.format req (r ∷ rs))

unfoldable pub changed_for : Services → Middleware → ChatRequest → Option Text
unfolding embed results_for last_user_message with_context
changed_for s m req =
    if is_empty (last_user_message req.messages)
    then none
    else bind (embed s m.cfg (last_user_message req.messages))
        (λ vector. bind (results_for s m vector) (changed_body s req))

abbrev pub text_or : Text → Option Text → Text
text_or body none = body
text_or body (some out) = out

unfoldable pub inject_context : Services → Middleware → Text → Text
unfolding changed_for
inject_context s m body =
    if m.cfg.enabled then text_or body (bind (s.decode_chat body) (changed_for s m)) else body
