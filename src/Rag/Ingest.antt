-- ===== src/Rag/Ingest.antt =====
-- Ingestion of documents (internal/rag/ingest.go). A run gives the HTTP calls it made, in order, and its
-- result. `content` is the Go field `Text` of a document, a request or a point. The services, the JSON codecs, the random ids and the clock are arguments.
use hive_mind_fusion.Prelude.{
  ℕ, suc, ◌*◌, ◌==◌, leb, Text, text, same, is_empty, has_prefix, Bool, List, [], ◌∷◌, ◌++◌, Option,
  none, some, if◌then◌else◌, length, take,
}
use hive_mind_fusion.Config.{Config, Embed, Qdrant}
use hive_mind_fusion.Rag.Inject.{Reply, Vector, collection_or}

pub record IngestDoc : Type 0 where
  pub content : Text
  pub source : Text
  pub consumer : Text

pub record IngestRequest : Type 0 where
  pub documents : List IngestDoc
  pub content : Text
  pub source : Text
  pub consumer : Text

pub data IngestError : Type 0 where
  parsing_multipart : IngestError
  reading_file_field : IngestError
  reading_file_content : IngestError
  reading_body : IngestError
  invalid_json : IngestError
  no_text_or_documents : IngestError
  embedding_doc : Text → IngestError
  marshaling_upsert : IngestError
  qdrant_upsert : IngestError
  qdrant_status : ℕ → Text → IngestError

pub data Result (A : Type 0) : Type 0 where
  ok : A → Result A
  failed : IngestError → Result A

-- An HTTP call, its URL and its body.
pub data Call : Type 0 where
  post : Text → Text → Call
  put : Text → Text → Call

abbrev pub Run : Type 0 → Type 0
Run A = List Call × Result A

abbrev pub after_calls : {A : Type 0} → List Call → Run A → Run A
after_calls calls (more, r) = (calls ++ more, r)

infixl 10 ◌>>=◌
abbrev pub ◌>>=◌ : {A B : Type 0} → Run A → (A → Run B) → Run B
(calls, ok a) >>= f = after_calls calls (f a)
(calls, failed e) >>= f = (calls, failed e)

-- A point of the upsert with the four fields of its payload.
pub record QdrantPoint : Type 0 where
  pub id : ℕ
  pub vector : Vector
  pub content : Text
  pub source : Text
  pub consumer : Text
  pub timestamp : Text

pub record EmbedPrompt : Type 0 where
  pub model : Text
  pub prompt : Text

-- `send` takes the number of documents before the call. `draw` and `clock` are the random id and the time of
-- each document.
pub record Services : Type 0 where
  pub send : ℕ → Call → Option Reply
  pub encode_prompt : EmbedPrompt → Option Text
  pub decode_embedding : Text → Option Vector
  pub encode_upsert : List QdrantPoint → Option Text
  pub decode_request : Text → Option IngestRequest
  pub draw : ℕ → ℕ
  pub clock : ℕ → Text

pub record Ingester : Type 0 where
  pub embed : Embed
  pub qdrant : Qdrant

unfoldable pub new_ingester : Config → Ingester
new_ingester cfg = record { embed = cfg.embed; qdrant = cfg.qdrant }

-- A request with what its form and its body read as: `none` for an error.
pub record IngestHttp : Type 0 where
  pub method : Text
  pub content_type : Text
  pub multipart_ok : Bool
  pub form_value : Text → Text
  pub file : Option (Option Text)
  pub body : Option Text

unfoldable pub limit : Text → Text
limit content = take (32 * 1_048_576) content

abbrev pub file_doc : IngestHttp → Option (Option Text) → Result (List IngestDoc)
file_doc r none = failed reading_file_field
file_doc r (some none) = failed reading_file_content
file_doc r (some (some content)) = ok (
    record {
      content = limit content;
      source = r.form_value (text "source");
      consumer = r.form_value (text "consumer");
    }
    ∷ [])

abbrev pub docs_of : IngestRequest → Result (List IngestDoc)
docs_of req = elim req.documents [
  | d ∷ ds ↦ ok (d ∷ ds)
  | [] ↦
      if is_empty req.content
      then failed no_text_or_documents
      else ok (record { content = req.content; source = req.source; consumer = req.consumer } ∷ [])
]

abbrev pub decoded_docs : Option IngestRequest → Result (List IngestDoc)
decoded_docs none = failed invalid_json
decoded_docs (some req) = docs_of req

abbrev pub json_docs : Services → Option Text → Result (List IngestDoc)
json_docs s none = failed reading_body
json_docs s (some body) = decoded_docs (s.decode_request (limit body))

unfoldable pub parse_request : Services → IngestHttp → Result (List IngestDoc)
unfolding has_prefix text limit
parse_request s r =
    if has_prefix (text "multipart/form-data") r.content_type
    then (if r.multipart_ok then file_doc r r.file else failed parsing_multipart)
    else json_docs s r.body

abbrev pub embedding_of : IngestError → Option Vector → Result Vector
embedding_of e none = failed e
embedding_of e (some []) = failed e
embedding_of e (some (x ∷ v)) = ok (x ∷ v)

abbrev pub decoded_embedding : Services → IngestError → Option Text → Result Vector
decoded_embedding s e none = failed e
decoded_embedding s e (some answer) = embedding_of e (s.decode_embedding answer)

-- The body of a reply with status 200, if there is a reply.
abbrev pub ok_body_of : Option Reply → Option Text
ok_body_of none = none
ok_body_of (some r) = if r.status == 200 then some r.body else none

abbrev pub send_prompt : Services → ℕ → IngestError → Text → Option Text → Run Vector
send_prompt s i e url none = ([], failed e)
send_prompt s i e url (some body) =
    (post url body ∷ [], decoded_embedding s e (ok_body_of (s.send i (post url body))))

-- `getEmbedding`, with the error that the caller makes of any of its errors.
unfoldable pub get_embedding : Services → ℕ → IngestError → Text → Text → Text → Run Vector
unfolding text
get_embedding s i e endpoint model prompt =
    send_prompt s i e (endpoint ++ text "/api/embeddings")
      (s.encode_prompt (record { model = model; prompt = prompt }))

abbrev pub point_of : Services → ℕ → IngestDoc → Vector → QdrantPoint
point_of s i doc vector = record {
  id = s.draw i;
  vector = vector;
  content = doc.content;
  source = doc.source;
  consumer = doc.consumer;
  timestamp = s.clock i;
}

-- The loop over the documents, from this index on.
unfoldable pub embed_docs : Services → Text → Text → ℕ → List IngestDoc → Run (List QdrantPoint)
unfolding get_embedding
embed_docs s endpoint model i [] = ([], ok [])
embed_docs s endpoint model i (doc ∷ docs) =
    get_embedding s i (embedding_doc doc.source) endpoint model doc.content >>= (λ vector.
      embed_docs s endpoint model (suc i) docs
      >>= (λ points. ([], ok (point_of s i doc vector ∷ points))))

abbrev pub after_upsert : ℕ → Option Reply → Result ℕ
after_upsert n none = failed qdrant_upsert
after_upsert n (some r) = if leb 300 r.status then failed (qdrant_status r.status r.body) else ok n

abbrev pub send_upsert : Services → Text → ℕ → Option Text → Run ℕ
send_upsert s url n none = ([], failed marshaling_upsert)
send_upsert s url n (some body) = (put url body ∷ [], after_upsert n (s.send n (put url body)))

unfoldable pub points_url : Ingester → Text
unfolding text
points_url ing =
    ing.qdrant.endpoint
    ++ (text "/collections/"
        ++ (collection_or (text "hivemind") ing.qdrant.collection ++ text "/points"))

unfoldable pub upsert : Services → Ingester → List QdrantPoint → Run ℕ
unfolding points_url
upsert s ing points = send_upsert s (points_url ing) (length points) (s.encode_upsert points)

unfoldable pub ingest_docs : Services → Ingester → List IngestDoc → Run ℕ
unfolding embed_docs upsert
ingest_docs s ing docs =
    embed_docs s (collection_or (text "http://localhost:11434") ing.embed.endpoint)
      (collection_or (text "qwen2.5:0.5b") ing.embed.model) 0 docs
    >>= upsert s ing

-- The answer of the handler: 405 in plain text, or the status and the JSON object.
pub data Answer : Type 0 where
  method_not_allowed : Answer
  no_documents : Answer
  bad_request : IngestError → Answer
  server_error : IngestError → Answer
  ingested : ℕ → Answer

abbrev pub status_of : Answer → ℕ
status_of method_not_allowed = 405
status_of no_documents = 400
status_of (bad_request e) = 400
status_of (server_error e) = 500
status_of (ingested n) = 200

abbrev pub answer_of : Run ℕ → List Call × Answer
answer_of (calls, ok n) = (calls, ingested n)
answer_of (calls, failed e) = (calls, server_error e)

abbrev pub serve_docs : Services → Ingester → Result (List IngestDoc) → List Call × Answer
serve_docs s ing (failed e) = ([], bad_request e)
serve_docs s ing (ok []) = ([], no_documents)
serve_docs s ing (ok (d ∷ ds)) = answer_of (ingest_docs s ing (d ∷ ds))

unfoldable pub serve_http : Services → Ingester → IngestHttp → List Call × Answer
unfolding ingest_docs parse_request
serve_http s ing r =
    if same r.method (text "POST")
    then serve_docs s ing (parse_request s r)
    else ([], method_not_allowed)
