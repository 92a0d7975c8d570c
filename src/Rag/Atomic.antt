-- ===== src/Rag/Atomic.antt =====
-- All documents of a request are stored, or none is (internal/rag/ingest.go).
use hive_mind_fusion.Prelude.{
  ℕ, suc, leb, Text, text, is_empty, true, false, List, [], ◌∷◌, ◌++◌, append-nil, Option, none,
  some, length, length-append, All, All-append, ◌≡◌, refl, sym, ap, ◌⊎◌, inl, inr, arith,
  Bool-cases,
}
use hive_mind_fusion.Rag.Inject.{Reply, Vector, collection_or}
use hive_mind_fusion.Rag.Ingest.{
  IngestDoc, IngestError, embedding_doc, ok, failed, Call, post, put, Run, after_calls, ◌>>=◌,
  QdrantPoint, Services, Ingester, embedding_of, decoded_embedding, ok_body_of, send_prompt,
  get_embedding, point_of, embed_docs, after_upsert, send_upsert, points_url, upsert, ingest_docs,
}

abbrev pub IsPost : Call → Type 0
IsPost (post url body) = Unit
IsPost (put url body) = ⊥

-- The point of a document holds its three fields and an embedding with at least one number.
abbrev pub Stores : IngestDoc → QdrantPoint → Type 0
Stores doc p =
    (p.content ≡ doc.content)
    × (p.source ≡ doc.source)
    × (p.consumer ≡ doc.consumer)
    × (is_empty p.vector ≡ false)

abbrev pub StoresAll : List IngestDoc → List QdrantPoint → Type 0
StoresAll [] [] = Unit
StoresAll [] (p ∷ ps) = ⊥
StoresAll (d ∷ ds) [] = ⊥
StoresAll (d ∷ ds) (p ∷ ps) = Stores d p × StoresAll ds ps

-- What the result of a run holds, and that it made no call but POSTs.
abbrev Posts : {A : Type 0} → (A → List Call → Type 0) → Run A → Type 0
Posts P (calls, ok a) = All IsPost calls × P a calls
Posts P (calls, failed e) = All IsPost calls

Posts-after_calls :
    {A : Type 0} (P Q : A → List Call → Type 0) (calls : List Call) (run : Run A)
    → All IsPost calls
    → ((a : A) (more : List Call) → P a more → Q a (calls ++ more))
    → Posts P run
    → Posts Q (after_calls calls run)
Posts-after_calls P Q calls (more, ok a) h f (k, p) = (All-append IsPost calls more h k, f a more p)
Posts-after_calls P Q calls (more, failed e) h f k = All-append IsPost calls more h k

Embedded : Vector → List Call → Type 0
Embedded v calls = (is_empty v ≡ false) × (length calls ≡ 1)

Posts-embedding_of :
    (e : IngestError) (url body : Text) (o : Option Vector)
    → Posts Embedded (post url body ∷ [], embedding_of e o)
unfolding Embedded
Posts-embedding_of e url body none = (tt, tt)
Posts-embedding_of e url body (some []) = (tt, tt)
Posts-embedding_of e url body (some (x ∷ v)) = ((tt, tt), (refl, refl))

Posts-decoded_embedding :
    (s : Services) (e : IngestError) (url body : Text) (o : Option Text)
    → Posts Embedded (post url body ∷ [], decoded_embedding s e o)
Posts-decoded_embedding s e url body none = (tt, tt)
Posts-decoded_embedding s e url body (some answer) =
    Posts-embedding_of e url body (s.decode_embedding answer)

Posts-send_prompt :
    (s : Services) (i : ℕ) (e : IngestError) (url : Text) (o : Option Text)
    → Posts Embedded (send_prompt s i e url o)
Posts-send_prompt s i e url none = tt
Posts-send_prompt s i e url (some body) =
    Posts-decoded_embedding s e url body (ok_body_of (s.send i (post url body)))

Posts-get_embedding :
    (s : Services) (i : ℕ) (e : IngestError) (endpoint model prompt : Text)
    → Posts Embedded (get_embedding s i e endpoint model prompt)
unfolding get_embedding
Posts-get_embedding s i e endpoint model prompt =
    Posts-send_prompt s i e (endpoint ++ text "/api/embeddings")
      (s.encode_prompt (record { model = model; prompt = prompt }))

EmbeddedAll : List IngestDoc → List QdrantPoint → List Call → Type 0
EmbeddedAll docs points calls =
    StoresAll docs points × (length points ≡ length docs) × (length calls ≡ length docs)

Posts->>= :
    {A B : Type 0} (P : A → List Call → Type 0) (Q : B → List Call → Type 0) (run : Run A)
    (f : A → Run B)
    → Posts P run
    → ((a : A) (calls : List Call)
        → P a calls
        → Posts (λ (b : B) (more : List Call). Q b (calls ++ more)) (f a))
    → Posts Q (run >>= f)
Posts->>= P Q (calls, failed e) f h k = h
Posts->>= P Q (calls, ok a) f (h, p) k =
    Posts-after_calls (λ b more. Q b (calls ++ more)) Q calls (f a) h (λ b more q. q) (k a calls p)

EmbeddedAll-cons :
    (s : Services) (i : ℕ) (doc : IngestDoc) (docs : List IngestDoc) (v : Vector)
    (points : List QdrantPoint) (calls more : List Call)
    → Embedded v calls
    → EmbeddedAll docs points more
    → EmbeddedAll (doc ∷ docs) (point_of s i doc v ∷ points) (calls ++ (more ++ []))
unfolding EmbeddedAll Embedded
EmbeddedAll-cons s i doc docs v points calls more (h, one) (stored, size, count) = (
  ((refl, refl, refl, h), stored),
  ap suc size,
  omega (arith, one, count, length-append calls (more ++ []), length-append more []),
)

Posts-embed_docs :
    (s : Services) (endpoint model : Text) (i : ℕ) (docs : List IngestDoc)
    → Posts (EmbeddedAll docs) (embed_docs s endpoint model i docs)
unfolding embed_docs EmbeddedAll
Posts-embed_docs s endpoint model i [] = (tt, (tt, refl, refl))
Posts-embed_docs s endpoint model i (doc ∷ docs) =
    let rest = Posts-embed_docs s endpoint model (suc i) docs in
    let tail = embed_docs s endpoint model (suc i) docs in
    Posts->>= Embedded (EmbeddedAll (doc ∷ docs))
      (get_embedding s i (embedding_doc doc.source) endpoint model doc.content)
      (λ v. tail >>= (λ points. ([], ok (point_of s i doc v ∷ points))))
      (Posts-get_embedding s i (embedding_doc doc.source) endpoint model doc.content)
      (λ v calls one.
        Posts->>= (EmbeddedAll docs) (λ ps more. EmbeddedAll (doc ∷ docs) ps (calls ++ more)) tail
          (λ points. ([], ok (point_of s i doc v ∷ points))) rest
          (λ points more all. (tt, EmbeddedAll-cons s i doc docs v points calls more one all)))

abbrev pub Accepted : Services → ℕ → Call → Type 0
Accepted s i call = (reply : Reply) × (s.send i call ≡ some reply) × (leb 300 reply.status ≡ false)

abbrev pub Refused : Services → ℕ → Call → Type 0
Refused s i call =
    (s.send i call ≡ none)
    ⊎ ((reply : Reply) × (s.send i call ≡ some reply) × (leb 300 reply.status ≡ true))

-- One POST for each document and then one PUT, which carries a point for each document.
abbrev pub PutsAll : Services → Ingester → List IngestDoc → List Call → Text → Type 0
PutsAll s ing docs calls body =
    (posts : List Call) × (points : List QdrantPoint) × (calls
      ≡ posts ++ put (points_url ing) body ∷ [])
    × All IsPost posts
    × (length posts ≡ length docs)
    × StoresAll docs points
    × (s.encode_upsert points ≡ some body)

-- What a run of `ingestDocs` did.
abbrev pub Outcome : Services → Ingester → List IngestDoc → Run ℕ → Type 0
Outcome s ing docs (calls, ok n) =
    (n ≡ length docs)
    × ((body : Text) × PutsAll s ing docs calls body
        × Accepted s (length docs) (put (points_url ing) body))
Outcome s ing docs (calls, failed e) =
    All IsPost calls
    ⊎ ((body : Text) × PutsAll s ing docs calls body
        × Refused s (length docs) (put (points_url ing) body))

Outcome-after_upsert :
    (s : Services) (ing : Ingester) (docs : List IngestDoc) (calls : List Call) (body : Text)
    (n : ℕ) (o : Option Reply)
    → n ≡ length docs
    → PutsAll s ing docs calls body
    → s.send (length docs) (put (points_url ing) body) ≡ o
    → Outcome s ing docs (calls, after_upsert n o)
Outcome-after_upsert s ing docs calls body n none size all sent = inr (body, all, inl sent)
Outcome-after_upsert s ing docs calls body n (some r) size all sent =
    elim (Bool-cases (leb 300 r.status)) [
      | inl y ↦ rw y (inr (body, all, inr (r, sent, y)))
      | inr m ↦ rw m (size, (body, all, (r, sent, m)))
    ]

Outcome-upsert :
    (s : Services) (ing : Ingester) (docs : List IngestDoc) (posts : List Call)
    (points : List QdrantPoint) (o : Option Text)
    → All IsPost posts
    → length posts ≡ length docs
    → length points ≡ length docs
    → StoresAll docs points
    → s.encode_upsert points ≡ o
    → Outcome s ing docs (after_calls posts (send_upsert s (points_url ing) (length points) o))
Outcome-upsert s ing docs posts points none h count size all e = inl (rw (append-nil posts) h)
Outcome-upsert s ing docs posts points (some body) h count size all e =
    Outcome-after_upsert s ing docs (posts ++ put (points_url ing) body ∷ []) body (length points)
      (s.send (length points) (put (points_url ing) body)) size
      (posts, points, refl, h, count, all, e)
      (ap (λ (k : ℕ). s.send k (put (points_url ing) body)) (sym size))

Outcome->>= :
    (s : Services) (ing : Ingester) (docs : List IngestDoc) (run : Run (List QdrantPoint))
    → Posts (EmbeddedAll docs) run
    → Outcome s ing docs (run >>= upsert s ing)
unfolding EmbeddedAll upsert
Outcome->>= s ing docs (calls, failed e) h = inl h
Outcome->>= s ing docs (calls, ok points) (h, (stored, size, count)) =
    Outcome-upsert s ing docs calls points (s.encode_upsert points) h count size stored refl

-- For each list of documents: if the run succeeds, it reports their number, and it made one POST for each, then one PUT with the
-- encoding of a point for each document, which holds its fields and an embedding that is not empty, and the PUT got a
-- reply with a status below 300. If it fails, it made no call but POSTs, or such a PUT was its last call and got no reply or
-- a status of at least 300.
pub ingest_docs-Outcome :
    (s : Services) (ing : Ingester) (docs : List IngestDoc)
    → Outcome s ing docs (ingest_docs s ing docs)
unfolding ingest_docs
ingest_docs-Outcome s ing docs =
    let endpoint = collection_or (text "http://localhost:11434") ing.embed.endpoint in
    let model = collection_or (text "qwen2.5:0.5b") ing.embed.model in
    Outcome->>= s ing docs (embed_docs s endpoint model 0 docs)
      (Posts-embed_docs s endpoint model 0 docs)
