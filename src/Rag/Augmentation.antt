-- ===== src/Rag/Augmentation.antt =====
-- What the injection of context does to a request (internal/rag/middleware.go, `InjectContext`).
use mathlib.Core.Option.{bind, bind-eq-some_iff}
use mathlib.Core.List.{reverse-cons}
use hive_mind_fusion.Prelude.{
  Text, text, same, same_iff, same_refl, is_empty, true, false, List, [], ◌∷◌, ◌++◌, some, reverse,
  ◌≡◌, refl, sym, ap, ◌∙◌, ◌⊎◌, inl, inr, arith, Bool-cases, Option-cases,
}
use hive_mind_fusion.Rag.{ChatMessage, SearchResult}
use hive_mind_fusion.Rag.Context.{prepend_system_context, capped, build_context_block}
use hive_mind_fusion.Rag.Inject.{
  Services, Middleware, ChatRequest, Vector, find_user, last_user_message, with_context,
  changed_body, changed_for, embed, results_for, inject_context,
}

find_user-append :
    (ms : List ChatMessage) (m : ChatMessage)
    → same m.role (text "user") ≡ false
    → find_user (ms ++ m ∷ []) ≡ find_user ms
unfolding find_user
find_user-append [] m h = rw h refl
find_user-append (n ∷ ms) m h = ground (arith, find_user-append ms m h)

last_user_message-cons :
    (m : ChatMessage) (ms : List ChatMessage)
    → same m.role (text "user") ≡ false
    → last_user_message (m ∷ ms) ≡ last_user_message ms
unfolding last_user_message
last_user_message-cons m ms h = ap find_user (reverse-cons m ms) ∙ find_user-append (reverse ms) m h

system-user : (role : Text) → same role (text "system") ≡ true → same role (text "user") ≡ false
unfolding same text
system-user role h = ap (λ (t : Text). same t (text "user")) ((same_iff role (text "system")).0 h)

pub last_user_message-prepend_system_context :
    (messages : List ChatMessage) (context : Text)
    → last_user_message (prepend_system_context messages context) ≡ last_user_message messages
unfolding prepend_system_context
last_user_message-prepend_system_context messages [] = refl
last_user_message-prepend_system_context [] (c ∷ context) =
    last_user_message-cons (record { role = text "system"; content = c ∷ context }) []
      (system-user (text "system") (same_refl (text "system")))
last_user_message-prepend_system_context (m ∷ ms) (c ∷ context) =
    elim (Bool-cases (same m.role (text "system"))) [
      | inl y ↦ rw y (
          last_user_message-cons (record m { content = (c ∷ context) ++ 10 ∷ 10 ∷ m.content }) ms
            (system-user m.role y)
          ∙ sym (last_user_message-cons m ms (system-user m.role y)))
      | inr n ↦ rw n (
          last_user_message-cons (record { role = text "system"; content = c ∷ context }) (m ∷ ms)
            (system-user (text "system") (same_refl (text "system"))))
    ]

-- What is sent on when a body is changed: the encoding of the decoded request with the context of these results.
abbrev pub Augmented : Services → Middleware → Text → Text → Type 0
Augmented s m body out =
    (req : ChatRequest) × (vector : Vector) × (r : SearchResult) × (rs : List SearchResult)
    × (s.decode_chat body ≡ some req)
    × (is_empty (last_user_message req.messages) ≡ false)
    × (embed s m.cfg (last_user_message req.messages) ≡ some vector)
    × (results_for s m vector ≡ some (r ∷ rs))
    × (s.encode_chat (with_context s.format req (r ∷ rs)) ≡ some out)
    × (last_user_message (with_context s.format req (r ∷ rs)).messages
        ≡ last_user_message req.messages)

changed_body-some :
    (s : Services) (req : ChatRequest) (results : List SearchResult) (out : Text)
    → changed_body s req results ≡ some out
    → (r : SearchResult) × (rs : List SearchResult) × (results ≡ r ∷ rs)
      × (s.encode_chat (with_context s.format req (r ∷ rs)) ≡ some out)
changed_body-some s req [] out h = absurd (ground arith)
changed_body-some s req (r ∷ rs) out h = (r, rs, refl, h)

changed_for-some :
    (s : Services) (m : Middleware) (body : Text) (req : ChatRequest) (out : Text)
    → s.decode_chat body ≡ some req
    → changed_for s m req ≡ some out
    → Augmented s m body out
unfolding changed_for with_context
changed_for-some s m body req out decoded =
    elim (Bool-cases (is_empty (last_user_message req.messages))) [
      | inl y ↦ rw y (λ h. absurd (ground (arith, h)))
      | inr n ↦ rw n (λ h.
          let (vector, embedded, searched) =
            (bind-eq-some_iff (embed s m.cfg (last_user_message req.messages))
                (λ v. bind (results_for s m v) (changed_body s req))).0
              h in
          let (results, found, changed) =
            (bind-eq-some_iff (results_for s m vector) (changed_body s req)).0 searched in
          let (r, rs, some_result, encoded) = changed_body-some s req results out changed in
          (
            req,
            vector,
            r,
            rs,
            decoded,
            n,
            embedded,
            found ∙ ap some some_result,
            encoded,
            last_user_message-prepend_system_context req.messages
                (capped (build_context_block s.format (r ∷ rs))),
          ))
    ]

-- For each middleware and body: with retrieval disabled the body goes on unchanged; else it goes on unchanged,
-- or it decoded as a request whose last message of the user was embedded, the search
-- with that vector gave at least one result, what goes on is the encoding of that request with the context of the
-- results, and the last message of the user is the same in both requests.
pub inject_context_lem :
    (s : Services) (m : Middleware) (body : Text)
    → (inject_context s m body ≡ body)
      ⊎ ((m.cfg.enabled ≡ true) × Augmented s m body (inject_context s m body))
unfolding inject_context
inject_context_lem s m body = elim (Bool-cases m.cfg.enabled) [
  | inr n ↦ rw n (inl refl)
  | inl y ↦ rw y (elim (Option-cases (bind (s.decode_chat body) (changed_for s m))) [
    | inl nothing ↦ rw nothing (inl refl)
    | inr (out, e) ↦
        let (req, decoded, changed) =
          (bind-eq-some_iff (s.decode_chat body) (changed_for s m)).0 e in
        rw e (inr (refl, changed_for-some s m body req out decoded changed))
  ])
]

-- For each middleware with retrieval enabled and each body that decodes as a request with a message of
-- the user, when the embedding, the search and the encoding succeed and the search gives a result: what goes on
-- is the encoding of the request with the context of the results.
inject_context-Augmented :
    (s : Services) (m : Middleware) (body out : Text)
    → m.cfg.enabled ≡ true
    → Augmented s m body out
    → inject_context s m body ≡ out
unfolding inject_context changed_for bind
inject_context-Augmented s m body out enabled
      (req, vector, r, rs, decoded, asked, embedded, found, encoded, kept) =
    rw (enabled, decoded, asked, embedded, found, encoded) refl
