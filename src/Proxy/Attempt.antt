-- ===== src/Proxy/Attempt.antt =====
-- One attempt at a backend (internal/gateway/proxy.go, `forwardAttempt`).
use hive_mind_fusion.Prelude.{
  get_header, ℕ, ◌==◌, Text, text, same, is_empty, has_prefix, lookup, insert, lookup-insert,
  keep_keys, Bool, true, false, not, ◌&&◌, ◌||◌, [], ◌∷◌, ◌++◌, Option, none, some, if◌then◌else◌,
  ◌≡◌, refl, arith, Option-cases, inl, inr, same_refl,
}
use hive_mind_fusion.Config.{Backend}
use hive_mind_fusion.Proxy.{Request, Response, Target, Outgoing, Check, World}

abbrev pub behind : ℕ → Option (Text × Text) → Option (Text × Text)
behind c none = none
behind c (some (old, new)) = some (c ∷ old, new)

-- `strings.SplitN(rule, "=", 2)`: what stands before and behind the first "=".
unfoldable pub parse_path_rewrite : Text → Option (Text × Text)
parse_path_rewrite [] = none
parse_path_rewrite (c ∷ rule) =
    let rest = behind c (parse_path_rewrite rule) in if c == b'=' then some ([], rule) else rest

abbrev pub rewrite : Text → Option (Text × Text) → Text
rewrite path none = path
rewrite path (some (old, new)) = if same path old then new else path

unfoldable pub rewritten_path : Backend → Text → Text
rewritten_path b path =
    if is_empty b.path_rewrite then path else rewrite path (parse_path_rewrite b.path_rewrite)

-- The `Director`.
unfoldable pub direct : Backend → Target → Request → Outgoing
direct b target r =
    let header = keep_keys (λ k. not (same k (text "X-Forwarded-For"))) r.header in
    record {
      target = target;
      request = record {
        path = rewritten_path b r.path;
        header =
            if is_empty b.api_key
            then header
            else insert (text "Authorization") (text "Bearer " ++ b.api_key) header;
        body = r.body;
      };
    }

unfoldable pub is_complete : Option Check → Bool
is_complete none = false
is_complete (some c) = not (is_empty c.id || (is_empty c.object || c.choices == 0))

-- The headers that `ModifyResponse` sets.
unfoldable pub mark : Backend → Bool → Response → Response
mark b is_fallback resp =
    let header = insert (text "X-HiveMind-Backend") b.name resp.header in
    record resp {
      header = if is_fallback then insert (text "X-HiveMind-Fallback") b.name header else header;
    }

-- `ModifyResponse`; `none` is the error that sends the proxy to its error handler.
unfoldable pub modify_response :
    (Text → Option Check) → Bool → Backend → Bool → Response → Option Response
modify_response decode_check validation b is_fallback resp =
    let marked = mark b is_fallback resp in
    if validation
      && has_prefix (text "application/json") (get_header (text "Content-Type") marked.header)
    then (if is_complete (decode_check resp.body) then some marked else none)
    else some marked

-- The whole attempt; `none` is `*transportErr = true`, with nothing written to the client.
unfoldable pub forward_attempt : World → Bool → ℕ → Backend → Bool → Request → Option Response
forward_attempt w validation i b is_fallback r = elim (w.parse_url b.url) [
  | none ↦ none
  | some target ↦ elim (w.round_trip i (direct b target r)) [
    | none ↦ none
    | some resp ↦ modify_response w.decode_check validation b is_fallback resp
  ]
]

-- With validation on, a JSON answer that reaches the client has an id, an object and a choice.
abbrev pub IsChecked : World → Bool → Response → Type 0
IsChecked w validation resp =
    validation ≡ true
    → has_prefix (text "application/json") (get_header (text "Content-Type") resp.header) ≡ true
    → is_complete (w.decode_check resp.body) ≡ true

-- What the client can rely on in an answer that an attempt at this backend returns.
abbrev pub IsMarked : World → Bool → Backend → Bool → Response → Type 0
IsMarked w validation b is_fallback resp =
    (lookup (text "X-HiveMind-Backend") resp.header ≡ some b.name)
    × (is_fallback ≡ true → lookup (text "X-HiveMind-Fallback") resp.header ≡ some b.name)
    × IsChecked w validation resp

fallback-ne-backend : same (text "X-HiveMind-Fallback") (text "X-HiveMind-Backend") ≡ false
unfolding same text
fallback-ne-backend = refl

mark_lem :
    (b : Backend) (is_fallback : Bool) (resp : Response)
    → let h = (mark b is_fallback resp).header in
      (lookup (text "X-HiveMind-Backend") h ≡ some b.name)
      × (is_fallback ≡ true → lookup (text "X-HiveMind-Fallback") h ≡ some b.name)
      × ((mark b is_fallback resp).body ≡ resp.body)
      × ((mark b is_fallback resp).status ≡ resp.status)
unfolding mark
mark_lem b is_fallback resp = grind (arith, lookup-insert, same_refl, fallback-ne-backend)

modify_response-IsMarked :
    (w : World) (validation : Bool) (b : Backend) (is_fallback : Bool) (resp out : Response)
    → modify_response w.decode_check validation b is_fallback resp ≡ some out
    → IsMarked w validation b is_fallback out × (out.body ≡ resp.body) × (out.status ≡ resp.status)
unfolding modify_response
modify_response-IsMarked w validation b is_fallback resp out h =
    ground (arith, mark_lem b is_fallback resp)

-- An answer that an attempt returns came from a request that reached the backend; it has that
-- response's status and body, names the backend (as a fallback too, if it is one), and has passed the
-- validation.
forward_attempt-some :
    (w : World) (validation : Bool) (i : ℕ) (b : Backend) (is_fallback : Bool) (r : Request)
    (out : Response)
    → forward_attempt w validation i b is_fallback r ≡ some out
    → (target : Target) × (resp : Response) × (w.parse_url b.url ≡ some target)
      × (w.round_trip i (direct b target r) ≡ some resp)
      × IsMarked w validation b is_fallback out
      × (out.body ≡ resp.body)
      × (out.status ≡ resp.status)
unfolding forward_attempt
forward_attempt-some w validation i b is_fallback r out h =
    elim (Option-cases (w.parse_url b.url)) [
      | inl bad ↦ absurd (ground arith)
      | inr (target, parsed) ↦ elim (Option-cases (w.round_trip i (direct b target r))) [
        | inl lost ↦ absurd (ground arith)
        | inr (resp, came) ↦
            let (marked, body, status) =
              modify_response-IsMarked w validation b is_fallback resp out (ground arith) in
            (target, resp, parsed, came, marked, body, status)
      ]
    ]
