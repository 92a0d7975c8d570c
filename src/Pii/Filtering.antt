-- ===== src/Pii/Filtering.antt =====
-- Nothing passes the middleware unscanned (internal/pii/middleware.go).
use hive_mind_fusion.Prelude.{
  ℕ, Text, text, same, same_iff, is_empty, false, [], some, if◌then◌else◌, ◌≡◌, ◌≢◌, ◌⊎◌, inl, inr,
  refl, arith, Bool-cases, ◌∙◌,
}
use hive_mind_fusion.Pii.{
  Direction, input, output, ScanRequest, ScanResponse, responded, Shield, Client, ScanResult,
  scanned, refused, scan, after_post, record_failure, record_success,
}
use hive_mind_fusion.Pii.Middleware.{
  Body, absent, unreadable, bytes, Request, Response, sent, Scans, agent_id, filtered, Scanned,
  passed, blocked, failed, verdict, scan_body, reply_of, forward_or_stop, Handled, respond, forward,
  handle_bytes, dispatch, handle,
}

-- The shield saw this text and let it through as `out`: unchanged, or replaced by its own text.
abbrev pub IsCleared : Shield → Text → Direction → Text → Text → Type 0
IsCleared shield agent direction raw out =
    ((raw ≡ []) × (out ≡ []))
    ⊎ ((s : ScanResponse) × (shield
            (record { agent_id = agent; direction = direction; content = raw })
          ≡ responded s)
        × (s.decision ≢ text "block")
        × (out ≡ (if same s.decision (text "redact") then s.sanitized_text else raw)))

scan-scanned :
    (shield : Shield) (now later : ℕ) (r : ScanRequest) (c : Client) (s : ScanResponse)
    → c.bypass_on_failure ≡ false
    → (scan shield now later r c).1 ≡ scanned s
    → shield r ≡ responded s
unfolding scan after_post
scan-scanned shield now later r c s strict h = ground arith

scan-bypass :
    (shield : Shield) (now later : ℕ) (r : ScanRequest) (c : Client)
    → (scan shield now later r c).0.bypass_on_failure ≡ c.bypass_on_failure
unfolding scan after_post record_failure record_success
scan-bypass shield now later r c = ground arith

verdict-passed :
    (raw out : Text) (result : ScanResult)
    → verdict raw result ≡ passed out
    → (s : ScanResponse) × (result ≡ scanned s)
      × (s.decision ≢ text "block")
      × (out ≡ (if same s.decision (text "redact") then s.sanitized_text else raw))
unfolding filtered
verdict-passed raw out (refused e) h = cc
verdict-passed raw out (scanned s) h =
    (s, refl, ground (arith, same_iff s.decision (text "block")), ground arith)

module _ (shield : Shield) (now later : ℕ) (agent : Text) (direction : Direction) (raw : Text)
    (c : Client) where
  scan_body-passed :
      (out : Text)
      → c.bypass_on_failure ≡ false
      → (scan_body shield now later agent direction raw c).1 ≡ passed out
      → IsCleared shield agent direction raw out
  unfolding scan_body
  scan_body-passed out strict h = elim (Bool-cases (is_empty raw)) [
    | inl nothing ↦ inl (ground arith, ground arith)
    | inr more ↦
        let r : ScanRequest = record { agent_id = agent; direction = direction; content = raw } in
        let (s, e, fine, made) =
          verdict-passed raw out (scan shield now later r c).1 (ground arith) in
        inr (s, scan-scanned shield now later r c s strict e, fine, made)
  ]

  scan_body-bypass :
      (scan_body shield now later agent direction raw c).0.bypass_on_failure ≡ c.bypass_on_failure
  unfolding scan_body
  scan_body-bypass = ground (
    arith,
    scan-bypass shield now later (record { agent_id = agent; direction = direction; content = raw })
        c,
  )

-- The request `r'` that the next handler gets for `r`.
abbrev pub IsForwarded : Scans → Request → Request → Type 0
IsForwarded s r r' =
    ((r.body ≡ absent) × (r' ≡ r))
    ⊎ ((raw : Text) × (out : Text) × (r.body ≡ bytes raw)
        × (r' ≡ record r { body = bytes out })
        × IsCleared s.shield_in (agent_id r) input raw out)

reply_of-sent :
    (answer got : Response) (out : Scanned)
    → reply_of answer out ≡ sent got
    → (body : Text) × (out ≡ passed body) × (got ≡ record answer { body = body })
reply_of-sent answer got (passed body) h = (body, refl, ground arith)
reply_of-sent answer got blocked h = cc
reply_of-sent answer got (failed e) h = cc

module _ (s : Scans) (next : Request → Response) (r : Request) where
  -- A forwarded request and the reply to it.
  abbrev pub IsClean : Handled → Type 0
  IsClean h =
      (r' : Request)
      → h.forwarded ≡ some r'
      → IsForwarded s r r'
        × ((answer : Response)
            → h.reply ≡ sent answer
            → (answer.status ≡ (next r').status)
              × IsCleared s.shield_out (agent_id r) output (next r').body answer.body)

  respond-sent :
      (r' : Request) (c : Client) (answer : Response)
      → c.bypass_on_failure ≡ false
      → (respond s (agent_id r) (next r') c).1 ≡ sent answer
      → (answer.status ≡ (next r').status)
        × IsCleared s.shield_out (agent_id r) output (next r').body answer.body
  unfolding respond
  respond-sent r' c answer strict h =
      let out =
        (scan_body s.shield_out s.now_out s.later_out (agent_id r) output (next r').body c).1 in
      let (body, e, made) = reply_of-sent (next r') answer out h in
      (
        rw made,
        rw made (
            scan_body-passed s.shield_out s.now_out s.later_out (agent_id r) output (next r').body c
              body strict e),
      )

  forward-IsClean :
      (r' : Request) (c : Client)
      → c.bypass_on_failure ≡ false
      → IsForwarded s r r'
      → IsClean (forward s next (agent_id r) r' c)
  unfolding forward
  forward-IsClean r' c strict f q e =
      let same_request : r' ≡ q = cc in
      (rw same_request at f, λ answer h. respond-sent q c answer strict (rw (← same_request) h))

  forward_or_stop-IsClean :
      (raw : Text) (c : Client) (out : Scanned)
      → c.bypass_on_failure ≡ false
      → r.body ≡ bytes raw
      → ((body : Text) → out ≡ passed body → IsCleared s.shield_in (agent_id r) input raw body)
      → IsClean (forward_or_stop s next r c out)
  forward_or_stop-IsClean raw c (passed body) strict given cleared =
      forward-IsClean (record r { body = bytes body }) c strict
        (inr (raw, body, given, refl, cleared body refl))
  forward_or_stop-IsClean raw c blocked strict given cleared = λ q e. absurd (ground arith)
  forward_or_stop-IsClean raw c (failed x) strict given cleared = λ q e. absurd (ground arith)

  dispatch-IsClean :
      (body : Body) (c : Client)
      → c.bypass_on_failure ≡ false
      → r.body ≡ body
      → IsClean (dispatch body s next r c)
  unfolding handle_bytes
  dispatch-IsClean absent c strict given = forward-IsClean r c strict (inl (given, refl))
  dispatch-IsClean unreadable c strict given = λ q e. absurd (ground arith)
  dispatch-IsClean (bytes raw) c strict given =
      let scan_in = scan_body s.shield_in s.now_in s.later_in (agent_id r) input raw c in
      forward_or_stop-IsClean raw scan_in.0 scan_in.1
        (scan_body-bypass s.shield_in s.now_in s.later_in (agent_id r) input raw c ∙ strict) given
        (λ body e.
          scan_body-passed s.shield_in s.now_in s.later_in (agent_id r) input raw c body strict e)

-- With no bypass on failure, nothing passes unscanned. The next handler is called only with a request
-- whose body is empty, or was given to the shield and not blocked: it gets that body, or the shield's
-- text for "redact". The client gets an answer of the next handler only with its status, and with a
-- body that is empty or was given to the shield and not blocked, or the shield's text for it.
pub handle-IsClean :
    (s : Scans) (next : Request → Response) (r : Request) (c : Client)
    → c.bypass_on_failure ≡ false
    → IsClean s next r (handle s next r c)
unfolding handle
handle-IsClean s next r c strict = dispatch-IsClean s next r r.body c strict refl
