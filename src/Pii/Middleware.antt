-- ===== src/Pii/Middleware.antt =====
-- The handler that scans requests and responses (internal/pii/middleware.go). The next handler is an
-- argument: what it answers to a request. The bodies of error answers are not modelled.
use hive_mind_fusion.Prelude.{
  ℕ, Text, text, same, is_empty, Map, lookup, Option, none, some, if◌then◌else◌,
}
use hive_mind_fusion.Pii.{
  Direction, input, output, ScanResponse, Shield, Client, ScanResult, scanned, refused, ScanError,
  scan,
}

-- The body of a request: none at all, one that fails to be read, or its bytes.
pub data Body : Type 0 where
  absent : Body
  unreadable : Body
  bytes : Text → Body

pub record Request : Type 0 where
  pub header : Map Text
  pub body : Body

-- What the recorder has of the next handler's answer, and what the client gets.
pub record Response : Type 0 where
  pub status : ℕ
  pub body : Text

pub data Reply : Type 0 where
  sent : Response → Reply
  bad_request : Reply
  forbidden : Direction → Reply
  service_unavailable : Direction → ScanError → Reply

-- A shield and two readings of the clock for each scan.
pub record Scans : Type 0 where
  pub shield_in : Shield
  pub shield_out : Shield
  pub now_in : ℕ
  pub later_in : ℕ
  pub now_out : ℕ
  pub later_out : ℕ

abbrev pub text_or_unknown : Option Text → Text
text_or_unknown none = text "__unknown__"
text_or_unknown (some v) = if is_empty v then text "__unknown__" else v

unfoldable pub agent_id : Request → Text
agent_id r = text_or_unknown (lookup (text "X-HiveMind-Consumer") r.header)

-- What the decision makes of a body: nothing for "block", the shield's text for "redact", and the body
-- itself for any other decision.
unfoldable pub filtered : Text → ScanResponse → Option Text
filtered raw s =
    if same s.decision (text "block")
    then none
    else some (if same s.decision (text "redact") then s.sanitized_text else raw)

-- The outcome of scanning one body.
pub data Scanned : Type 0 where
  passed : Text → Scanned
  blocked : Scanned
  failed : ScanError → Scanned

abbrev pub verdict : Text → ScanResult → Scanned
verdict raw (refused e) = failed e
verdict raw (scanned s) = elim (filtered raw s) [ none ↦ blocked | some body ↦ passed body ]

-- An empty body is not scanned.
unfoldable pub scan_body : Shield → ℕ → ℕ → Text → Direction → Text → Client → Client × Scanned
scan_body shield now later agent direction raw c =
    if is_empty raw
    then (c, passed raw)
    else let (c', result) =
        scan shield now later (record { agent_id = agent; direction = direction; content = raw })
          c in
      (c', verdict raw result)

-- The client after both scans, the request that the next handler got (`none` if it was not called),
-- and the reply.
pub record Handled : Type 0 where
  pub client : Client
  pub forwarded : Option Request
  pub reply : Reply

abbrev pub reply_of : Response → Scanned → Reply
reply_of answer (passed body) = sent (record answer { body = body })
reply_of answer blocked = forbidden output
reply_of answer (failed e) = service_unavailable output e

unfoldable pub respond : Scans → Text → Response → Client → Client × Reply
respond s agent answer c =
    let (c', out) = scan_body s.shield_out s.now_out s.later_out agent output answer.body c in
    (c', reply_of answer out)

unfoldable pub forward : Scans → (Request → Response) → Text → Request → Client → Handled
forward s next agent r c =
    let (c', reply) = respond s agent (next r) c in
    record { client = c'; forwarded = some r; reply = reply }

abbrev pub stopped : Client → Reply → Handled
stopped c reply = record { client = c; forwarded = none; reply = reply }

abbrev pub forward_or_stop : Scans → (Request → Response) → Request → Client → Scanned → Handled
forward_or_stop s next r c (passed body) =
    forward s next (agent_id r) (record r { body = bytes body }) c
forward_or_stop s next r c blocked = stopped c (forbidden input)
forward_or_stop s next r c (failed e) = stopped c (service_unavailable input e)

unfoldable pub handle_bytes : Scans → (Request → Response) → Request → Text → Client → Handled
handle_bytes s next r raw c =
    let (c', out) = scan_body s.shield_in s.now_in s.later_in (agent_id r) input raw c in
    forward_or_stop s next r c' out

abbrev pub dispatch : Body → Scans → (Request → Response) → Request → Client → Handled
dispatch absent s next r c = forward s next (agent_id r) r c
dispatch unreadable s next r c = stopped c bad_request
dispatch (bytes raw) s next r c = handle_bytes s next r raw c

unfoldable pub handle : Scans → (Request → Response) → Request → Client → Handled
handle s next r c = dispatch r.body s next r c
