-- ===== src/Gateway.antt =====
-- The stack of handlers that `buildProxyHandler` of internal/gateway/gateway.go puts around the
-- routes: authentication, then the PII filter if it is enabled, then the rate limiter, then the
-- accounting. The routes are an argument: what they answer to a request, and the writes of that
-- answer with their Content-Type.
pub mod Order
pub mod Assembly
pub mod Reload
pub mod Accounts
pub mod Servers
pub mod Backends
pub mod Router
mod Tests
use hive_mind_fusion.Prelude.{[], ℕ, Text, text, ◌++◌, Map, List, Option, none, some}
use hive_mind_fusion.Auth.{Auth, Decision, unauthorized, proceed, decide}
use hive_mind_fusion.Pii.{Client}
use hive_mind_fusion.Pii.Middleware.{Request, Response, Reply, sent, Scans, handle, Handled}
use hive_mind_fusion.RateLimit.Limiter.{
  RateLimiter, Answer, forwarded, too_many, consumer_from_context, request,
}
use hive_mind_fusion.Consumer.{ConsumerTracker, account}

-- The state of the handlers; the PII client is `none` where the filter is disabled.
pub record Stack : Type 0 where
  pub auth : Auth
  pub pii : Option Client
  pub limiter : RateLimiter
  pub tracker : ConsumerTracker

-- What surrounds one request: the scans, the clock, the routes and the JSON decoder of the usage.
pub record Around : Type 0 where
  pub scans : Scans
  pub now : ℕ
  -- `none` where they panic, for instance with `http.ErrAbortHandler`.
  pub routes : Request → Option Response
  pub writes : Request → List (Text × Text)
  pub decode_usage : Text → Option (ℕ × ℕ)
  -- `%d` of the seconds to wait.
  pub format_seconds : Option ℕ → Text

-- 401, a panic that ends the connection, or what comes out of the handlers inside the
-- authentication.
pub data Outcome : Type 0 where
  rejected : Outcome
  aborted : Outcome
  replied : Reply → Outcome

abbrev pub outcome : Option Reply → Outcome
outcome none = aborted
outcome (some reply) = replied reply

abbrev pub sent_if : Option Response → Option Reply
sent_if none = none
sent_if (some resp) = some (sent resp)

-- What the PII filter's recorder has after the next handler: a panic leaves nothing to scan.
abbrev pub recorded : Option Response → Response
recorded none = record { status = 200; body = [] }
recorded (some resp) = resp

-- After a panic of the next handler the filter replies nothing.
abbrev pub unless_panic : Option Response → Reply → Option Reply
unless_panic none reply = none
unless_panic (some resp) reply = some reply

module _ (a : Around) where
  -- The limiter's answer becomes the routes' response or 429.
  abbrev pub limited_response : Answer → Request → Option Response
  limited_response forwarded r = a.routes r
  limited_response (too_many wait) r = some (record {
    status = 429;
    body =
        text "{\"error\":\"rate limit exceeded\",\"retry_after\":"
        ++ (a.format_seconds wait ++ text "}");
  })

  -- `Record` runs after the routes have returned.
  abbrev pub account_if : Option Response → Request → ConsumerTracker → ConsumerTracker
  account_if none r ct = ct
  account_if (some resp) r ct = account a.decode_usage a.now r.header (a.writes r) ct

  abbrev pub accounted : Answer → Request → ConsumerTracker → ConsumerTracker
  accounted forwarded r ct = account_if (a.routes r) r ct
  accounted (too_many wait) r ct = ct

  -- The limiter and what it wraps, for the identity that the authentication left.
  unfoldable pub serve_limited : Option Text → Request → Stack → Stack × Option Response
  serve_limited who r st =
      let (limiter, ans) = request a.now (consumer_from_context who) st.limiter in
      (
        record st { limiter = limiter; tracker = accounted ans r st.tracker },
        limited_response ans r,
      )

  abbrev pub after_filter : Option Text → Option Request → Stack → Stack
  after_filter who none st = st
  after_filter who (some r) st = (serve_limited who r st).0

  abbrev pub reply_after : Option Text → Option Request → Stack → Reply → Option Reply
  reply_after who none st reply = some reply
  reply_after who (some r) st reply = unless_panic (serve_limited who r st).1 reply

  -- The filter, where there is one, and what it wraps; no reply after a panic.
  abbrev pub serve_filtered : Option Client → Option Text → Request → Stack → Stack × Option Reply
  serve_filtered none who r st = let (st', resp) = serve_limited who r st in (st', sent_if resp)
  serve_filtered (some client) who r st =
      let h = handle a.scans (λ q. recorded (serve_limited who q st).1) r client in
      (
        record (after_filter who h.forwarded st) { pii = some h.client },
        reply_after who h.forwarded st h.reply,
      )

  abbrev pub serve_decided : Decision → Request → Stack → Stack × Outcome
  serve_decided unauthorized r st = (st, rejected)
  serve_decided (proceed who) r st =
      let (st', reply) = serve_filtered st.pii who r st in (st', outcome reply)

  unfoldable pub serve : Request → Stack → Stack × Outcome
  serve r st = serve_decided (decide st.auth r.header) r st
