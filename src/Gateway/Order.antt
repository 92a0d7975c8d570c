-- ===== src/Gateway/Order.antt =====
-- What the order of the handlers gives (internal/gateway/gateway.go, `buildProxyHandler`).
use hive_mind_fusion.Prelude.{
  Text, same, lookup, true, false, Option, none, some, [], ◌≡◌, ◌≢◌, ◌⊎◌, inl, inr, refl, arith,
}
use hive_mind_fusion.Auth.{decide, Decision, unauthorized, proceed}
use hive_mind_fusion.Auth.Identity.{Proves, decide_lem}
use hive_mind_fusion.RateLimit.Limiter.{consumer_from_context}
use hive_mind_fusion.RateLimit.Fairness.{request_lem}
use hive_mind_fusion.Pii.{Client}
use hive_mind_fusion.Pii.Middleware.{Request, handle}
use hive_mind_fusion.Gateway.{
  Stack, Around, rejected, recorded, serve_limited, serve_filtered, serve_decided, after_filter,
  serve,
}

context-name : (name : Text) → name ≢ [] → consumer_from_context (some name) ≡ name
unfolding consumer_from_context
context-name name h = ground arith

module _ (a : Around) (who : Option Text) (k : Text) where
  serve_limited-other :
      (r : Request) (st : Stack)
      → same (consumer_from_context who) k ≡ false
      → lookup k (serve_limited a who r st).0.limiter.buckets ≡ lookup k st.limiter.buckets
  unfolding serve_limited
  serve_limited-other r st other =
      let kept = (request_lem a.now (consumer_from_context who) k st.limiter).0 in rw (kept, other)

  after_filter-other :
      (o : Option Request) (st : Stack)
      → same (consumer_from_context who) k ≡ false
      → lookup k (after_filter a who o st).limiter.buckets ≡ lookup k st.limiter.buckets
  after_filter-other none st other = refl
  after_filter-other (some r) st other = serve_limited-other r st other

  serve_filtered-other :
      (o : Option Client) (r : Request) (st : Stack)
      → same (consumer_from_context who) k ≡ false
      → lookup k (serve_filtered a o who r st).0.limiter.buckets ≡ lookup k st.limiter.buckets
  serve_filtered-other none r st other = serve_limited-other r st other
  serve_filtered-other (some client) r st other =
      after_filter-other
        (handle a.scans (λ q. recorded (serve_limited a who q st).1) r client).forwarded st other

-- What the state after a request may differ in from the state before.
abbrev pub TakesFor : Stack → Text → Stack → Type 0
TakesFor st name st' =
    (k : Text) → same name k ≡ false → lookup k st'.limiter.buckets ≡ lookup k st.limiter.buckets

serve_decided-buckets :
    (a : Around) (r : Request) (st : Stack) (d : Decision)
    → st.auth.enforced ≡ true
    → decide st.auth r.header ≡ d
    → (serve_decided a d r st ≡ (st, rejected))
      ⊎ ((name : Text) × Proves st.auth r.header name × TakesFor st name (serve_decided a d r st).0)
serve_decided-buckets a r st unauthorized on e = inl refl
serve_decided-buckets a r st (proceed who) on e =
    let (name, is_name, some_one, proof) = (decide_lem st.auth r.header on).0 who e in
    inr (
      name,
      proof,
      λ k other.
          serve_filtered-other a who k st.pii r st (rw (is_name, context-name name some_one) other),
    )

-- With authentication enforced, a request either is rejected and leaves the state of every handler as
-- it was, or it takes from no other bucket than that of one name, which its headers prove.
pub serve-buckets :
    (a : Around) (r : Request) (st : Stack)
    → st.auth.enforced ≡ true
    → (serve a r st ≡ (st, rejected))
      ⊎ ((name : Text) × Proves st.auth r.header name × TakesFor st name (serve a r st).0)
unfolding serve
serve-buckets a r st on = serve_decided-buckets a r st (decide st.auth r.header) on refl
