-- ===== src/Gateway/Accounts.antt =====
-- Whose usage a request changes (internal/gateway/gateway.go, `buildProxyHandler`; internal/gateway/consumer.go).
use mathlib.Core.Path.{subst}
use hive_mind_fusion.Prelude.{
  ℕ, Text, same, lookup, Option, none, some, ◌≡◌, ◌⊎◌, inl, inr, refl, arith, lookup-insert,
  same_iff, same_refl, false, sym,
}
use hive_mind_fusion.Auth.{Decision, unauthorized, proceed, decide}
use hive_mind_fusion.RateLimit.Limiter.{Answer, forwarded, too_many, consumer_from_context, request}
use hive_mind_fusion.Pii.{Client, input}
use hive_mind_fusion.Pii.Middleware.{
  Request, Response, Scans, Body, absent, unreadable, bytes, Scanned, passed, blocked, failed,
  handle, handle_bytes, forward, forward_or_stop, scan_body, agent_id, dispatch,
}
use hive_mind_fusion.Consumer.{ConsumerTracker, add64, record_usage, add_usage, identify, account}
use hive_mind_fusion.Consumer.Usage.{stats_of}
use hive_mind_fusion.Gateway.{
  recorded, account_if, Stack, Around, accounted, serve_limited, serve_filtered, serve_decided,
  after_filter, serve,
}

-- The filter hands the header on as it came.
abbrev HasHeader : Request → Option Request → Type 0
HasHeader r none = Unit
HasHeader r (some q) = q.header ≡ r.header

module _ (s : Scans) (next : Request → Response) (r : Request) where
  forward_or_stop-HasHeader :
      (c : Client) (v : Scanned) → HasHeader r (forward_or_stop s next r c v).forwarded
  unfolding forward
  forward_or_stop-HasHeader c (passed body) = refl
  forward_or_stop-HasHeader c blocked = tt
  forward_or_stop-HasHeader c (failed e) = tt

  dispatch-HasHeader : (b : Body) (c : Client) → HasHeader r (dispatch b s next r c).forwarded
  unfolding handle_bytes forward
  dispatch-HasHeader absent c = refl
  dispatch-HasHeader unreadable c = tt
  dispatch-HasHeader (bytes raw) c =
      let scanned = scan_body s.shield_in s.now_in s.later_in (agent_id r) input raw c in
      forward_or_stop-HasHeader scanned.0 scanned.1

  handle-HasHeader : (c : Client) → HasHeader r (handle s next r c).forwarded
  unfolding handle
  handle-HasHeader c = dispatch-HasHeader r.body c

-- A tracker with one more record for this consumer, and what that leaves.
abbrev pub Recorded : ConsumerTracker → Text → ConsumerTracker → Type 0
Recorded ct name ct' =
    (ct'.api_keys ≡ ct.api_keys)
    × ((stats_of name ct').request_count ≡ add64 (stats_of name ct).request_count 1)
    × ((k : Text) → same name k ≡ false → lookup k ct'.stats ≡ lookup k ct.stats)

record_usage-Recorded :
    (now : ℕ) (name : Text) (prompt completion : ℕ) (ct : ConsumerTracker)
    → Recorded ct name (record_usage now name prompt completion ct)
unfolding record_usage add_usage
record_usage-Recorded now name prompt completion ct =
    let s = add_usage now prompt completion (stats_of name ct) in
    (
      refl,
      ground (arith, lookup-insert name name s ct.stats, same_refl name),
      λ k other. ground (arith, lookup-insert name k s ct.stats, same_iff name k),
    )

module _ (a : Around) (who : Option Text) where
  account_if-Recorded :
      (o : Option Response) (r : Request) (ct : ConsumerTracker)
      → (account_if a o r ct ≡ ct) ⊎ Recorded ct (identify ct r.header) (account_if a o r ct)
  unfolding account
  account_if-Recorded none r ct = inl refl
  account_if-Recorded (some resp) r ct = inr (record_usage-Recorded _ _ _ _ ct)

  accounted-Recorded :
      (ans : Answer) (r : Request) (ct : ConsumerTracker)
      → (accounted a ans r ct ≡ ct) ⊎ Recorded ct (identify ct r.header) (accounted a ans r ct)
  accounted-Recorded forwarded r ct = account_if-Recorded (a.routes r) r ct
  accounted-Recorded (too_many wait) r ct = inl refl

  serve_limited-Recorded :
      (r : Request) (st : Stack)
      → ((serve_limited a who r st).0.tracker ≡ st.tracker)
        ⊎ Recorded st.tracker (identify st.tracker r.header) (serve_limited a who r st).0.tracker
  unfolding serve_limited
  serve_limited-Recorded r st =
      accounted-Recorded (request a.now (consumer_from_context who) st.limiter).1 r st.tracker

  after_filter-Recorded :
      (r : Request) (o : Option Request) (st : Stack)
      → HasHeader r o
      → ((after_filter a who o st).tracker ≡ st.tracker)
        ⊎ Recorded st.tracker (identify st.tracker r.header) (after_filter a who o st).tracker
  after_filter-Recorded r none st h = inl refl
  after_filter-Recorded r (some q) st h = rw (sym h) (serve_limited-Recorded q st)

  serve_filtered-Recorded :
      (o : Option Client) (r : Request) (st : Stack)
      → ((serve_filtered a o who r st).0.tracker ≡ st.tracker)
        ⊎ Recorded st.tracker (identify st.tracker r.header) (serve_filtered a o who r st).0.tracker
  serve_filtered-Recorded none r st = serve_limited-Recorded r st
  serve_filtered-Recorded (some client) r st =
      let next = λ (q : Request). recorded (serve_limited a who q st).1 in
      after_filter-Recorded r (handle a.scans next r client).forwarded st
        (handle-HasHeader a.scans next r client)

serve_decided-Recorded :
    (a : Around) (r : Request) (st : Stack) (d : Decision)
    → ((serve_decided a d r st).0.tracker ≡ st.tracker)
      ⊎ Recorded st.tracker (identify st.tracker r.header) (serve_decided a d r st).0.tracker
serve_decided-Recorded a r st unauthorized = inl refl
serve_decided-Recorded a r st (proceed who) = serve_filtered-Recorded a who st.pii r st

-- No filter, and a bucket with a token.
abbrev pub Passes : Around → Request → Stack → Decision → Type 0
Passes a r st unauthorized = ⊥
Passes a r st (proceed who) =
    (st.pii ≡ none) × ((request a.now (consumer_from_context who) st.limiter).1 ≡ forwarded)

-- The usage after the routes: one more record if they returned, what it was if they panicked.
abbrev pub RecordedIf : Option Response → ConsumerTracker → Text → ConsumerTracker → Type 0
RecordedIf none ct name ct' = ct' ≡ ct
RecordedIf (some resp) ct name ct' = Recorded ct name ct'

account_if-RecordedIf :
    (a : Around) (o : Option Response) (r : Request) (ct : ConsumerTracker)
    → RecordedIf o ct (identify ct r.header) (account_if a o r ct)
unfolding account
account_if-RecordedIf a none r ct = refl
account_if-RecordedIf a (some resp) r ct = record_usage-Recorded _ _ _ _ ct

accounted-forwarded :
    (a : Around) (ans : Answer) (r : Request) (ct : ConsumerTracker)
    → ans ≡ forwarded
    → RecordedIf (a.routes r) ct (identify ct r.header) (accounted a ans r ct)
accounted-forwarded a ans r ct e =
    subst (λ x. RecordedIf (a.routes r) ct (identify ct r.header) (accounted a x r ct)) (sym e)
      (account_if-RecordedIf a (a.routes r) r ct)

serve_decided-Passes :
    (a : Around) (r : Request) (st : Stack) (d : Decision)
    → Passes a r st d
    → RecordedIf
        (a.routes r)
        st.tracker
        (identify st.tracker r.header)
        (serve_decided a d r st).0.tracker
unfolding serve_limited
serve_decided-Passes a r st unauthorized h = elim h [ ]
serve_decided-Passes a r st (proceed who) (no_filter, passes) =
    let name = identify st.tracker r.header in
    subst (λ o. RecordedIf (a.routes r) st.tracker name (serve_filtered a o who r st).0.tracker)
      (sym no_filter)
      (accounted-forwarded a (request a.now (consumer_from_context who) st.limiter).1 r st.tracker
        passes)

-- (1) A request through the whole stack leaves the usage as it was, or adds one request to the entry of the consumer that
-- `Identify` finds in the header the client sent, and changes no other entry. (2) If it is authorized, the PII filter is
-- disabled and the rate limiter lets it pass: it does the latter when the routes return, whatever they
-- answer, and it leaves the usage as it was when they panic.
pub serve-Recorded :
    (a : Around) (r : Request) (st : Stack)
    → (((serve a r st).0.tracker ≡ st.tracker)
        ⊎ Recorded st.tracker (identify st.tracker r.header) (serve a r st).0.tracker)
      × (Passes a r st (decide st.auth r.header)
          → RecordedIf
              (a.routes r)
              st.tracker
              (identify st.tracker r.header)
              (serve a r st).0.tracker)
unfolding serve
serve-Recorded a r st = (
  serve_decided-Recorded a r st (decide st.auth r.header),
  serve_decided-Passes a r st (decide st.auth r.header),
)
