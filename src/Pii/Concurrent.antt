-- ===== src/Pii/Concurrent.antt =====
-- Scans of concurrent requests with one client (internal/pii/client.go, `Scan`): a scan looks at the breaker, asks the
-- shield, and then records what came of it, and other scans come in between.
use hive_mind_fusion.Prelude.{
  ℕ, ◌+◌, ◌≤◌, true, false, List, [], ◌∷◌, ◌++◌, ◌≡◌, refl, sym, ap, ◌∙◌, arith, All,
}
use hive_mind_fusion.Pii.{
  ScanRequest, Post, Client, is_open, ScanResult, bypass_or, breaker_open, after_post,
}
use hive_mind_fusion.Pii.Breaker.{is_open_mono}

pub record Answered : Type 0 where
  pub request : ScanRequest
  pub result : ScanResult

-- `waiting` has the requests that the shield was asked for and has not answered; `log` has the results, the last one
-- first.
pub record Scanning : Type 0 where
  pub clock : ℕ
  pub client : Client
  pub waiting : List ScanRequest
  pub posts : ℕ
  pub log : List Answered

unfoldable pub finish : ScanRequest → Post → List ScanRequest → Scanning → Scanning
finish r post waiting s =
    let (c, result) = after_post s.clock r post s.client in
    record s {
      client = c;
      waiting = waiting;
      log = record { request = r; result = result } ∷ s.log;
    }

pub data Step (s : Scanning) : Scanning → Type 0 where
  tick : (now : ℕ) → s.clock ≤ now → Step s (record s { clock = now })
  stopped :
      (r : ScanRequest)
      → is_open s.clock s.client ≡ true
      → Step s (record s {
        log = record { request = r; result = bypass_or s.client r.content breaker_open } ∷ s.log;
      })
  posted :
      (r : ScanRequest)
      → is_open s.clock s.client ≡ false
      → Step s (record s { waiting = r ∷ s.waiting; posts = s.posts + 1 })
  finished :
      (before after : List ScanRequest) (r : ScanRequest) (post : Post)
      → s.waiting ≡ before ++ r ∷ after
      → Step s (finish r post (before ++ after) s)

pub data Reach (s : Scanning) : Scanning → Type 0 where
  here : Reach s s
  next : {t u : Scanning} → Reach s t → Step t u → Reach s u

-- The result of a scan that the breaker stopped.
abbrev pub IsStopped : Client → Answered → Type 0
IsStopped c a = a.result ≡ bypass_or c a.request.content breaker_open

nothing-append : (before after : List ScanRequest) (r : ScanRequest) → [] ≡ before ++ r ∷ after → ⊥
nothing-append [] after r e = cc
nothing-append (x ∷ before) after r e = cc

module _ (s : Scanning) (tripped : is_open s.clock s.client ≡ true)
    (none_waits : s.waiting ≡ []) where
  -- The same client, nothing asked, and only stopped scans since.
  record Inv (t : Scanning) : Type 0 where
    later : s.clock ≤ t.clock
    same_client : t.client ≡ s.client
    none_waiting : t.waiting ≡ []
    same_posts : t.posts ≡ s.posts
    since : List Answered
    log_since : t.log ≡ since ++ s.log
    stopped_since : All (IsStopped s.client) since

  Step-Inv : (t u : Scanning) → Step t u → Inv t → Inv u
  Step-Inv t u (tick now h) i = record {
    later = let l = i.later in omega arith;
    same_client = i.same_client;
    none_waiting = i.none_waiting;
    same_posts = i.same_posts;
    since = i.since;
    log_since = i.log_since;
    stopped_since = i.stopped_since;
  }
  Step-Inv t u (stopped r h) i =
      let a : Answered = record {
        request = r;
        result = bypass_or t.client r.content breaker_open;
      } in
      record {
        later = i.later;
        same_client = i.same_client;
        none_waiting = i.none_waiting;
        same_posts = i.same_posts;
        since = a ∷ i.since;
        log_since = ap (λ l. a ∷ l) i.log_since;
        stopped_since =
            (ap (λ c. bypass_or c r.content breaker_open) i.same_client, i.stopped_since);
      }
  Step-Inv t u (posted r h) i =
      let still = is_open_mono s.clock t.clock s.client i.later tripped in
      let clash = sym h ∙ (ap (is_open t.clock) i.same_client ∙ still) in absurd cc
  Step-Inv t u (finished before after r post e) i =
      absurd (nothing-append before after r (sym i.none_waiting ∙ e))

  Reach-Inv : (t : Scanning) → Reach s t → Inv t
  Reach-Inv t here = record {
    later = omega arith;
    same_client = refl;
    none_waiting = none_waits;
    same_posts = refl;
    since = [];
    log_since = refl;
    stopped_since = tt;
  }
  Reach-Inv t (next {t = u} r st) = Step-Inv u t st (Reach-Inv u r)

-- When the breaker is open and no scan waits for the shield, then in every interleaving from there on the shield is never
-- asked again, the client stays as it is, and every scan is bypassed or refused as the configuration says.
pub Reach-open :
    (s t : Scanning)
    → is_open s.clock s.client ≡ true
    → s.waiting ≡ []
    → Reach s t
    → (t.posts ≡ s.posts)
      × (t.client ≡ s.client)
      × ((since : List Answered) × (t.log ≡ since ++ s.log) × All (IsStopped s.client) since)
Reach-open s t tripped none_waits r =
    let i = Reach-Inv s tripped none_waits t r in
    (i.same_posts, i.same_client, (i.since, i.log_since, i.stopped_since))
