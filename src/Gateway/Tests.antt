-- ===== src/Gateway/Tests.antt =====
-- A request through the whole stack of handlers (internal/gateway/gateway.go).
use hive_mind_fusion.Prelude.{
  Text, text, false, same, strip_prefix, to_lower, lookup, insert, true, none, some, List, [], ◌∷◌,
  if◌then◌else◌, ◌≡◌, ◌⊎◌, refl,
}
use hive_mind_fusion.Prelude.{arith, ℕ, pos, ne_of_same, ◌≢◌}
use hive_mind_fusion.Proxy
use hive_mind_fusion.Proxy.{World}
use hive_mind_fusion.Proxy.Chains.{forward_chain}
use hive_mind_fusion.Health.{HealthChecker, fresh, failed, is_ok}
use hive_mind_fusion.Health.Invariant.{Event, probed, run}
use hive_mind_fusion.Health.Counting.{failures_of}
use hive_mind_fusion.Gateway.Backends.{with_health, forward_chain-unhealthy}
use hive_mind_fusion.Config.{Config}
use hive_mind_fusion.Config.Samples.{sample, sample_backend}
use hive_mind_fusion.Auth.{
  add_values, add_keys, build_known_consumers, equal_fold, new_auth, bearer, of_key,
  of_authorization, of_consumer_header, authenticate, decide,
}
use hive_mind_fusion.Auth.Identity.{Proves, auth_of}
use hive_mind_fusion.Pii.{responded, new_client}
use hive_mind_fusion.Pii.Middleware.{bytes, Request}
use hive_mind_fusion.RateLimit.{take, new_bucket}
use hive_mind_fusion.RateLimit.Limiter.{
  Limits, new_rate_limiter, request, get_bucket, create_bucket, limit_of, with_defaults,
}
use hive_mind_fusion.Gateway.{Stack, Around, rejected, serve, serve_limited}
use hive_mind_fusion.Gateway.Assembly.{
  Outside, Gateway, start, new_gateway, new_consumer_tracker, reload,
}
use hive_mind_fusion.Consumer.{identify, of_bearer}
use hive_mind_fusion.Gateway.Reload.{
  Change, probe_done, config_reloaded, changes, IsWatched, changes-IsWatched,
}
use hive_mind_fusion.Gateway.Accounts.{Recorded, RecordedIf, Passes, serve-Recorded}
use hive_mind_fusion.Gateway.Order.{TakesFor, serve-buckets}

abbrev env : Text → Text
env name = if same name (text "HIVEMIND_REQUIRE_AUTH") then text "true" else []

abbrev limits : Limits
limits = record { default = record { requests_per_minute = 0; burst = 0 }; consumers = [] }

abbrev stack : Stack
stack = record {
  auth = auth_of sample env;
  pii = some (new_client false);
  limiter = new_rate_limiter limits;
  tracker = record { stats = []; api_keys = [] };
}

abbrev around : Around
around = record {
  scans = record {
    shield_in = λ r. responded (record { decision = text "allow"; sanitized_text = [] });
    shield_out = λ r. responded (record { decision = text "allow"; sanitized_text = [] });
    now_in = 1;
    later_in = 1;
    now_out = 2;
    later_out = 2;
  };
  now = 1;
  routes = λ r. some (record { status = 200; body = text "ok" });
  writes = λ r. [];
  decode_usage = λ body. none;
  format_seconds = λ wait. [];
}

abbrev post : Request
post = record { header = (text "Authorization", text "Bearer k") ∷ []; body = bytes (text "hi") }

enforced : stack.auth.enforced ≡ true
unfolding build_known_consumers new_auth equal_fold to_lower text same
enforced = refl

serve-buckets_example :
    (serve around post stack ≡ (stack, rejected))
    ⊎ ((name : Text) × Proves stack.auth post.header name
        × TakesFor stack name (serve around post stack).0)
serve-buckets_example = serve-buckets around post stack enforced

abbrev anonymous : Request
anonymous = record post { header = [] }

anonymous_rejected : serve around anonymous stack ≡ (stack, rejected)
unfolding serve decide authenticate of_authorization of_key of_consumer_header build_known_consumers
    add_values add_keys new_auth equal_fold bearer strip_prefix to_lower lookup insert text same
anonymous_rejected = refl

abbrev outside : Outside
outside = record {
  env = env;
  rag = record {
    post = λ url body. none;
    encode_embed = λ r. none;
    decode_embed = λ t. none;
    encode_search = λ r. none;
    decode_search = λ t. none;
    decode_chat = λ t. none;
    encode_chat = λ r. none;
    format = λ n. [];
  };
  sidecar = λ endpoint body. none;
}

-- A gateway without backends that is reloaded.
abbrev running : Gateway
running = start outside (new_gateway (record sample { backends = [] }))

-- A key that a reload adds is not known to the tracker.
abbrev keyed : Config
keyed = record sample {
  consumers = record (sample.consumers) { api_keys = (text "new", text "eve") ∷ [] };
}

key_not_reloaded :
    identify
      (reload outside keyed running).consumer
      ((text "Authorization", text "Bearer new") ∷ [])
    ≡ text "__default__"
unfolding identify reload start new_gateway new_consumer_tracker lookup strip_prefix text same
    of_bearer bearer
key_not_reloaded = refl

-- A probe of a backend that was there, one of a name that was not, and a reload.
abbrev some_changes : List Change
some_changes =
    config_reloaded sample
    ∷ probe_done 3 (text "a") failed
    ∷ config_reloaded
        (record sample { backends = sample_backend (text "x") (text "m") (pos 1) ∷ [] })
    ∷ probe_done 4 (text "y") failed
    ∷ []

changes-IsWatched_example :
    IsWatched (changes outside (start outside (new_gateway sample)) some_changes)
changes-IsWatched_example = changes-IsWatched outside sample some_changes

-- A caller with alice's key who names another consumer in the header.
abbrev spoof : Request
spoof = record {
  header = (text "Authorization", text "Bearer k") ∷ (text "X-HiveMind-Consumer", text "bob") ∷ [];
  body = bytes (text "hi");
}

-- The routes panic.
abbrev panicking : Around
panicking = record around { routes = λ r. none }

panic_not_recorded : (serve panicking spoof (record stack { pii = none })).0.tracker ≡ stack.tracker
unfolding serve serve_limited decide authenticate of_authorization of_key of_consumer_header
    build_known_consumers add_values add_keys new_auth equal_fold bearer strip_prefix to_lower
    lookup insert text same request take get_bucket new_rate_limiter create_bucket new_bucket
    limit_of with_defaults
panic_not_recorded = refl

serve-Recorded_example :
    (((serve around spoof stack).0.tracker ≡ stack.tracker)
      ⊎ Recorded stack.tracker
          (identify stack.tracker spoof.header)
          (serve around spoof stack).0.tracker)
    × (Passes around spoof stack (decide stack.auth spoof.header)
        → RecordedIf
            (around.routes spoof)
            stack.tracker
            (identify stack.tracker spoof.header)
            (serve around spoof stack).0.tracker)
serve-Recorded_example = serve-Recorded around spoof stack

-- A backend whose one probe failed, with a threshold of 1.
abbrev checker : HealthChecker
checker = record {
  backends = [];
  states = (text "a", fresh) ∷ [];
  interval = pos 30;
  threshold = pos 1;
  gauge = [];
}

abbrev outage : ℕ → List Event
outage i = probed 7 (text "a") failed ∷ []

abbrev world : World
world = record {
  parse_url = λ url. none;
  decode_check = λ body. none;
  healthy = λ i name. true;
  round_trip = λ i out. none;
}

abbrev ask : Proxy.Request
ask = record { path = text "/v1/completions"; header = []; body = [] }

a-ne-none : text "a" ≢ text "none"
unfolding same text
a-ne-none = ne_of_same (text "a") (text "none") refl

one_failure : failures_of (text "a") (outage 0) ≡ 1
unfolding failures_of same text
one_failure = refl

forward_chain-unhealthy_example :
    (forward_chain
      (with_health (λ i. run checker (outage i)) world)
      false
      (text "c")
      (text "m")
      ask
      (sample_backend (text "a") (text "m") (pos 1) ∷ [])).1.backend
    ≢ text "a"
unfolding lookup text same is_ok
forward_chain-unhealthy_example =
    forward_chain-unhealthy world false (text "c") (text "m") (text "a") ask
      (sample_backend (text "a") (text "m") (pos 1) ∷ []) checker fresh outage a-ne-none refl refl
      (λ e. cc) (omega arith) (λ i. ((λ e. refl), tt)) (λ i. rw one_failure (omega arith))
      (λ i. rw one_failure (omega arith))
