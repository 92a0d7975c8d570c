-- ===== src/Pii/Tests.antt =====
-- Scans by a client, and a request through the middleware (internal/pii).
use hive_mind_fusion.Prelude.{
  All, ◌++◌, text, same, lookup, true, false, List, [], ◌∷◌, some, ◌≡◌, refl,
}
use hive_mind_fusion.Pii.{
  input, ScanRequest, unreachable, responded, Shield, Client, new_client, is_open, record_failure,
  record_success, bypass_or, breaker_open, after_post, scan,
}
use hive_mind_fusion.Pii.Breaker.{Attempt, scan_all}
use hive_mind_fusion.Pii.Concurrent.{
  Scanning, Answered, finish, stopped, here, next, IsStopped, Reach-open,
}
use hive_mind_fusion.Pii.Middleware.{
  bytes, Request, Response, sent, Scans, agent_id, filtered, scan_body, respond, forward,
  handle_bytes, handle,
}
use hive_mind_fusion.Pii.Filtering.{IsClean, handle-IsClean}

abbrev down : Shield
down r = unreachable

abbrev allow : Shield
allow r = responded (record { decision = text "allow"; sanitized_text = [] })

abbrev redact : Shield
redact r = responded (record { decision = text "redact"; sanitized_text = text "***" })

abbrev question : ScanRequest
question = record { agent_id = text "a"; direction = input; content = text "hi" }

abbrev open_client : Client
open_client = record (new_client true) { first_failure = some 5 }

is_open_now : is_open 30_000_000_005 open_client ≡ true
unfolding is_open new_client
is_open_now = refl

abbrev scanning : Scanning
scanning = record {
  clock = 30_000_000_005;
  client = open_client;
  waiting = [];
  posts = 3;
  log = [];
}

abbrev bypassed : Answered
bypassed = record {
  request = question;
  result = bypass_or open_client question.content breaker_open;
}

abbrev after_scan : Scanning
after_scan = record scanning { log = bypassed ∷ [] }

Reach-open_example :
    (after_scan.posts ≡ scanning.posts)
    × (after_scan.client ≡ scanning.client)
    × ((since : List Answered) × (after_scan.log ≡ since ++ scanning.log)
        × All (IsStopped scanning.client) since)
Reach-open_example =
    Reach-open scanning after_scan is_open_now refl (next here (stopped question is_open_now))

-- A scan that was under way when the breaker opened closes it again.
closed_late :
    is_open 30_000_000_005
      (finish question (allow question) [] (record scanning { waiting = question ∷ [] })).client
    ≡ false
unfolding is_open finish after_post record_success new_client
closed_late = refl

-- One failure, and then no traffic for thirty seconds.
abbrev one_failure : List Attempt
one_failure = record { shield = down; now = 4; later = 5; request = question } ∷ []

opened_by_one : is_open 30_000_000_005 (scan_all one_failure (new_client false)).0 ≡ true
unfolding is_open scan_all scan after_post record_failure new_client
opened_by_one = refl

-- A request that is allowed, whose answer is redacted.
abbrev scans : Scans
scans = record {
  shield_in = allow;
  shield_out = redact;
  now_in = 1;
  later_in = 2;
  now_out = 3;
  later_out = 4;
}

abbrev handler : Request → Response
handler r = record { status = 200; body = text "secret" }

abbrev post : Request
post = record { header = []; body = bytes (text "hi") }

redacted :
    (handle scans handler post (new_client false)).reply
    ≡ sent (record { status = 200; body = text "***" })
unfolding handle handle_bytes forward respond scan_body filtered scan is_open after_post
    record_success new_client agent_id lookup text same
redacted = refl

strict : (new_client false).bypass_on_failure ≡ false
unfolding new_client
strict = refl

handle-IsClean_example : IsClean scans handler post (handle scans handler post (new_client false))
handle-IsClean_example = handle-IsClean scans handler post (new_client false) strict
