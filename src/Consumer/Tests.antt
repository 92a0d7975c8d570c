-- ===== src/Consumer/Tests.antt =====
-- Usage after a few requests (internal/gateway/consumer.go).
use mathlib.Core.Path.{subst}
use hive_mind_fusion.Prelude.{
  none, true, Text, text, same, strip_prefix, contains, has_prefix, Map, lookup, insert, some, List,
  [], ◌∷◌, ◌≡◌, refl,
}
use hive_mind_fusion.Auth.{bearer}
use hive_mind_fusion.Consumer.{
  ConsumerTracker, add_usage, record_usage, of_bearer, identify, capture, parse_token_usage,
  account,
}
use hive_mind_fusion.Consumer.Persist.{
  Encode, Attempt, snapshot, persist, waiting, finished, System, Reach,
}
use hive_mind_fusion.Consumer.Persist.Atomic.{Whole, Reach-Whole}
use hive_mind_fusion.Consumer.Persist.Runs.{Reach-flush}
use hive_mind_fusion.Consumer.Usage.{Entry, record_all, sum_of, stats_of, Counts, record_all_lem}

abbrev entries : List Entry
entries =
    record { now = 1; consumer = text "a"; prompt = 10; completion = 2 }
    ∷ record { now = 2; consumer = text "b"; prompt = 5; completion = 5 }
    ∷ record { now = 3; consumer = text "a"; prompt = 7; completion = 1 }
    ∷ []

abbrev keys : Map Text
keys = (text "k", text "alice") ∷ []

abbrev start : ConsumerTracker
start = record { stats = []; api_keys = keys }

record_all_lem_example :
    Counts
      (stats_of (text "a") (record_all entries start))
      (sum_of (λ e. 1) (text "a") entries)
      (sum_of (λ (e : Entry). e.prompt) (text "a") entries)
      (sum_of (λ (e : Entry). e.completion) (text "a") entries)
record_all_lem_example = record_all_lem (text "a") entries keys

sums : sum_of (λ (e : Entry). e.prompt) (text "a") entries ≡ 17
unfolding sum_of text same
sums = refl

-- A streamed answer is counted as a request with no tokens.
streamed :
    account
      (λ body. some (3, 4))
      9
      ((text "Authorization", text "Bearer k") ∷ [])
      ((text "text/event-stream", text "data") ∷ [])
      start
    ≡ record start {
      stats =
          (
            text "alice",
            record {
              request_count = 1;
              prompt_tokens = 0;
              completion_tokens = 0;
              last_request = 9;
            },
          )
          ∷ [];
    }
unfolding account parse_token_usage capture identify of_bearer record_usage add_usage bearer
    contains has_prefix strip_prefix lookup insert text same
streamed = refl

abbrev encode : Encode
encode m = some (text "{}")

abbrev system : System
system = record {
  tracker = start;
  disk = record { file = none; tmp = none };
  pc = waiting;
  stopped = true;
}

abbrev attempt : Attempt
attempt = record { mkdir_ok = true; write_ok = true; broken = none; rename_ok = true }

-- The final flush, on a working disk.
abbrev flushed : System
flushed = record system { disk = record { file = some (text "{}"); tmp = none }; pc = finished }

persisted : persist encode attempt (snapshot start) system.disk ≡ flushed.disk
unfolding persist text
persisted = refl

Reach-flush_example :
    Reach encode system
      (record system { pc = finished; disk = persist encode attempt (snapshot start) system.disk })
Reach-flush_example = Reach-flush encode attempt system refl refl

Reach-Whole_example : Whole encode system flushed flushed.disk.file
Reach-Whole_example = Reach-Whole encode system flushed refl (
    subst (λ d. Reach encode system (record system { pc = finished; disk = d })) persisted
      Reach-flush_example)
