-- ===== src/Consumer.antt =====
-- Usage accounting (internal/gateway/consumer.go). Counters are int64 values by their 64-bit two's
-- complement. Consumer/Persist has the ticker, the file that `persist` writes and GET /admin/usage.
pub mod Usage
pub mod Persist
mod Tests
use hive_mind_fusion.Prelude.{
  get_header, ℕ, ◌+◌, ◌%◌, ◌^◌, Text, text, is_empty, strip_prefix, contains, Map, lookup, insert,
  Bool, true, false, List, [], ◌∷◌, ◌++◌, Option, none, some, if◌then◌else◌,
}
use hive_mind_fusion.Auth.{bearer}

pub record ConsumerStats : Type 0 where
  pub request_count : ℕ
  pub prompt_tokens : ℕ
  pub completion_tokens : ℕ
  pub last_request : ℕ

pub record ConsumerTracker : Type 0 where
  pub stats : Map ConsumerStats
  pub api_keys : Map Text

abbrev pub add64 : ℕ → ℕ → ℕ
add64 a b = (a + b) % 2 ^ 64

abbrev pub fresh : ConsumerStats
fresh = record { request_count = 0; prompt_tokens = 0; completion_tokens = 0; last_request = 0 }

abbrev pub stats_or_fresh : Option ConsumerStats → ConsumerStats
stats_or_fresh none = fresh
stats_or_fresh (some s) = s

abbrev pub name_or_default : Option Text → Text
name_or_default none = text "__default__"
name_or_default (some name) = name

-- The name behind a key: the entry's, "__default__" for a key that is not configured.
unfoldable pub of_bearer : ConsumerTracker → Text → Text
of_bearer ct auth = elim (strip_prefix bearer auth) [
  | none ↦ text "__default__"
  | some key ↦ name_or_default (lookup key ct.api_keys)
]

unfoldable pub identify : ConsumerTracker → Map Text → Text
identify ct header =
    let v = get_header (text "X-HiveMind-Consumer") header in
    if is_empty v then of_bearer ct (get_header (text "Authorization") header) else v

unfoldable pub add_usage : ℕ → ℕ → ℕ → ConsumerStats → ConsumerStats
add_usage now prompt completion s = record {
  request_count = add64 s.request_count 1;
  prompt_tokens = add64 s.prompt_tokens prompt;
  completion_tokens = add64 s.completion_tokens completion;
  last_request = now;
}

unfoldable pub record_usage : ℕ → Text → ℕ → ℕ → ConsumerTracker → ConsumerTracker
record_usage now consumer prompt completion ct =
    let s = add_usage now prompt completion (stats_or_fresh (lookup consumer ct.stats)) in
    record ct { stats = insert consumer s ct.stats }

-- The buffer of `capturingResponseWriter` after the writes of a response, each with the Content-Type
-- that the header has then. From the first write of an event stream on nothing is kept.
unfoldable pub capture : Bool → List (Text × Text) → Text
capture streaming [] = []
capture true (w ∷ ws) = []
capture false ((content_type, bytes) ∷ ws) =
    let streams = contains (text "text/event-stream") content_type in
    (if streams then [] else bytes) ++ capture streams ws

-- `decode` is the JSON decoder on the usage block, `none` its error.
unfoldable pub parse_token_usage : (Text → Option (ℕ × ℕ)) → Text → ℕ × ℕ
parse_token_usage decode body =
    if is_empty body then (0, 0) else elim (decode body) [ none ↦ (0, 0) | some usage ↦ usage ]

-- `Middleware`: the consumer comes from the request, the tokens from what was captured.
unfoldable pub account :
    (Text → Option (ℕ × ℕ)) → ℕ → Map Text → List (Text × Text) → ConsumerTracker → ConsumerTracker
account decode now header writes ct =
    let (prompt, completion) = parse_token_usage decode (capture false writes) in
    record_usage now (identify ct header) prompt completion ct
