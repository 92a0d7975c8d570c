-- ===== src/Pii.antt =====
-- The client of the PII shield with its circuit breaker (internal/pii/client.go). The shield is an
-- argument. Times are nanoseconds of a clock that does not go back.
pub mod Breaker
pub mod Concurrent
pub mod Middleware
pub mod Filtering
mod Tests
use hive_mind_fusion.Prelude.{
  ℕ, ◌-◌, leb, Text, text, Bool, true, false, Option, none, some, if◌then◌else◌,
}

pub data Direction : Type 0 where
  input output : Direction

pub record ScanRequest : Type 0 where
  pub agent_id : Text
  pub direction : Direction
  pub content : Text

pub record ScanResponse : Type 0 where
  pub decision : Text
  pub sanitized_text : Text

-- What the POST to the shield comes to: no response, or one whose body does or does not decode. The
-- status is not looked at.
pub data Post : Type 0 where
  unreachable : Post
  undecodable : Post
  responded : ScanResponse → Post

abbrev pub Shield : Type 0
Shield = ScanRequest → Post

-- `first_failure` is `none` for the zero time.
pub record Client : Type 0 where
  pub bypass_on_failure : Bool
  pub cb_timeout : ℕ
  pub first_failure : Option ℕ

unfoldable pub new_client : Bool → Client
new_client bypass = record {
  bypass_on_failure = bypass;
  cb_timeout = 30_000_000_000;
  first_failure = none;
}

unfoldable pub is_open : ℕ → Client → Bool
is_open now c = elim c.first_failure [ none ↦ false | some t ↦ leb c.cb_timeout (now - t) ]

unfoldable pub record_failure : ℕ → Client → Client
record_failure now c = elim c.first_failure [
  | none ↦ record c { first_failure = some now }
  | some t ↦ c
]

unfoldable pub record_success : Client → Client
record_success c = record c { first_failure = none }

pub data ScanError : Type 0 where
  breaker_open shield_unreachable decode_failed : ScanError

pub data ScanResult : Type 0 where
  scanned : ScanResponse → ScanResult
  refused : ScanError → ScanResult

abbrev pub bypass_or : Client → Text → ScanError → ScanResult
bypass_or c content e =
    if c.bypass_on_failure
    then scanned (record { decision = text "allow"; sanitized_text = content })
    else refused e

unfoldable pub after_post : ℕ → ScanRequest → Post → Client → Client × ScanResult
after_post later r unreachable c =
    (record_failure later c, bypass_or c r.content shield_unreachable)
after_post later r undecodable c = (record_success c, refused decode_failed)
after_post later r (responded s) c = (record_success c, scanned s)

-- The clock is read when the scan starts and again when a failure is recorded.
unfoldable pub scan : Shield → ℕ → ℕ → ScanRequest → Client → Client × ScanResult
scan shield now later r c =
    if is_open now c
    then (c, bypass_or c r.content breaker_open)
    else after_post later r (shield r) c
