-- ===== src/Config.antt =====
-- The configuration structs of internal/config/config.go. A Go `int` is ℤ, a string is its bytes, a
-- map is an association list. `min_score` is a scaled number, since the code only passes it on.
pub mod Validate
pub mod Laws
pub mod Samples
mod Tests
use hive_mind_fusion.Prelude.{ℤ, Text, Map, Bool, List}

pub record Gateway : Type 0 where
  pub port : ℤ
  pub admin_port : ℤ
  pub metrics_port : ℤ
  pub health_interval_secs : ℤ
  pub health_failure_threshold : ℤ
  pub response_validation : Bool

pub record Backend : Type 0 where
  pub name : Text
  pub url : Text
  pub model : Text
  pub priority : ℤ
  pub health_endpoint : Text
  pub path_rewrite : Text
  pub api_key : Text
  pub api_key_env : Text
  pub expected_down : Bool

pub record Pii : Type 0 where
  pub endpoint : Text
  pub enabled : Bool
  pub bypass_on_failure : Bool
  pub timeout_ms : ℤ

pub record Models : Type 0 where
  pub dir : Text
  pub default : Text

pub record Qdrant : Type 0 where
  pub endpoint : Text
  pub collection : Text

pub record Embed : Type 0 where
  pub endpoint : Text
  pub model : Text

pub record ConsumerLimit : Type 0 where
  pub requests_per_minute : ℤ
  pub burst : ℤ

pub record RateLimitConfig : Type 0 where
  pub default_requests_per_minute : ℤ
  pub default_burst : ℤ
  pub consumers : Map ConsumerLimit

pub record ConsumerConfig : Type 0 where
  pub api_keys : Map Text

pub record RagConsumer : Type 0 where
  pub enabled : Bool
  pub collection : Text
  pub top_k : ℤ
  pub min_score : ℤ

pub record Rag : Type 0 where
  pub consumers : Map RagConsumer

pub record Compression : Type 0 where
  pub enabled : Bool
  pub endpoint : Text
  pub min_body_size : ℤ
  pub timeout_ms : ℤ

pub record FusionPanel : Type 0 where
  pub panelists : List Text
  pub judge : Text
  pub synth : Text
  pub deliberator : Text
  pub timeout_ms : ℤ
  pub min_quorum : ℤ

pub record Fusion : Type 0 where
  pub enabled : Bool
  pub panels : Map FusionPanel

pub record Config : Type 0 where
  pub gateway : Gateway
  pub backends : List Backend
  pub pii : Pii
  pub models : Models
  pub rate_limit : RateLimitConfig
  pub consumers : ConsumerConfig
  pub qdrant : Qdrant
  pub embed : Embed
  pub rag : Rag
  pub compression : Compression
  pub fusion : Fusion
