-- ===== src/Fusion.antt =====
-- The fusion engine of internal/fusion. A call of a backend is an argument; each stage of the pipeline
-- may get another answer for the same model and messages, so the stage is part of the call.
-- Token counts are `int` values by their 64-bit two's complement pattern.
pub mod Panels
pub mod Tiers
pub mod Transforms
pub mod Templates
pub mod Stages
pub mod Pipeline
pub mod Outcome
pub mod Ending
pub mod FanOut
mod Tests
use hive_mind_fusion.Prelude.{ℕ, ℤ, Text, Map, List, Option, is_empty, Bool, ◌&&◌, not}

pub record Message : Type 0 where
  pub role : Text
  pub content : Text

pub record BackendResponse : Type 0 where
  pub model : Text
  pub content : Text
  pub tokens : ℕ
  pub latency_ms : ℕ
  pub error : Text

pub data Stage : Type 0 where
  deliberating : Stage
  panelist : ℕ → Stage
  judging synthesizing : Stage

-- The response, and the error's text if the call returned one.
pub record CallResult : Type 0 where
  pub response : BackendResponse
  pub err : Option Text

-- `fusion.BackendCaller`, under the context of one request.
abbrev pub Caller : Type 0
Caller = Stage → Text → List Message → CallResult

pub record Panel : Type 0 where
  pub name : Text
  pub panelists : List Text
  pub judge : Text
  pub synth : Text
  pub deliberator : Text
  pub timeout_ms : ℤ
  pub min_quorum : ℤ

pub record Engine : Type 0 where
  pub panels : Map Panel

-- `r.Error == "" && r.Content != ""`.
abbrev pub is_answer : BackendResponse → Bool
is_answer r = is_empty r.error && not (is_empty r.content)
