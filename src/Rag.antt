-- ===== src/Rag.antt =====
-- Retrieval-augmented generation (internal/rag). Qdrant, the embedding endpoints and the JSON codecs
-- are arguments. Floats (scores, vectors) are opaque numbers, since the code only passes them on.
pub mod Context
pub mod Inject
pub mod Augmentation
pub mod Ingest
pub mod Atomic
mod Tests
pub mod Delimiters
pub mod Isolation
use hive_mind_fusion.Prelude.{ℕ, Text, text, Map, List, Option}

-- A value of a payload: only strings are looked at.
pub data Field : Type 0 where
  str : Text → Field
  other : Field

pub record SearchResult : Type 0 where
  pub score : ℕ
  pub payload : Map Field

pub record ChatMessage : Type 0 where
  pub role : Text
  pub content : Text
