-- ===== src/Extraction.antt =====
-- packages/extraction: the three tiers, their data, and the orchestrator that runs them in order.
-- packages/extraction/types.py and tier_c/schema.py are here.
pub mod Sentences
pub mod Windows
pub mod Patterns
pub mod LlmClient
pub mod Orchestrator
use taboot.Prelude.{ℕ, Text, List}

-- A micro-window of tier B.
pub record ExtractionWindow : Type 0 where
  pub content : Text
  pub token_count : ℕ
  pub start : ℕ
  pub stop : ℕ

-- `confidence` is the text of the float, which nothing computes with.
pub record Triple : Type 0 where
  pub subject : Text
  pub predicate : Text
  pub object : Text
  pub confidence : Text

pub record ExtractionResult : Type 0 where
  pub triples : List Triple

pub record CodeBlock : Type 0 where
  pub language : Text
  pub code : Text

pub record Table : Type 0 where
  pub headers : List Text
  pub rows : List (List Text)

-- A match of tier A's patterns.
pub record Match : Type 0 where
  pub entity_type : Text
  pub text : Text
  pub start : ℕ
  pub stop : ℕ
