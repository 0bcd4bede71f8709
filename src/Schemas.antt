-- ===== src/Schemas.antt =====
-- packages/schemas/models/__init__.py: the enums and the entities that the pipeline passes on.
-- UUIDs are numbers, since the program only compares them, and timestamps are numbers too.
-- Left out are fields that no modelled operation reads or writes, and the validators of pydantic, which
-- the pipeline's `model_copy(update=...)` does not run, but for the lengths that ingested texts may miss.
use taboot.Prelude.{
  ℕ, Text, codes, Bool, true, false, not, ◌&&◌, Option, List, length, is_empty, leb,
}
use taboot.Python.{Kind, Exn}

abbrev pub invalid : Exn
invalid = record { kind = Kind.validation_error; message = codes "validation error" }

-- `Field(..., min_length=1, max_length=n)`
abbrev pub has_length : ℕ → Text → Bool
has_length n t = not (is_empty t) && leb (length t) n

pub data SourceType : Type 0 where
  web github reddit youtube gmail elasticsearch docker_compose swag tailscale unifi : SourceType
  ai_session : SourceType

pub data ExtractionState : Type 0 where
  pending tier_a_done tier_b_done tier_c_done completed failed : ExtractionState

pub data JobState : Type 0 where
  pending running completed failed : JobState

pub record Document : Type 0 where
  pub doc_id : ℕ
  pub source_url : Text
  pub source_type : SourceType
  pub content_hash : Text
  pub ingested_at : ℕ
  pub extraction_state : ExtractionState
  pub extraction_version : Option Text
  pub updated_at : ℕ

-- An entry of a job's error log: its message and when it was made.
pub record ErrorEntry : Type 0 where
  pub error : Text
  pub timestamp : ℕ
  pub retry_count : ℕ

pub record ExtractionJob : Type 0 where
  pub job_id : ℕ
  pub doc_id : ℕ
  pub state : ExtractionState
  pub tier_a_triples : ℕ
  pub tier_b_windows : ℕ
  pub tier_c_triples : ℕ
  pub started_at : Option ℕ
  pub completed_at : Option ℕ
  pub retry_count : ℕ
  pub errors : Option ErrorEntry

-- A chunk of a document, which is a point of the vector store.
pub record Chunk : Type 0 where
  pub chunk_id : ℕ
  pub doc_id : ℕ
  pub content : Text
  pub section : Option Text
  pub position : ℕ
  pub token_count : ℕ
  pub source_url : Text
  pub source_type : SourceType
  pub ingested_at : ℕ
  pub tags : Option (List Text)

-- A proxy of the graph, with the entry `server_blocks` of its metadata.
pub record Proxy : Type 0 where
  pub name : Text
  pub created_at : ℕ
  pub updated_at : ℕ
  pub server_blocks : Option ℕ

-- An entry of an ingestion job's error log.
pub record JobError : Type 0 where
  pub error : Text
  pub timestamp : ℕ

pub record IngestionJob : Type 0 where
  pub job_id : ℕ
  pub source_type : SourceType
  pub source_target : Text
  pub state : JobState
  pub created_at : ℕ
  pub started_at : Option ℕ
  pub completed_at : Option ℕ
  pub pages_processed : ℕ
  pub chunks_created : ℕ
  pub errors : Option (List JobError)

-- The `.value` of an enum's member, which is what the database holds.
abbrev pub source_value : SourceType → Text
source_value SourceType.web = codes "web"
source_value SourceType.github = codes "github"
source_value SourceType.reddit = codes "reddit"
source_value SourceType.youtube = codes "youtube"
source_value SourceType.gmail = codes "gmail"
source_value SourceType.elasticsearch = codes "elasticsearch"
source_value SourceType.docker_compose = codes "docker_compose"
source_value SourceType.swag = codes "swag"
source_value SourceType.tailscale = codes "tailscale"
source_value SourceType.unifi = codes "unifi"
source_value SourceType.ai_session = codes "ai_session"

abbrev pub state_value : ExtractionState → Text
state_value ExtractionState.pending = codes "pending"
state_value ExtractionState.tier_a_done = codes "tier_a_done"
state_value ExtractionState.tier_b_done = codes "tier_b_done"
state_value ExtractionState.tier_c_done = codes "tier_c_done"
state_value ExtractionState.completed = codes "completed"
state_value ExtractionState.failed = codes "failed"

abbrev pub job_state_value : JobState → Text
job_state_value JobState.pending = codes "pending"
job_state_value JobState.running = codes "running"
job_state_value JobState.completed = codes "completed"
job_state_value JobState.failed = codes "failed"

abbrev pub is_completed : ExtractionState → Bool
is_completed ExtractionState.completed = true
is_completed _ = false
