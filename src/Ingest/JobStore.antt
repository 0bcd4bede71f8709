-- ===== src/Ingest/JobStore.antt =====
-- packages/ingest/postgres_job_store.py: `PostgresJobStore`. Its table rag.ingestion_jobs is a list of
-- rows, which hold the enums' values as texts; `job_id` is its key, and its checks compare the
-- timestamps. A method is one statement that is committed.
pub mod Reads
use taboot.Prelude.{
  ℕ, Text, codes, Bool, true, false, not, ◌&&◌, ◌||◌, Option, none, some, List, [], ◌∷◌, ◌++◌,
  is_empty, leb, ◌==◌, text_eq, if◌then◌else◌,
}
use taboot.Python.{Kind, Exn, Outcome, ok, raised, Exec, and_then}
use taboot.Schemas.{IngestionJob, JobError, JobState, SourceType, source_value, job_state_value}

pub record JobRow : Type 0 where
  pub job_id : ℕ
  pub source_type : Text
  pub source_target : Text
  pub state : Text
  pub created_at : ℕ
  pub started_at : Option ℕ
  pub completed_at : Option ℕ
  pub pages_processed : ℕ
  pub chunks_created : ℕ
  pub errors : Option (List JobError)

abbrev pub job_exists : Exn
job_exists = record { kind = Kind.integrity_error; message = codes "duplicate key" }

abbrev pub check_violation : Exn
check_violation = record { kind = Kind.integrity_error; message = codes "check constraint" }

abbrev pub bad_value : Exn
bad_value = record { kind = Kind.value_error; message = codes "is not a valid member" }

-- `Json(job.errors) if job.errors else None`
abbrev pub stored_errors : Option (List JobError) → Option (List JobError)
stored_errors none = none
stored_errors (some []) = none
stored_errors (some (e ∷ es)) = some (e ∷ es)

abbrev pub source_types : List SourceType
source_types =
    SourceType.web ∷ SourceType.github ∷ SourceType.reddit ∷ SourceType.youtube ∷ SourceType.gmail
    ∷ SourceType.elasticsearch ∷ SourceType.docker_compose ∷ SourceType.swag ∷ SourceType.tailscale
    ∷ SourceType.unifi ∷ SourceType.ai_session ∷ []

abbrev pub job_states : List JobState
job_states = JobState.pending ∷ JobState.running ∷ JobState.completed ∷ JobState.failed ∷ []

-- `SourceType(value)`: the member of an enum with a value.
unfoldable pub member : {A : Type 0} → (A → Text) → List A → Text → Outcome A
member value [] t = raised bad_value
member value (a ∷ rest) t = if text_eq (value a) t then ok a else member value rest t

-- A comparison with NULL passes.
abbrev pub not_before : Option ℕ → Option ℕ → Bool
not_before (some a) (some b) = leb b a
not_before _ _ = true

-- The checks of the table.
abbrev pub passes_checks : JobRow → Bool
passes_checks row =
    not_before row.started_at (some row.created_at) && not_before row.completed_at row.started_at

abbrev pub job_row : IngestionJob → JobRow
job_row job = record {
  job_id = job.job_id;
  source_type = source_value job.source_type;
  source_target = job.source_target;
  state = job_state_value job.state;
  created_at = job.created_at;
  started_at = job.started_at;
  completed_at = job.completed_at;
  pages_processed = job.pages_processed;
  chunks_created = job.chunks_created;
  errors = stored_errors job.errors;
}

unfoldable pub find_row : ℕ → List JobRow → Option JobRow
find_row i [] = none
find_row i (row ∷ rows) = if row.job_id == i then some row else find_row i rows

abbrev insert_row : Option JobRow → JobRow → Exec (List JobRow) (Unit {0})
insert_row (some _) row rows = (raised job_exists, rows)
insert_row none row rows =
    if passes_checks row then (ok tt, rows ++ row ∷ []) else (raised check_violation, rows)

unfoldable pub create : IngestionJob → Exec (List JobRow) (Unit {0})
create job rows = insert_row (find_row job.job_id rows) (job_row job) rows

-- The model that a row becomes.
abbrev pub job_of : JobRow → Outcome IngestionJob
job_of row = and_then (member source_value source_types row.source_type) λ source_type.
    and_then (member job_state_value job_states row.state) λ state. ok (record {
      job_id = row.job_id;
      source_type = source_type;
      source_target = row.source_target;
      state = state;
      created_at = row.created_at;
      started_at = row.started_at;
      completed_at = row.completed_at;
      pages_processed = row.pages_processed;
      chunks_created = row.chunks_created;
      errors = row.errors;
    })

abbrev pub read_row : Option JobRow → Outcome (Option IngestionJob)
read_row none = ok none
read_row (some row) = and_then (job_of row) λ job. ok (some job)

unfoldable pub get_by_id : ℕ → Exec (List JobRow) (Option IngestionJob)
get_by_id i rows = (read_row (find_row i rows), rows)

-- SET state, started_at, completed_at, pages_processed, chunks_created, errors
abbrev pub set_progress : IngestionJob → JobRow → JobRow
set_progress job row = record row {
  state = job_state_value job.state;
  started_at = job.started_at;
  completed_at = job.completed_at;
  pages_processed = job.pages_processed;
  chunks_created = job.chunks_created;
  errors = stored_errors job.errors;
}

-- UPDATE ... WHERE job_id = %s
unfoldable pub set_rows : IngestionJob → List JobRow → List JobRow
set_rows job [] = []
set_rows job (row ∷ rows) =
    (if row.job_id == job.job_id then set_progress job row else row) ∷ set_rows job rows

-- What the statement writes passes the checks.
unfoldable pub rows_pass : IngestionJob → List JobRow → Bool
rows_pass job [] = true
rows_pass job (row ∷ rows) =
    (not (row.job_id == job.job_id) || passes_checks (set_progress job row)) && rows_pass job rows

unfoldable pub update : IngestionJob → Exec (List JobRow) (Unit {0})
update job rows =
    if rows_pass job rows then (ok tt, set_rows job rows) else (raised check_violation, rows)
