-- ===== src/Api/Ingestion.antt =====
-- apps/api/routes/ingest.py: `start_ingestion`, the background task that it queues and
-- `get_ingestion_status`. The rate limiter, the check of the API key and what `validate_url` takes
-- from outside are parameters, and so are those of the ingestion. A connection that is opened and a
-- statement are calls of a service.
pub mod Tracked
pub mod Queued
pub mod Followed
use taboot.Prelude.{
  ℕ, Text, codes, Bool, true, false, ◌||◌, Option, none, some, List, [], ◌∷◌, ◌++◌, is_empty, ltb,
  if◌then◌else◌,
}
use taboot.Python.{
  Kind, Exn, Outcome, ok, raised, Exec, pure, raise, modify, lift, try_except, ◌>>=◌, ◌>>◌,
}
use taboot.Schemas.{
  invalid, has_length, source_value, job_state_value, IngestionJob, JobError, JobState, SourceType,
}
use taboot.World.{Env, now_utc, fresh_uuid, service}
use taboot.Common.Validators.{UrlParts, Address, validate_url}
use taboot.Ingest.JobStore.{JobRow}
use taboot.Ingest.JobStore
use taboot.UseCases.IngestWeb.{Site, Tools, on_world}
use taboot.UseCases.IngestWeb
use taboot.Api.{http_error}

pub record IngestionRequest : Type 0 where
  pub source_type : SourceType
  pub source_target : Text
  pub limit : Option ℕ

pub record IngestionJobResponse : Type 0 where
  pub job_id : ℕ
  pub state : Text
  pub source_type : Text
  pub source_target : Text
  pub created_at : ℕ

pub record IngestionJobStatus : Type 0 where
  pub job_id : ℕ
  pub state : Text
  pub source_type : Text
  pub source_target : Text
  pub created_at : ℕ
  pub started_at : Option ℕ
  pub completed_at : Option ℕ
  pub pages_processed : ℕ
  pub chunks_created : ℕ
  pub errors : Option (List JobError)

-- The arguments of a queued `_execute_ingestion_job`.
pub record Task : Type 0 where
  pub job_id : ℕ
  pub url : Text
  pub limit : Option ℕ

-- The services, the table of the jobs, and the tasks that run after the response.
pub record ApiState (F : Type 0) : Type 0 where
  pub site : Site F
  pub job_rows : List JobRow
  pub background_tasks : List Task

-- What `validate_url` takes from outside.
pub record Resolver : Type 0 where
  pub urlparse : Text → Outcome UrlParts
  pub lower : Text → Text
  pub ip_address : Text → Outcome Address
  pub getaddrinfo : Text → Outcome (List Text)

-- `Field(default=None, ge=1)`
abbrev pub at_least_one : Option ℕ → Bool
at_least_one none = true
at_least_one (some n) = ltb 0 n

-- FastAPI answers 422 to a body that its model refuses.
abbrev pub validate_request : IngestionRequest → Outcome (Unit {0})
validate_request body =
    if is_empty body.source_target
    then raised (http_error 422 (codes "source_target"))
    else if at_least_one body.limit
    then ok tt
    else raised (http_error 422 (codes "limit"))

abbrev pub check_source_type : SourceType → Outcome (Unit {0})
check_source_type SourceType.web = ok tt
check_source_type _ = raised (http_error 400 (codes "Source type not yet supported"))

-- `except URLValidationError`
abbrev pub is_url_validation_error : Kind → Bool
is_url_validation_error Kind.url_validation_error = true
is_url_validation_error _ = false

abbrev pub or_bad_request : Outcome (Unit {0}) → Outcome (Unit {0})
or_bad_request (ok _) = ok tt
or_bad_request (raised e) =
    if is_url_validation_error e.kind
    then raised (http_error 400 (codes "Invalid URL: " ++ e.message))
    else raised e

abbrev pub check_url : Resolver → Text → Outcome (Unit {0})
check_url r url = or_bad_request (validate_url r.urlparse r.lower r.ip_address r.getaddrinfo url)

abbrev pub new_job : IngestionRequest → ℕ → ℕ → IngestionJob
new_job body job_id created_at = record {
  job_id = job_id;
  source_type = body.source_type;
  source_target = body.source_target;
  state = JobState.pending;
  created_at = created_at;
  started_at = none;
  completed_at = none;
  pages_processed = 0;
  chunks_created = 0;
  errors = none;
}

-- The job's model validates the target's length.
abbrev pub pending_job : IngestionRequest → ℕ → ℕ → Outcome IngestionJob
pending_job body job_id created_at =
    if has_length 2048 body.source_target
    then ok (new_job body job_id created_at)
    else raised invalid

abbrev pub job_response : IngestionJob → IngestionJobResponse
job_response job = record {
  job_id = job.job_id;
  state = job_state_value job.state;
  source_type = source_value job.source_type;
  source_target = job.source_target;
  created_at = job.created_at;
}

abbrev pub job_status : IngestionJob → IngestionJobStatus
job_status job = record {
  job_id = job.job_id;
  state = job_state_value job.state;
  source_type = source_value job.source_type;
  source_target = job.source_target;
  created_at = job.created_at;
  started_at = job.started_at;
  completed_at = job.completed_at;
  pages_processed = job.pages_processed;
  chunks_created = job.chunks_created;
  errors = job.errors;
}

abbrev pub job_not_found : Exn
job_not_found = http_error 404 (codes "Job not found")

abbrev pub status_or_404 : Option IngestionJob → Outcome IngestionJobStatus
status_or_404 none = raised job_not_found
status_or_404 (some job) = ok (job_status job)

module _ {F : Type 0} where
  unfoldable pub in_site : {A : Type 0} → Exec (Site F) A → Exec (ApiState F) A
  in_site m v = let (r, s) = m v.site in (r, record v { site = s })

  unfoldable pub in_jobs : {A : Type 0} → Exec (List JobRow) A → Exec (ApiState F) A
  in_jobs m v = let (r, rows) = m v.job_rows in (r, record v { job_rows = rows })

module _ {F : Type 0} (env : Env) where
  -- `get_postgres_client()`
  unfoldable pub connect : Exec (ApiState F) (Unit {0})
  unfolding in_site
  connect = in_site (on_world (service env))

  unfoldable pub on_jobs : {A : Type 0} → Exec (List JobRow) A → Exec (ApiState F) A
  unfolding in_site in_jobs
  on_jobs m = in_site (on_world (service env)) >> in_jobs m

module _ {F : Type 0} (env : Env) (tools : Tools F) where
  -- Whatever is raised is logged.
  unfoldable pub execute_ingestion_job : Task → Exec (ApiState F) (Unit {0})
  execute_ingestion_job task =
      try_except
        (in_site (IngestWeb.execute env tools task.url task.limit (some task.job_id))
          >>= λ completed_job. on_jobs env (JobStore.update completed_job))
        (λ e. pure tt)

module _ {F : Type 0} (env : Env) where
  -- The body of `start_ingestion`, behind what refuses a request.
  unfoldable pub queue_job : IngestionRequest → Exec (ApiState F) IngestionJobResponse
  queue_job body = do
    job_id ← in_site (on_world (fresh_uuid env))
    created_at ← in_site (on_world (now_utc env))
    job ← lift (pending_job body job_id created_at)
    connect env
    on_jobs env (JobStore.create job)
    connect env
    modify (λ v. record v {
      background_tasks =
          v.background_tasks
          ++ record { job_id = job_id; url = body.source_target; limit = body.limit } ∷ [];
    })
    pure (job_response job)

module _ {F : Type 0} (env : Env) (resolver : Resolver)
    (verify_api_key rate_limit : Exec (ApiState F) (Unit {0})) where
  unfoldable pub start_ingestion : IngestionRequest → Exec (ApiState F) IngestionJobResponse
  start_ingestion body = do
    verify_api_key
    lift (validate_request body)
    rate_limit
    lift (check_source_type body.source_type)
    lift (check_url resolver body.source_target)
    queue_job env body

module _ {F : Type 0} (env : Env) where
  unfoldable pub get_ingestion_status : ℕ → Exec (ApiState F) IngestionJobStatus
  get_ingestion_status job_id = do
    connect env
    job ← on_jobs env (JobStore.get_by_id job_id)
    lift (status_or_404 job)
