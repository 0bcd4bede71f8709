-- ===== src/Tests/Api.antt =====
-- apps/api and packages/ingest/postgres_job_store.py on a request for one page.
use taboot.Prelude.{
  ℕ, codes, Text, ◌≡◌, refl, false, none, some, [], ◌∷◌, arith, text_eq, if◌then◌else◌, ◌==◌,
}
use taboot.Python.{ok, Exn, Kind}
use taboot.Python.Triples.{Post}
use taboot.Schemas.{IngestionJob, JobState, SourceType}
use taboot.World.{Env}
use taboot.Common.Validators.{validate_url}
use taboot.Ingest.JobStore.{job_row, find_row, create, get_by_id}
use taboot.Ingest.JobStore.Reads.{as_read, get_by_id-create}
use taboot.UseCases.IngestWeb.Timed.{IsPatient}
use taboot.Api.Ingestion.{
  ApiState, Resolver, Task, IngestionRequest, start_ingestion, check_url, execute_ingestion_job,
}
use taboot.Api.Ingestion.Tracked.{IsSteady, execute_ingestion_job-unrecorded}
use taboot.Api.Ingestion.Queued.{IsAcceptable, Accepted, Refused, start_ingestion-Accepted}
use taboot.Api.Ingestion.Followed.{Followed, start_ingestion-Followed}
use taboot.Tests.Pipeline.{env}
use taboot.Tests.Ingestion.{tools, tools-IsFaithful, site}

abbrev url : Text
url = codes "https://a.b"

abbrev resolver : Resolver
resolver = record {
  urlparse = λ t. ok (record { scheme = codes "https"; hostname = some (codes "a.b") });
  lower = λ t. t;
  ip_address = λ t. ok (record {
    is_private = false;
    is_loopback = false;
    is_link_local = false;
    is_reserved = false;
  });
  getaddrinfo = λ t. ok [];
}

abbrev body : IngestionRequest
body = record { source_type = SourceType.web; source_target = url; limit = none }

abbrev server : ApiState ℕ
server = record { site = site; job_rows = []; background_tasks = [] }

env-IsSteady : IsSteady env
env-IsSteady = record { up = λ t. refl; clock = λ s t h. omega arith }

tools-IsPatient : IsPatient tools
tools-IsPatient = record {
  loads = λ k url limit. record { at = λ s h. h };
  posts = λ k texts. record { at = λ s h. h };
  calls = λ k callback e d n. absurd (ground arith);
  upserts = λ k ps. record { at = λ s h. h };
}

url_passes : check_url resolver body.source_target ≡ ok tt
unfolding validate_url text_eq
url_passes = refl

start_ingestion-Followed_example :
    Post
      (Followed env tools body server)
      (λ _. ⊥)
      (start_ingestion env resolver (λ v. (ok tt, v)) (λ v. (ok tt, v)) body server)
unfolding find_row
start_ingestion-Followed_example =
    start_ingestion-Followed env tools resolver (λ v. (ok tt, v)) (λ v. (ok tt, v)) body server
      env-IsSteady tools-IsFaithful tools-IsPatient tt refl refl refl refl url_passes refl refl

start_ingestion-Accepted_example :
    Post
      (λ response after. IsAcceptable resolver body × Accepted env body server response after)
      (Refused env body server)
      (start_ingestion env resolver (λ v. (ok tt, v)) (λ v. (ok tt, v)) body server)
start_ingestion-Accepted_example =
    start_ingestion-Accepted env resolver (λ v. (ok tt, v)) (λ v. (ok tt, v)) body server
      (record { at = λ v. (refl, refl) }) (record { at = λ v. (refl, refl) })

abbrev created : IngestionJob
created = record {
  job_id = 7;
  source_type = SourceType.web;
  source_target = url;
  state = JobState.pending;
  created_at = 100;
  started_at = none;
  completed_at = none;
  pages_processed = 0;
  chunks_created = 0;
  errors = some [];
}

abbrev finished : IngestionJob
finished = record created {
  state = JobState.completed;
  started_at = some 101;
  completed_at = some 105;
  pages_processed = 1;
  chunks_created = 2;
}

get_by_id-create_example :
    let (r, after) = create created [] in
    (r ≡ ok tt)
    × ((get_by_id 7 after).0
        ≡ (if created.job_id == 7 then ok (some (as_read created)) else (get_by_id 7 []).0))
unfolding find_row
get_by_id-create_example = get_by_id-create created [] 7 refl refl

abbrev refused_connection : Exn
refused_connection = record { kind = Kind.connection_error; message = codes "refused" }

abbrev down_env : Env
down_env = record env { fault = λ t. some refused_connection }

abbrev task : Task
task = record { job_id = 7; url = url; limit = none }

abbrev tracking : ApiState ℕ
tracking = record server { job_rows = job_row created ∷ [] }

execute_ingestion_job-unrecorded_example :
    let (r, after) = execute_ingestion_job down_env tools task tracking in
    (r ≡ ok tt) × (after.job_rows ≡ job_row created ∷ [])
execute_ingestion_job-unrecorded_example =
    execute_ingestion_job-unrecorded down_env tools refused_connection tracking task (λ t. refl)
