-- ===== src/Api/Ingestion/Followed.antt =====
-- A request from its start over the background task to the status that is reported.
use taboot.Prelude.{◌+◌, ◌≡◌, refl, codes, true, none, some, [], ◌∷◌, ◌++◌, arith, ==_refl}
use taboot.Python.{ok, Exec, ◌>>=◌, ◌>>◌}
use taboot.Python.Triples.{Post}
use taboot.Schemas.{has_length, IngestionJob}
use taboot.World.{Env, now_utc, fresh_uuid, service}
use taboot.Ingest.JobStore.{JobRow, job_row, find_row, create}
use taboot.Ingest.JobStore.Reads.{IsKeyed, IsKeyed-append, find_row-append}
use taboot.UseCases.IngestWeb.{Tools, on_world}
use taboot.UseCases.IngestWeb.Kept.{IsFaithful}
use taboot.UseCases.IngestWeb.Timed.{IsPatient}
use taboot.Api.Ingestion.{
  ApiState, Resolver, IngestionRequest, IngestionJobResponse, validate_request, check_source_type,
  check_url, new_job, in_site, in_jobs, connect, on_jobs, execute_ingestion_job, queue_job,
  start_ingestion,
}
use taboot.Api.Ingestion.Tracked.{IsSteady, Reported, execute_ingestion_job-Reported}
use taboot.Api.Ingestion.Queued.{task_of}

-- The response is of a PENDING job for the URL, one task is queued for it, and running the task leaves
-- the job reported.
abbrev pub Followed :
    {F : Type 0}
    → Env
    → Tools F
    → IngestionRequest
    → ApiState F
    → IngestionJobResponse
    → ApiState F
    → Type 0
Followed env tools body v response after =
    (job : IngestionJob) × (response.job_id ≡ job.job_id)
    × (response.state ≡ codes "pending")
    × (response.source_target ≡ body.source_target)
    × (job.source_target ≡ body.source_target)
    × (after.background_tasks ≡ v.background_tasks ++ task_of env body v job ∷ [])
    × Reported env after job (execute_ingestion_job env tools (task_of env body v job) after)

module _ {F : Type 0} (env : Env) (tools : Tools F) (steady : IsSteady env)
    (faithful : IsFaithful tools) (patient : IsPatient tools) (body : IngestionRequest)
    (v : ApiState F) (keyed : IsKeyed v.job_rows)
    (valid : has_length 2048 body.source_target ≡ true)
    (new : find_row (env.uuid4 v.site.world.ticks) v.job_rows ≡ none) where
  stored :
      (row : JobRow)
      → find_row row.job_id v.job_rows ≡ none
      → find_row row.job_id (v.job_rows ++ row ∷ []) ≡ some row
  stored row gone = rw (find_row-append row.job_id v.job_rows row gone) (rw (==_refl row.job_id))

  queue_job-Followed : Post (Followed env tools body v) (λ _. ⊥) (queue_job env body v)
  unfolding queue_job connect on_jobs in_site in_jobs on_world service fresh_uuid now_utc create
      ◌>>=◌ ◌>>◌
  queue_job-Followed =
      let t = v.site.world.ticks in
      let job = new_job body (env.uuid4 t) (env.now (t + 1)) in
      rw valid (
        rw (steady.up (t + 1 + 1)) (
          rw (steady.up (t + 1 + 1 + 1)) (
            rw new (
              rw (steady.up (t + 1 + 1 + 1 + 1)) (
                job,
                refl,
                refl,
                refl,
                refl,
                refl,
                execute_ingestion_job-Reported env tools steady faithful patient _ job
                    (task_of env body v job) (IsKeyed-append v.job_rows (job_row job) keyed new)
                    (stored (job_row job) new) (steady.clock _ _ (omega arith)) refl valid,
              )))))

-- A valid request for a web page that passes the route's dependencies, with a URL that `validate_url`
-- accepts and of at most 2048 characters, under a new id, while every service answers and the
-- clock does not go back, on tools that write points or fail: `start_ingestion` returns a PENDING job
-- for that URL, one task is queued for it, and once the task has run, without an exception, the
-- status that is read for the job is `completed`, with as many chunks as there are new points and no
-- error, or `failed` with at most as many chunks and one error; it is of the same job and URL, and
-- its times are readings of the clock since the response.
pub start_ingestion-Followed :
    {F : Type 0} (env : Env) (tools : Tools F) (resolver : Resolver)
    (verify_api_key rate_limit : Exec (ApiState F) (Unit {0})) (body : IngestionRequest)
    (v : ApiState F)
    → IsSteady env
    → IsFaithful tools
    → IsPatient tools
    → IsKeyed v.job_rows
    → verify_api_key v ≡ (ok tt, v)
    → rate_limit v ≡ (ok tt, v)
    → validate_request body ≡ ok tt
    → check_source_type body.source_type ≡ ok tt
    → check_url resolver body.source_target ≡ ok tt
    → has_length 2048 body.source_target ≡ true
    → find_row (env.uuid4 v.site.world.ticks) v.job_rows ≡ none
    → Post
        (Followed env tools body v)
        (λ _. ⊥)
        (start_ingestion env resolver verify_api_key rate_limit body v)
unfolding start_ingestion ◌>>◌
start_ingestion-Followed env tools resolver verify_api_key rate_limit body v steady faithful patient
      keyed verified limited valid web safe short new =
    rw verified (
      rw valid (
        rw limited (
          rw web (
            rw safe
              (queue_job-Followed env tools steady faithful patient body v keyed short new)))))
