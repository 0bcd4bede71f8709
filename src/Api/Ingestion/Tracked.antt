-- ===== src/Api/Ingestion/Tracked.antt =====
-- What the table of the jobs says once the background task has run.
use taboot.Prelude.{
  ℕ, ◌+◌, ◌≤◌, ◌≡◌, refl, ◌⊎◌, inl, inr, true, none, some, List, [], ◌∷◌, ◌++◌, length, codes,
  arith, ==_refl,
}
use taboot.Python.{Outcome, ok, raised, Exn, pure, resume, settle, try_else, ◌>>=◌, ◌>>◌}
use taboot.Python.Triples.{Post, Post-both}
use taboot.Schemas.{has_length, IngestionJob, JobError}
use taboot.Vector.Writer.{PointStruct}
use taboot.World.{Env, service}
use taboot.Ingest.JobStore.{
  rows_pass, passes_checks, job_row, find_row, set_progress, get_by_id, update,
}
use taboot.Ingest.JobStore.Reads.{IsKeyed, as_read, progressed, rows_pass-keyed, get_by_id-set_rows}
use taboot.UseCases.IngestWeb.{Site, Tools, on_world, execute}
use taboot.UseCases.IngestWeb.Kept.{IsFaithful}
use taboot.UseCases.IngestWeb.Counting.{Accounted}
use taboot.UseCases.IngestWeb.Accounting.{ingest_web-Accounted}
use taboot.UseCases.IngestWeb.Timed.{IsPatient, Ended, execute-Ended}
use taboot.Api.Ingestion.{
  ApiState, Task, IngestionJobStatus, job_status, in_site, in_jobs, connect, on_jobs,
  execute_ingestion_job, get_ingestion_status,
}

-- No call of a service fails, and the clock does not go back.
pub record IsSteady (env : Env) : Type 0 where
  pub up : (t : ℕ) → env.fault t ≡ none
  pub clock : (s t : ℕ) → s ≤ t → env.now s ≤ env.now t

module _ {F : Type 0} (env : Env) (v : ApiState F) where
  -- What the task does behind the use case.
  abbrev record_job : Outcome IngestionJob × Site F → Outcome (Unit {0}) × ApiState F
  record_job p =
      settle (resume (p.0, record v { site = p.1 }) (λ job. on_jobs env (update job))) pure
        (λ e. pure tt)

-- An `Ended` job's timestamps are in order behind those of a job created before.
Ended-passes_checks :
    (env : Env)
    → IsSteady env
    → (old job : IngestionJob) (i base : ℕ) → old.created_at ≤ env.now base
    → Ended env i base job
    → passes_checks (set_progress job (job_row old)) ≡ true
Ended-passes_checks env steady old job i base before (k, l, from, order, started, completed, own) =
    rw (started, completed)
      (let h : env.now base ≤ env.now k = steady.clock base k from in
        let h' : env.now k ≤ env.now l = steady.clock k l order in ground arith)

-- What a status says of the points that a task added: COMPLETED with as many chunks and no error, or
-- FAILED with at most as many chunks and one error.
abbrev pub Reports : IngestionJobStatus → ℕ → Type 0
Reports status added =
    ((status.state ≡ codes "completed") × (status.chunks_created ≡ added) × (status.errors ≡ none))
    ⊎ ((status.state ≡ codes "failed")
        × (status.chunks_created ≤ added)
        × (e : JobError) × (status.errors ≡ some (e ∷ [])))

module _ {F : Type 0} (env : Env) (v : ApiState F) (old : IngestionJob) where
  -- The status of the job is about this job, was started and ended since, and accounts for the points.
  abbrev pub Reported : Outcome (Unit {0}) × ApiState F → Type 0
  Reported (r, after) =
      (r ≡ ok tt)
      × (status : IngestionJobStatus) × (ps : List (PointStruct F)) × ((get_ingestion_status env
            old.job_id after).0
          ≡ ok status)
      × (after.site.points ≡ v.site.points ++ ps)
      × Reports status (length ps)
      × (status.job_id ≡ old.job_id)
      × (status.source_target ≡ old.source_target)
      × (status.created_at ≡ old.created_at)
      × (k l : ℕ) × (v.site.world.ticks ≤ k)
      × (k ≤ l)
      × (status.started_at ≡ some (env.now k))
      × (status.completed_at ≡ some (env.now l))

-- What is read of a job that accounts for its points.
Reports-progressed :
    {F : Type 0} (base : List (PointStruct F)) (old job : IngestionJob) (s : Site F)
    → Accounted base job s
    → (ps : List (PointStruct F)) × (s.points ≡ base ++ ps)
      × Reports (job_status (as_read (progressed old job))) (length ps)
Reports-progressed base old job s (ps, at, inl (state, chunks, errors)) =
    (ps, at, inl (rw state refl, chunks, rw errors refl))
Reports-progressed base old job s (ps, at, inr (state, chunks, e, errors)) =
    (ps, at, inr (rw state refl, chunks, e, rw errors refl))

module _ {F : Type 0} (env : Env) (steady : IsSteady env) (v : ApiState F) (old : IngestionJob)
    (keyed : IsKeyed v.job_rows) (stored : find_row old.job_id v.job_rows ≡ some (job_row old))
    (before : old.created_at ≤ env.now v.site.world.ticks) where
  status-read :
      (i : ℕ) (job : IngestionJob) (after : ApiState F)
      → (get_by_id i after.job_rows).0 ≡ ok (some job)
      → (get_ingestion_status env i after).0 ≡ ok (job_status job)
  unfolding get_ingestion_status connect on_jobs in_site in_jobs on_world service ◌>>=◌ ◌>>◌
  status-read i job after h =
      rw (steady.up after.site.world.ticks)
        (rw (steady.up (after.site.world.ticks + 1)) (rw h refl))

  record_job-Reported :
      (p : Outcome IngestionJob × Site F)
      → Post
          (λ job s. Accounted v.site.points job s × Ended env old.job_id v.site.world.ticks job)
          (λ _. ⊥ × ⊥)
          p
      → Reported env v old (record_job env v p)
  unfolding on_jobs in_site in_jobs on_world service ◌>>◌ update
  record_job-Reported (raised e, s) h = absurd (h.0)
  record_job-Reported (ok job, s) (counted, ended) =
      let own : job.job_id ≡ old.job_id = ended.6 in
      let there : find_row job.job_id v.job_rows ≡ some (job_row old) = rw own stored in
      let pass : rows_pass job v.job_rows ≡ true =
        rows_pass-keyed job v.job_rows (job_row old) keyed there
          (Ended-passes_checks env steady old job old.job_id v.site.world.ticks before ended) in
      rw (steady.up s.world.ticks) (
        rw pass (
          let (k, l, from, order, started, completed, _) = ended in
          let (ps, at, reports) = Reports-progressed v.site.points old job s counted in
          (
            refl,
            job_status (as_read (progressed old job)),
            ps,
            status-read old.job_id _ _ (
                get_by_id-set_rows job old v.job_rows old.job_id stored
                  (rw own (==_refl old.job_id))),
            at,
            reports,
            refl,
            refl,
            refl,
            k,
            l,
            from,
            order,
            started,
            completed,
          )))

-- The background task of a job that is stored, created not after the clock's reading, with a URL of 1 to
-- 2048 characters, on tools that write points or fail and never take the clock back, while every
-- service answers: the task ends without an exception, whatever the tools raise, and then the
-- status of the job is COMPLETED, with as many chunks as there are new points and no error, or FAILED
-- with at most as many chunks and one error, and was started and ended since.
pub execute_ingestion_job-Reported :
    {F : Type 0} (env : Env) (tools : Tools F)
    → IsSteady env
    → IsFaithful tools
    → IsPatient tools
    → (v : ApiState F) (old : IngestionJob) (task : Task) → IsKeyed v.job_rows
    → find_row old.job_id v.job_rows ≡ some (job_row old)
    → old.created_at ≤ env.now v.site.world.ticks
    → task.job_id ≡ old.job_id
    → has_length 2048 task.url ≡ true
    → Reported env v old (execute_ingestion_job env tools task v)
unfolding execute_ingestion_job try_else in_site ◌>>=◌
execute_ingestion_job-Reported env tools steady faithful patient v old task keyed stored before own
      valid =
    rw own (
      record_job-Reported env steady v old keyed stored before
        (execute env tools task.url task.limit (some old.job_id) v.site)
        (Post-both (λ job s. Accounted v.site.points job s)
          (λ job s. Ended env old.job_id v.site.world.ticks job) (λ _. ⊥) (λ _. ⊥)
          (execute env tools task.url task.limit (some old.job_id) v.site)
          (ingest_web-Accounted env tools faithful task.url task.limit (some old.job_id) v.site
            valid)
          (execute-Ended env tools patient old.job_id v.site.world.ticks task.url task.limit v.site
            valid (omega arith))))

-- While no service can be reached, the background task ends without an exception all the same, and the
-- table of the jobs stays as it was: a job that was created PENDING still reads so.
pub execute_ingestion_job-unrecorded :
    {F : Type 0} (env : Env) (tools : Tools F) (e : Exn) (v : ApiState F) (task : Task)
    → ((t : ℕ) → env.fault t ≡ some e)
    → let (r, after) = execute_ingestion_job env tools task v in
      (r ≡ ok tt) × (after.job_rows ≡ v.job_rows)
unfolding execute_ingestion_job on_jobs in_site in_jobs on_world service try_else ◌>>=◌ ◌>>◌
execute_ingestion_job-unrecorded {F = F} env tools e v task down =
    go (execute env tools task.url task.limit (some task.job_id) v.site)
  where
    go :
        (p : Outcome IngestionJob × Site F)
        → let (r, after) = record_job env v p in (r ≡ ok tt) × (after.job_rows ≡ v.job_rows)
    go (ok job, s) = rw (down s.world.ticks) (refl, refl)
    go (raised x, s) = (refl, refl)
