-- ===== src/Api/Ingestion/Queued.antt =====
-- What `start_ingestion` accepts, and what it leaves when it refuses.
use taboot.Prelude.{
  Text, codes, Option, some, is_empty, length, false, ℕ, ◌+◌, ◌≤◌, ◌≡◌, refl, ◌∙◌, ◌⊎◌, inl, inr,
  true, none, [], ◌∷◌, ◌++◌, arith, Bool-cases, Option-cases,
}
use taboot.Python.{Outcome, ok, raised, Exec, resume, lift, ◌>>=◌, ◌>>◌}
use taboot.Python.Triples.{Post, Post-resume, Post-weaken}
use taboot.Schemas.{has_length, IngestionJob, JobState, SourceType}
use taboot.World.{Env, now_utc, fresh_uuid, service}
use taboot.Ingest.JobStore.{job_row, find_row, create}
use taboot.Common.Validators.{validate_url}
use taboot.UseCases.IngestWeb.{on_world}
use taboot.Api.Ingestion.{
  ApiState, Task, Resolver, IngestionRequest, IngestionJobResponse, validate_request,
  check_source_type, check_url, new_job, in_site, at_least_one, or_bad_request,
  is_url_validation_error, in_jobs, connect, on_jobs, queue_job, start_ingestion,
}

-- A dependency of a route leaves the jobs, the tasks and the clock's readings alone.
pub record IsBystander {F : Type 0} (m : Exec (ApiState F) (Unit {0})) : Type 0 where
  pub at :
      (v : ApiState F)
      → ((m v).1.job_rows ≡ v.job_rows) × ((m v).1.background_tasks ≡ v.background_tasks)

module _ {F : Type 0} (env : Env) (body : IngestionRequest) (v : ApiState F) where
  abbrev pub task_of : IngestionJob → Task
  task_of job = record { job_id = job.job_id; url = body.source_target; limit = body.limit }

  -- A job for the web page of the body was created under a new id, and one task for it is queued.
  abbrev pub Accepted : IngestionJobResponse → ApiState F → Type 0
  Accepted response after =
      (job : IngestionJob) × (job.state ≡ JobState.pending)
      × (job.source_type ≡ body.source_type)
      × (job.source_target ≡ body.source_target)
      × (job.chunks_created ≡ 0)
      × (response.job_id ≡ job.job_id)
      × (response.state ≡ codes "pending")
      × (response.source_target ≡ body.source_target)
      × (length body.source_target ≤ 2048)
      × (find_row job.job_id v.job_rows ≡ none)
      × (after.job_rows ≡ v.job_rows ++ job_row job ∷ [])
      × (after.background_tasks ≡ v.background_tasks ++ task_of job ∷ [])
      × (k : ℕ) × (job.created_at ≡ env.now k)
      × (k ≤ after.site.world.ticks)

  -- No task is queued; a job may have been created.
  abbrev pub Refused : ApiState F → Type 0
  Refused after =
      (after.background_tasks ≡ v.background_tasks)
      × ((after.job_rows ≡ v.job_rows)
          ⊎ ((job : IngestionJob) × (job.state ≡ JobState.pending)
              × (after.job_rows ≡ v.job_rows ++ job_row job ∷ [])))

-- A body that is for a web page, has a target and no limit but a positive one, and whose target passes
-- the validation of URLs.
pub record IsAcceptable (resolver : Resolver) (body : IngestionRequest) : Type 0 where
  pub web : body.source_type ≡ SourceType.web
  pub filled : 1 ≤ length body.source_target
  pub positive : (n : ℕ) → body.limit ≡ some n → 1 ≤ n
  pub validated :
      validate_url resolver.urlparse resolver.lower resolver.ip_address resolver.getaddrinfo
        body.source_target
      ≡ ok tt

is_web : (t : SourceType) → check_source_type t ≡ ok tt → t ≡ SourceType.web
is_web SourceType.web h = refl
is_web SourceType.github h = absurd cc
is_web SourceType.reddit h = absurd cc
is_web SourceType.youtube h = absurd cc
is_web SourceType.gmail h = absurd cc
is_web SourceType.elasticsearch h = absurd cc
is_web SourceType.docker_compose h = absurd cc
is_web SourceType.swag h = absurd cc
is_web SourceType.tailscale h = absurd cc
is_web SourceType.unifi h = absurd cc
is_web SourceType.ai_session h = absurd cc

positive_limit : (o : Option ℕ) → at_least_one o ≡ true → (n : ℕ) → o ≡ some n → 1 ≤ n
positive_limit o h n e = let k : at_least_one (some n) ≡ true = rw e at h in ground arith

or_bad_request-ok : (r : Outcome (Unit {0})) → or_bad_request r ≡ ok tt → r ≡ ok tt
or_bad_request-ok (ok tt) h = refl
or_bad_request-ok (raised e) h = elim (Bool-cases (is_url_validation_error e.kind)) [
  | inl refused ↦ absurd (ground arith)
  | inr other ↦ absurd (ground arith)
]

filled_text : (t : Text) → is_empty t ≡ false → 1 ≤ length t
filled_text [] h = absurd cc
filled_text (c ∷ t) h = omega arith

valid_body :
    (body : IngestionRequest)
    → validate_request body ≡ ok tt
    → (1 ≤ length body.source_target) × (at_least_one body.limit ≡ true)
valid_body body h = elim (Bool-cases (is_empty body.source_target)) [
  | inl none_there ↦ absurd (ground arith)
  | inr there ↦ elim (Bool-cases (at_least_one body.limit)) [
    | inl good ↦ (filled_text body.source_target there, good)
    | inr bad ↦ absurd (ground arith)
  ]
]

IsAcceptable-checks :
    (resolver : Resolver) (body : IngestionRequest)
    → validate_request body ≡ ok tt
    → check_source_type body.source_type ≡ ok tt
    → check_url resolver body.source_target ≡ ok tt
    → IsAcceptable resolver body
IsAcceptable-checks resolver body valid web safe = record {
  web = is_web body.source_type web;
  filled = (valid_body body valid).0;
  positive = positive_limit body.limit (valid_body body valid).1;
  validated = or_bad_request-ok _ safe;
}

short : (t : Text) → has_length 2048 t ≡ true → length t ≤ 2048
short t h = ground arith

module _ {F : Type 0} (env : Env) (body : IngestionRequest) where
  queue_job-Accepted :
      (v : ApiState F) → Post (Accepted env body v) (Refused env body v) (queue_job env body v)
  unfolding queue_job connect on_jobs in_site in_jobs on_world service fresh_uuid now_utc create
      ◌>>=◌ ◌>>◌
  queue_job-Accepted v = elim (Bool-cases (has_length 2048 body.source_target)) [
    | inr long ↦ rw long (refl, inl refl)
    | inl valid ↦ rw valid (
        let t = v.site.world.ticks in
        let job = new_job body (env.uuid4 t) (env.now (t + 1)) in
        elim (Option-cases (env.fault (t + 1 + 1))) [
          | inr (e, down) ↦ rw down (refl, inl refl)
          | inl up ↦ rw up (elim (Option-cases (env.fault (t + 1 + 1 + 1))) [
            | inr (e, down) ↦ rw down (refl, inl refl)
            | inl up ↦ rw up (elim (Option-cases (find_row (env.uuid4 t) v.job_rows)) [
              | inr (row, taken) ↦ rw taken (refl, inl refl)
              | inl new ↦ rw new (elim (Option-cases (env.fault (t + 1 + 1 + 1 + 1))) [
                | inr (e, down) ↦ rw down (refl, inr (job, refl, refl))
                | inl up ↦ rw up (
                  job,
                  refl,
                  refl,
                  refl,
                  refl,
                  refl,
                  refl,
                  refl,
                  short body.source_target valid,
                  new,
                  refl,
                  refl,
                  t + 1,
                  refl,
                  omega arith,
                )
              ])
            ])
          ])
        ])
  ]

-- The state of the server, but for its services, is that of `v`.
abbrev Same : {F : Type 0} → ApiState F → ApiState F → Type 0
Same v s = (s.job_rows ≡ v.job_rows) × (s.background_tasks ≡ v.background_tasks)

module _ {F : Type 0} (env : Env) (body : IngestionRequest) (v : ApiState F) where
  Accepted-Same :
      (s after : ApiState F) (response : IngestionJobResponse)
      → Same v s
      → Accepted env body s response after
      → Accepted env body v response after
  Accepted-Same s after response (rows, tasks)
        (
          job, pending, source, target, none_yet, i, st, answer, valid, new, created, queued, k, at,
          past,
        ) =
      (
        job,
        pending,
        source,
        target,
        none_yet,
        i,
        st,
        answer,
        valid,
        rw rows at new,
        rw rows at created,
        rw tasks at queued,
        k,
        at,
        past,
      )

  Refused-Same :
      (s after : ApiState F) → Same v s → Refused env body s after → Refused env body v after
  Refused-Same s after (rows, tasks) (queued, inl same) = (queued ∙ tasks, inl (same ∙ rows))
  Refused-Same s after (rows, tasks) (queued, inr (job, pending, created)) =
      (queued ∙ tasks, inr (job, pending, rw rows at created))

  bystander-Post :
      (m : Exec (ApiState F) (Unit {0})) (s : ApiState F)
      → IsBystander m
      → Same v s
      → Post (λ _ u. Same v u) (Refused env body v) (m s)
  bystander-Post m s calm same = go (m s) ((calm.at s).0 ∙ same.0) ((calm.at s).1 ∙ same.1)
    where
      go :
          (p : Outcome (Unit {0}) × ApiState F)
          → p.1.job_rows ≡ v.job_rows
          → p.1.background_tasks ≡ v.background_tasks
          → Post (λ _ u. Same v u) (Refused env body v) p
      go (ok _, u) rows tasks = (rows, tasks)
      go (raised e, u) rows tasks = (tasks, inl rows)

  check-Post :
      (r : Outcome (Unit {0})) (s : ApiState F)
      → Same v s
      → Post (λ _ u. Same v u × (r ≡ ok tt)) (Refused env body v) (lift r s)
  check-Post (ok _) s same = (same, refl)
  check-Post (raised e) s (rows, tasks) = (tasks, inl rows)

-- On dependencies that leave the jobs and the tasks alone, `start_ingestion` only accepts a request
-- for the source type `web`, with a limit of at least 1 if there is one, and a target of 1 to 2048
-- characters for which `validate_url` returns: then one PENDING job with that target was created
-- under a new id, exactly one task for it and the target is queued, and the response names the job,
-- its state and the target. When it raises, no task is queued, and the table is unchanged or has one
-- more PENDING job.
pub start_ingestion-Accepted :
    {F : Type 0} (env : Env) (resolver : Resolver)
    (verify_api_key rate_limit : Exec (ApiState F) (Unit {0})) (body : IngestionRequest)
    (v : ApiState F)
    → IsBystander verify_api_key
    → IsBystander rate_limit
    → Post
        (λ response after. IsAcceptable resolver body × Accepted env body v response after)
        (Refused env body v)
        (start_ingestion env resolver verify_api_key rate_limit body v)
unfolding start_ingestion ◌>>=◌ ◌>>◌
start_ingestion-Accepted {F = F} env resolver verify_api_key rate_limit body v verifies limits =
    Post-resume R E Same_v (verify_api_key v) _
      (bystander-Post env body v verify_api_key v verifies (refl, refl))
      (λ _ s same.
        Post-resume R E (λ _ u. Same v u × (validate_request body ≡ ok tt))
          (lift (validate_request body) s) _ (check-Post env body v (validate_request body) s same)
          (λ _ s (same, valid).
            Post-resume R E Same_v (rate_limit s) _
              (bystander-Post env body v rate_limit s limits same)
              (λ _ s same. checked valid s same)))
  where
    R : IngestionJobResponse → ApiState F → Type 0
    R response after = IsAcceptable resolver body × Accepted env body v response after

    E : ApiState F → Type 0
    E = Refused env body v

    Same_v : Unit {0} → ApiState F → Type 0
    Same_v _ s = Same v s

    checked :
        validate_request body ≡ ok tt
        → (s : ApiState F) → Same v s
        → Post R E (
            resume
              (lift (check_source_type body.source_type) s)
              (λ _. lift (check_url resolver body.source_target) >> queue_job env body))
    checked valid s same =
        Post-resume R E (λ _ u. Same v u × (check_source_type body.source_type ≡ ok tt))
          (lift (check_source_type body.source_type) s) _
          (check-Post env body v (check_source_type body.source_type) s same)
          (λ _ s (same, web).
            Post-resume R E (λ _ u. Same v u × (check_url resolver body.source_target ≡ ok tt))
              (lift (check_url resolver body.source_target) s) _
              (check-Post env body v (check_url resolver body.source_target) s same)
              (λ _ s (same, safe).
                Post-weaken _ _ _ _ (queue_job env body s) (queue_job-Accepted env body s)
                  (λ response after h. (
                    IsAcceptable-checks resolver body valid web safe,
                    Accepted-Same env body v s after response same h,
                  ))
                  (λ after h. Refused-Same env body v s after same h)))
