-- ===== src/Extraction/Orchestrator/Records.antt =====
-- What `process_document` leaves in the services, however it ends.
use taboot.Prelude.{ℕ, zero, suc, ◌+◌, Text, ◌≡◌, ◌≢◌, refl, ◌∙◌, none, some, List, ◌∷◌, leb, All}
use taboot.Python.{Exn, Exec, ◌>>=◌}
use taboot.Python.Triples.{
  Preserves, preserving, Preserves-if, Preserves-try, Preserves-pure, Preserves-then,
}
use taboot.Schemas.{ExtractionState, ExtractionJob}
use taboot.World.{World, Env, tick, now_utc, fresh_uuid}
use taboot.World.Kept.{Preserves-now_utc, Preserves-save_job}
use taboot.Extraction.{ExtractionWindow}
use taboot.Extraction.Orchestrator.{
  Tiers, Frame, in_world, create_job, run_tier_a, run_tier_b, run_tier_c, report, change,
  update_state, attempt, give_up, recover, fall_back, retry_loop, run_job, process_document,
  unframe,
}

-- The job stands at none of the tiers.
abbrev pub NoTier : ExtractionJob → Type 0
NoTier job =
    (job.state ≢ ExtractionState.tier_a_done)
    × (job.state ≢ ExtractionState.tier_b_done)
    × (job.state ≢ ExtractionState.tier_c_done)

completed_no_tier :
    (ExtractionState.completed ≢ ExtractionState.tier_a_done)
    × (ExtractionState.completed ≢ ExtractionState.tier_b_done)
    × (ExtractionState.completed ≢ ExtractionState.tier_c_done)
completed_no_tier = (λ e. cc, λ e. cc, λ e. cc)

failed_no_tier :
    (ExtractionState.failed ≢ ExtractionState.tier_a_done)
    × (ExtractionState.failed ≢ ExtractionState.tier_b_done)
    × (ExtractionState.failed ≢ ExtractionState.tier_c_done)
failed_no_tier = (λ e. cc, λ e. cc, λ e. cc)

pending_no_tier :
    (ExtractionState.pending ≢ ExtractionState.tier_a_done)
    × (ExtractionState.pending ≢ ExtractionState.tier_b_done)
    × (ExtractionState.pending ≢ ExtractionState.tier_c_done)
pending_no_tier = (λ e. cc, λ e. cc, λ e. cc)

module _ (env : Env) (tiers : Tiers) (P : World → Type 0) (P-tick : (w : World) → P w → P (tick w))
    (P-save : (w : World) (i : ℕ) (job : ExtractionJob)
      → NoTier job
      → P w
      → P (record w { jobs = (i, job) ∷ w.jobs }))
    (P-batch_extract : (xs : List Text) → Preserves P (tiers.batch_extract xs)) where
  -- The frame while the job stands at no tier.
  abbrev K : Frame → Type 0
  K f = NoTier f.job × P f.world

  in_world-Preserves : {A : Type 0} (m : Exec World A) → Preserves P m → Preserves K (in_world m)
  unfolding in_world
  in_world-Preserves m k = record { at = λ f h. (h.0, k.at f.world h.1) }

  report-Preserves : (s : ExtractionState) → Preserves K (report env tiers s)
  unfolding report in_world update_state
  report-Preserves s = record {
    at = λ f h. (
      h.0,
      (Preserves-save_job env P P-tick f.job.job_id f.job
            (λ w p. P-save w f.job.job_id f.job h.0 p)).at
          f.world h.1,
    );
  }

  change-Preserves :
      (g : ExtractionJob → ExtractionJob)
      → ((job : ExtractionJob) → NoTier job → NoTier (g job))
      → Preserves K (change env tiers g)
  unfolding change
  change-Preserves g k = record { at = λ f h. (k f.job h.0, h.1) }

  now_utc-Preserves : Preserves P (now_utc env)
  now_utc-Preserves = Preserves-now_utc env P P-tick

  run_tier_a-Preserves : (content : Text) → Preserves P (run_tier_a env tiers content)
  unfolding run_tier_a
  run_tier_a-Preserves content = search preserving

  run_tier_b-Preserves : (content : Text) → Preserves P (run_tier_b env tiers content)
  unfolding run_tier_b
  run_tier_b-Preserves content = search preserving

  run_tier_c-Preserves :
      (windows : List ExtractionWindow) → Preserves P (run_tier_c env tiers windows)
  unfolding run_tier_c
  run_tier_c-Preserves windows = search (preserving, P-batch_extract)

  attempt-Preserves : (content : Text) → Preserves K (attempt env tiers content)
  unfolding attempt
  attempt-Preserves content =
      search
        (
          preserving, in_world-Preserves, report-Preserves, change-Preserves, run_tier_a-Preserves,
          run_tier_b-Preserves, run_tier_c-Preserves, now_utc-Preserves, completed_no_tier,
        )
        depth 40

  give_up-Preserves : (e : Exn) (n : ℕ) → Preserves K (give_up env tiers e n)
  unfolding give_up
  give_up-Preserves e n =
      search
        (
          preserving, in_world-Preserves, report-Preserves, change-Preserves, now_utc-Preserves,
          failed_no_tier,
        )
        depth 40

  recover-Preserves :
      (n : ℕ) (again : Exec Frame ExtractionJob) (e : Exn)
      → Preserves K again
      → Preserves K (recover env tiers n again e)
  unfolding recover
  recover-Preserves n again e k = search (preserving, change-Preserves, give_up-Preserves) depth 20

  fall_back-Preserves : Preserves K (fall_back env tiers)
  unfolding fall_back
  fall_back-Preserves =
      search (preserving, in_world-Preserves, change-Preserves, now_utc-Preserves, failed_no_tier)
        depth 40

  retry_loop-Preserves :
      (content : Text) (fuel n : ℕ) → Preserves K (retry_loop env tiers fuel n content)
  unfolding retry_loop
  retry_loop-Preserves content zero n = record { at = λ s h. h }
  retry_loop-Preserves content (suc fuel) n =
      Preserves-if (leb n 3) _ _
        (Preserves-try (attempt env tiers content) _ _ (attempt-Preserves content)
          (λ job. Preserves-pure job)
          (λ e. recover-Preserves (n + 1) _ e (retry_loop-Preserves content fuel (n + 1))))
        fall_back-Preserves

  unframe-Preserves :
      (content : Text) (job : ExtractionJob)
      → NoTier job
      → Preserves P (λ w.
        unframe env tiers (retry_loop env tiers 5 0 content (record { world = w; job = job })))
  unframe-Preserves content job j = record {
    at = λ w h. ((retry_loop-Preserves content 5 0).at (record { world = w; job = job }) (j, h)).1;
  }

  run_job-Preserves :
      (content : Text) (job : ExtractionJob)
      → NoTier job
      → Preserves P (run_job env tiers content job)
  unfolding run_job update_state
  run_job-Preserves content job j =
      Preserves-then _ _
        (Preserves-save_job env P P-tick job.job_id job (λ w h. P-save w job.job_id job j h))
        (unframe-Preserves content job j)

  -- Whatever survives a tick, the extraction of triples and the record of a job that stands at no
  -- tier, `process_document` keeps, however it ends.
  pub process_document-Preserves :
      (doc_id : ℕ) (content : Text) → Preserves P (process_document env tiers doc_id content)
  unfolding process_document create_job fresh_uuid now_utc ◌>>=◌
  process_document-Preserves doc_id content = record {
    at = λ w h.
        let job : ExtractionJob = record {
          job_id = env.uuid4 w.ticks;
          doc_id = doc_id;
          state = ExtractionState.pending;
          tier_a_triples = 0;
          tier_b_windows = 0;
          tier_c_triples = 0;
          started_at = some (env.now (w.ticks + 1));
          completed_at = none;
          retry_count = 0;
          errors = none;
        } in
        (run_job-Preserves content job pending_no_tier).at (tick (tick w))
          (P-tick (tick w) (P-tick w h));
  }

module _ (env : Env) (tiers : Tiers) (doc_id : ℕ) (content : Text) where
  -- Redis never holds a job at TIER_A_DONE, TIER_B_DONE or TIER_C_DONE: a record is PENDING,
  -- COMPLETED or FAILED, whatever the tiers and the services do, provided that the LLM client
  -- writes no job records and none was there.
  pub process_document-NoTier :
      ((xs : List Text) (w : World) → (tiers.batch_extract xs w).1.jobs ≡ w.jobs)
      → (w : World) → All (λ r. NoTier r.1) w.jobs
      → All (λ r. NoTier r.1) (process_document env tiers doc_id content w).1.jobs
  process_document-NoTier quiet =
      (process_document-Preserves env tiers (λ w. All (λ r. NoTier r.1) w.jobs) (λ w h. h)
        (λ w i job j h. (j, h)) (λ xs. record { at = λ w h. rw quiet h }) doc_id content).at

  -- No document of the store is touched, provided that the LLM client touches none.
  pub process_document-store :
      ((xs : List Text) (w : World) → (tiers.batch_extract xs w).1.store ≡ w.store)
      → (w : World) → (process_document env tiers doc_id content w).1.store ≡ w.store
  process_document-store quiet w =
      (process_document-Preserves env tiers (λ v. v.store ≡ w.store) (λ v h. h) (λ v i job j h. h)
          (λ xs. record { at = λ v h. quiet xs v ∙ h }) doc_id content).at
        w refl
