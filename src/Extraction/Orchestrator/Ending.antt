-- ===== src/Extraction/Orchestrator/Ending.antt =====
-- How `process_document` ends.
use taboot.Prelude.{
  ℕ, zero, suc, ◌+◌, ◌≤◌, Text, ◌≡◌, refl, ◌∙◌, true, ◌⊎◌, inl, inr, none, some, List, ◌∷◌, length,
  leb, Bool-cases, Option-cases, arith,
}
use taboot.Python.{Outcome, ok, raised, Exn, Exec, pure, resume, try_else, ◌>>=◌, ◌>>◌}
use taboot.Python.Triples.{Post, Post-resume, Post-settle, Post-any}
use taboot.Schemas.{ExtractionState, ErrorEntry, ExtractionJob}
use taboot.World.{World, Env, save_job, tick, now_utc, fresh_uuid}
use taboot.Extraction.Orchestrator.{
  Tiers, Frame, in_world, in_frame, create_job, run_tier_a, run_tier_b, run_tier_c, update_state,
  report, change, attempt, give_up, recover, retry_loop, run_job, process_document, unframe,
}

-- The job is done after at most two failed attempts and has no error, or it failed three times
-- and has an error entry.
abbrev pub IsSettled : ExtractionJob → Type 0
IsSettled job =
    ((job.state ≡ ExtractionState.completed) × (job.retry_count ≤ 2) × (job.errors ≡ none))
    ⊎ ((job.state ≡ ExtractionState.failed)
        × (job.retry_count ≡ 3)
        × (e : ErrorEntry) × (job.errors ≡ some e)
        × (e.retry_count ≡ 3))

-- The latest record of the job in Redis is the job.
abbrev pub IsSaved : ExtractionJob → World → Type 0
IsSaved job w = (earlier : List (ℕ × ExtractionJob)) × (w.jobs ≡ (job.job_id, job) ∷ earlier)

pub save_job-Post :
    (env : Env) (i : ℕ) (job : ExtractionJob) (w : World)
    → Post (λ _ v. v.jobs ≡ (i, job) ∷ w.jobs) (λ v. v.jobs ≡ w.jobs) (save_job env i job w)
unfolding save_job
save_job-Post env i job w = elim (Option-cases (env.fault w.ticks)) [
  | inl up ↦ rw up refl
  | inr (e, down) ↦ rw down refl
]

-- An action on the services leaves the job alone.
module _ {A : Type 0} (P : ExtractionJob → Type 0) where
  in_frame-Post :
      (r : Outcome A × World) (job : ExtractionJob)
      → P job
      → Post (λ _ g. P g.job) (λ g. P g.job) (in_frame r job)
  in_frame-Post (ok a, w) job h = h
  in_frame-Post (raised e, w) job h = h

  pub in_world-Post :
      (m : Exec World A) (f : Frame) → P f.job → Post (λ _ g. P g.job) (λ g. P g.job) (in_world m f)
  unfolding in_world
  in_world-Post m f h = in_frame-Post (m f.world) f.job h

module _ (env : Env) (tiers : Tiers) (doc_id : ℕ) where
  -- The job between attempts. It may say COMPLETED, if only the write of that record failed.
  record IsOpen (n : ℕ) (job : ExtractionJob) : Type 0 where
    document : job.doc_id ≡ doc_id
    retries : job.retry_count ≡ n
    no_errors : job.errors ≡ none

  abbrev Returned : ExtractionJob → Frame → Type 0
  Returned job f = (job.doc_id ≡ doc_id) × IsSettled job × IsSaved job f.world

  report-Post :
      (Q : Frame → Type 0) (E : Frame → Type 0) (new_state : ExtractionState) (f : Frame)
      → ((v : World)
          → v.jobs ≡ (f.job.job_id, f.job) ∷ f.world.jobs
          → Q (record { world = v; job = f.job }))
      → ((v : World) → E (record { world = v; job = f.job }))
      → Post (λ _ g. Q g) E (report env tiers new_state f)
  unfolding report update_state in_world
  report-Post Q E new_state f done stopped =
      go (save_job env f.job.job_id f.job f.world) (save_job-Post env f.job.job_id f.job f.world)
    where
      go :
          (r : Outcome Unit × World)
          → Post
              (λ _ v. v.jobs ≡ (f.job.job_id, f.job) ∷ f.world.jobs)
              (λ v. v.jobs ≡ f.world.jobs)
              r
          → Post (λ _ g. Q g) E (in_frame r f.job)
      go (ok a, v) h = done v h
      go (raised e, v) h = stopped v

  module _ (n : ℕ) where
    abbrev Open : Frame → Type 0
    Open g = IsOpen n g.job

    -- A call of a service that leaves the rest of an attempt to go on with the same job.
    step :
        {A : Type 0} (m : Exec World A) (f : Frame) (k : A → Exec Frame ExtractionJob)
        → Open f
        → ((a : A) (g : Frame) → Open g → Post Returned Open (k a g))
        → Post Returned Open (resume (in_world m f) k)
    step m f k h rest =
        Post-resume Returned Open (λ _ g. Open g) (in_world m f) k (in_world-Post (IsOpen n) m f h)
          rest

    logged : ExtractionState → Frame → Exec World Unit
    logged new_state f = update_state env tiers f.job.job_id new_state f.job

    -- The last steps of an attempt, from the reading of the clock on.
    finish :
        (f : Frame)
        → n ≤ 2
        → Open f
        → let at = env.now f.world.ticks in
          let g : Frame = record {
            world = tick f.world;
            job = record f.job { state = ExtractionState.completed; completed_at = some at };
          } in
          Post Returned Open
            (resume (report env tiers ExtractionState.completed g) (λ _ g'. (ok g'.job, g')))
    finish f h o =
        Post-resume Returned Open (λ _ g. Returned g.job g) _ (λ _ g'. (ok g'.job, g'))
          (report-Post (λ g. Returned g.job g) Open ExtractionState.completed _
            (λ v saved. (o.document, inl (refl, omega arith, o.no_errors), (f.world.jobs, saved)))
            (λ v. record { document = o.document; retries = o.retries; no_errors = o.no_errors }))
          (λ _ g r. r)

    attempt-Post :
        (content : Text) (f : Frame)
        → n ≤ 2
        → Open f
        → Post Returned Open (attempt env tiers content f)
    unfolding attempt report change logged in_world ◌>>=◌ ◌>>◌ now_utc
    attempt-Post content f h o = step (run_tier_a env tiers content) f _ o λ a f₁ o₁.
        let g₁ : Frame = record f₁ { job = record f₁.job { tier_a_triples = a } } in
        step (logged ExtractionState.tier_a_done g₁) g₁ _
          (record { document = o₁.document; retries = o₁.retries; no_errors = o₁.no_errors })
          λ _ f₂ o₂. step (run_tier_b env tiers content) f₂ _ o₂ λ windows f₃ o₃.
            let g₃ : Frame = record f₃ {
              job = record f₃.job { tier_b_windows = length windows };
            } in
            step (logged ExtractionState.tier_b_done g₃) g₃ _
              (record { document = o₃.document; retries = o₃.retries; no_errors = o₃.no_errors })
              λ _ f₄ o₄. step (run_tier_c env tiers windows) f₄ _ o₄ λ c f₅ o₅.
                let g₅ : Frame = record f₅ { job = record f₅.job { tier_c_triples = c } } in
                step (logged ExtractionState.tier_c_done g₅) g₅ _
                  (record {
                    document = o₅.document;
                    retries = o₅.retries;
                    no_errors = o₅.no_errors;
                  })
                  λ _ f₆ o₆. finish f₆ h o₆

    give_up-Post :
        (e : Exn) (f : Frame)
        → n ≡ 3
        → Open f
        → Post Returned (λ _. Unit {0}) (give_up env tiers e n f)
    unfolding give_up change in_world ◌>>=◌ ◌>>◌ now_utc
    give_up-Post e f h o =
        Post-resume Returned (λ _. Unit {0}) (λ _ g. Returned g.job g) _ (λ _ g'. (ok g'.job, g'))
          (report-Post (λ g. Returned g.job g) (λ _. Unit {0}) ExtractionState.failed _
            (λ v saved. (o.document, inr (refl, o.retries ∙ h, _, refl, h), (f.world.jobs, saved)))
            (λ v. tt))
          (λ _ g r. r)

  abbrev Raised : Frame → Type 0
  Raised _ = Unit {0}

  recover-Post :
      (n : ℕ) (again : Exec Frame ExtractionJob) (e : Exn) (f : Frame)
      → n ≤ 2
      → ((g : Frame) → n + 1 ≤ 2 → IsOpen (n + 1) g.job → Post Returned Raised (again g))
      → IsOpen n f.job
      → Post Returned Raised (recover env tiers (n + 1) again e f)
  unfolding recover change ◌>>◌
  recover-Post n again e f h rest o =
      let g : Frame = record f { job = record f.job { retry_count = n + 1 } } in
      elim (Bool-cases (leb 3 (n + 1))) [
        | inl last ↦ rw last (
            give_up-Post (n + 1) e g (ground arith)
              (record { document = o.document; retries = refl; no_errors = o.no_errors }))
        | inr more ↦ rw more (
            rest g (ground arith)
              (record { document = o.document; retries = refl; no_errors = o.no_errors }))
      ]

  retry_loop-Post :
      (content : Text) (fuel n : ℕ) (f : Frame)
      → n ≤ 2
      → 3 ≤ fuel + n
      → IsOpen n f.job
      → Post Returned Raised (retry_loop env tiers fuel n content f)
  unfolding retry_loop try_else
  retry_loop-Post content zero n f h enough o = absurd (omega arith)
  retry_loop-Post content (suc fuel) n f h enough o =
      let round : leb n 3 ≡ true = ground arith in
      rw round (
        Post-settle Returned Raised Returned (λ g. IsOpen n g.job) (attempt env tiers content f)
          pure (recover env tiers (n + 1) (retry_loop env tiers fuel (n + 1) content))
          (attempt-Post n content f h o) (λ job g r. r)
          (λ e g o'.
            recover-Post n _ e g h
              (λ g' h' o''. retry_loop-Post content fuel (n + 1) g' h' (omega arith) o'') o'))

  unframe-Post :
      (r : Outcome ExtractionJob × Frame)
      → Post Returned Raised r
      → Post
          (λ job w. (job.doc_id ≡ doc_id) × IsSettled job × IsSaved job w)
          (λ _. Unit {0})
          (unframe env tiers r)
  unframe-Post (ok job, f) h = h
  unframe-Post (raised e, f) h = tt

  abbrev pub Settled : Outcome ExtractionJob × World → Type 0
  Settled = Post (λ job v. (job.doc_id ≡ doc_id) × IsSettled job × IsSaved job v) (λ _. Unit {0})

  run_job-Settled :
      (content : Text) (job : ExtractionJob) (w : World)
      → IsOpen 0 job
      → Settled (run_job env tiers content job w)
  unfolding run_job ◌>>◌
  run_job-Settled content job w o =
      Post-resume {S = World} {A = Unit} {B = ExtractionJob}
        (λ job v. (job.doc_id ≡ doc_id) × IsSettled job × IsSaved job v) (λ _. Unit {0})
        (λ _ _. Unit {0}) (update_state env tiers job.job_id ExtractionState.pending job w)
        (λ _ v.
          unframe env tiers (retry_loop env tiers 5 0 content (record { world = v; job = job })))
        (Post-any (update_state env tiers job.job_id ExtractionState.pending job w))
        (λ _ v _. unframe-Post _ (
          retry_loop-Post content 5 0 (record { world = v; job = job }) (omega arith) (omega arith)
            o))

  -- A job that `process_document` returns belongs to the document, is COMPLETED after at most two
  -- retries without an error, or FAILED after three with an error entry that counts three, and is
  -- the latest record that Redis holds.
  pub process_document-Settled :
      (content : Text) (w : World) → Settled (process_document env tiers doc_id content w)
  unfolding process_document create_job ◌>>=◌ fresh_uuid now_utc
  process_document-Settled content w =
      run_job-Settled content _ _ (record { document = refl; retries = refl; no_errors = refl })
