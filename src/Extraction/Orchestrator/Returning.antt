-- ===== src/Extraction/Orchestrator/Returning.antt =====
-- `process_document` returns while Redis answers.
use taboot.Prelude.{ℕ, zero, suc, ◌+◌, ◌≤◌, Text, ◌≡◌, none, inl, inr, leb, Bool-cases, arith}
use taboot.Python.{Outcome, ok, raised, Exn, Exec, pure, try_else, ◌>>=◌, ◌>>◌}
use taboot.Python.Triples.{Post, Post-resume, Post-settle, Post-any}
use taboot.Schemas.{ExtractionState, ExtractionJob}
use taboot.World.{World, Env, save_job, service, now_utc, fresh_uuid}
use taboot.Extraction.Orchestrator.{
  Tiers, Frame, in_world, in_frame, create_job, update_state, report, change, attempt, give_up,
  recover, fall_back, retry_loop, run_job, process_document, unframe,
}

-- The action did not raise.
abbrev pub Returns : {S A : Type 0} → Outcome A × S → Type 0
Returns = Post (λ _ _. Unit {0}) (λ _. ⊥)

module _ (env : Env) (tiers : Tiers) (up : (t : ℕ) → env.fault t ≡ none) where
  save_job-Returns : (i : ℕ) (job : ExtractionJob) (w : World) → Returns (save_job env i job w)
  unfolding save_job service ◌>>◌
  save_job-Returns i job w = rw (up w.ticks) tt

  in_frame-Returns :
      {A : Type 0} (r : Outcome A × World) (job : ExtractionJob)
      → Returns r
      → Returns (in_frame r job)
  in_frame-Returns (ok a, w) job h = tt
  in_frame-Returns (raised e, w) job h = h

  report-Returns :
      (new_state : ExtractionState) (f : Frame) → Returns (report env tiers new_state f)
  unfolding report update_state in_world
  report-Returns new_state f =
      in_frame-Returns (save_job env f.job.job_id f.job f.world) f.job
        (save_job-Returns f.job.job_id f.job f.world)

  give_up-Returns : (e : Exn) (n : ℕ) (f : Frame) → Returns (give_up env tiers e n f)
  unfolding give_up change in_world ◌>>=◌ ◌>>◌ now_utc
  give_up-Returns e n f =
      Post-resume {S = Frame} {A = Unit} {B = ExtractionJob} (λ _ _. Unit {0}) (λ _. ⊥)
        (λ _ _. Unit {0}) _ (λ _ g. (ok g.job, g)) (report-Returns ExtractionState.failed _)
        (λ _ g r. tt)

  fall_back-Returns : (f : Frame) → Returns (fall_back env tiers f)
  unfolding fall_back change in_world ◌>>=◌ ◌>>◌ now_utc
  fall_back-Returns f = tt

  recover-Returns :
      (n : ℕ) (again : Exec Frame ExtractionJob) (e : Exn) (f : Frame)
      → (n ≤ 2 → (g : Frame) → Returns (again g))
      → Returns (recover env tiers n again e f)
  unfolding recover change ◌>>◌
  recover-Returns n again e f rest = elim (Bool-cases (leb 3 n)) [
    | inl last ↦ rw last (give_up-Returns e n (record f { job = record f.job { retry_count = n } }))
    | inr more ↦ rw more (rest (ground arith) (record f { job = record f.job { retry_count = n } }))
  ]

  retry_loop-Returns :
      (content : Text) (fuel n : ℕ) (f : Frame)
      → n ≤ 2
      → 3 ≤ fuel + n
      → Returns (retry_loop env tiers fuel n content f)
  unfolding retry_loop try_else
  retry_loop-Returns content zero n f h enough = absurd (omega arith)
  retry_loop-Returns content (suc fuel) n f h enough = elim (Bool-cases (leb n 3)) [
    | inr done ↦ rw done (fall_back-Returns f)
    | inl round ↦ rw round (
        Post-settle _ _ (λ _ _. Unit {0}) (λ _. Unit {0}) (attempt env tiers content f) pure
          (recover env tiers (n + 1) (retry_loop env tiers fuel (n + 1) content)) (Post-any _)
          (λ job g r. tt)
          (λ e g _.
            recover-Returns (n + 1) _ e g
              (λ more g'. retry_loop-Returns content fuel (n + 1) g' more (omega arith))))
  ]

  unframe-Returns : (r : Outcome ExtractionJob × Frame) → Returns r → Returns (unframe env tiers r)
  unframe-Returns (ok job, f) h = tt
  unframe-Returns (raised e, f) h = h

  run_job-Returns :
      (content : Text) (job : ExtractionJob) (w : World) → Returns (run_job env tiers content job w)
  unfolding run_job update_state ◌>>◌
  run_job-Returns content job w =
      Post-resume {S = World} {A = Unit} {B = ExtractionJob} _ _ (λ _ _. Unit {0})
        (save_job env job.job_id job w) _ (save_job-Returns job.job_id job w)
        (λ _ v _. unframe-Returns _ (
          retry_loop-Returns content 5 0 (record { world = v; job = job }) (omega arith)
            (omega arith)))

-- As long as Redis takes every record, `process_document` returns a job, whatever the parsers, the
-- matcher, the selector and the LLM client raise: it raises nothing, and its loop does not run out
-- of the five rounds that it is given.
pub process_document-Returns :
    (env : Env) (tiers : Tiers)
    → ((t : ℕ) → env.fault t ≡ none)
    → (doc_id : ℕ) (content : Text) (w : World)
    → Returns (process_document env tiers doc_id content w)
unfolding process_document create_job ◌>>=◌ fresh_uuid now_utc
process_document-Returns env tiers up doc_id content w = run_job-Returns env tiers up content _ _
