-- ===== src/Extraction/Orchestrator.antt =====
-- packages/extraction/orchestrator.py: `ExtractionOrchestrator.process_document`, with its retries
-- and the job records that it keeps in Redis.
pub mod Ending
pub mod Records
pub mod Returning
use taboot.Prelude.{
  ℕ, zero, suc, ◌+◌, Text, Bool, Option, none, some, List, [], ◌∷◌, map, length, is_empty, leb,
  if◌then◌else◌,
}
use taboot.Python.{
  Kind, Outcome, ok, raised, Exn, Exec, pure, raise, gets, modify, lift, try_else, ◌>>=◌, ◌>>◌,
}
use taboot.Schemas.{ExtractionState, ExtractionJob}
use taboot.World.{World, Env, now_utc, fresh_uuid, save_job}
use taboot.Extraction.{ExtractionWindow, ExtractionResult, CodeBlock, Table, Match}

-- The components that the orchestrator is given: tier A's parser and matcher, the window selector
-- and the LLM client. Each may raise.
pub record Tiers : Type 0 where
  pub parse_code_blocks : Text → Outcome (List CodeBlock)
  pub parse_tables : Text → Outcome (List Table)
  pub find_matches : Text → Outcome (List Match)
  pub select_windows : Text → Outcome (List ExtractionWindow)
  pub batch_extract : List Text → Exec World (List ExtractionResult)

abbrev pub out_of_fuel : Exn
out_of_fuel = record { kind = Kind.out_of_fuel; message = [] }

abbrev pub max_retries : ℕ
max_retries = 3

-- The variables of `process_document` that outlive an exception.
pub record Frame : Type 0 where
  pub world : World
  pub job : ExtractionJob

abbrev in_frame : {A : Type 0} → Outcome A × World → ExtractionJob → Outcome A × Frame
in_frame (r, w) job = (r, record { world = w; job = job })

pub in_world : {A : Type 0} → Exec World A → Exec Frame A
in_world m f = in_frame (m f.world) f.job

abbrev pub total_triples : List ExtractionResult → ℕ
total_triples [] = 0
total_triples (r ∷ rs) = length r.triples + total_triples rs

module _ (env : Env) (tiers : Tiers) where
  pub create_job : ℕ → Exec World ExtractionJob
  create_job doc_id = do
    job_id ← fresh_uuid env
    started_at ← now_utc env
    pure (record {
      job_id = job_id;
      doc_id = doc_id;
      state = ExtractionState.pending;
      tier_a_triples = 0;
      tier_b_windows = 0;
      tier_c_triples = 0;
      started_at = some started_at;
      completed_at = none;
      retry_count = 0;
      errors = none;
    })

  -- The code blocks and tables are parsed for the log only; what counts is the matches.
  pub run_tier_a : Text → Exec World ℕ
  run_tier_a content = do
    lift (tiers.parse_code_blocks content)
    lift (tiers.parse_tables content)
    matches ← lift (tiers.find_matches content)
    pure (length matches)

  pub run_tier_b : Text → Exec World (List ExtractionWindow)
  run_tier_b content = lift (tiers.select_windows content)

  pub run_tier_c : List ExtractionWindow → Exec World ℕ
  run_tier_c windows = if is_empty windows then pure 0 else do
    results ← tiers.batch_extract (map (λ w. w.content) windows)
    pure (total_triples results)

  -- The new state is for the log: what is written is the job as it stands.
  pub update_state : ℕ → ExtractionState → ExtractionJob → Exec World (Unit {0})
  update_state job_id new_state job = save_job env job_id job

  -- `await self._update_state(job.job_id, new_state, job)` on the current job
  pub report : ExtractionState → Exec Frame (Unit {0})
  report new_state f = in_world (update_state f.job.job_id new_state f.job) f

  pub change : (ExtractionJob → ExtractionJob) → Exec Frame (Unit {0})
  change g = modify (λ f. record f { job = g f.job })

  -- The body of the `try`.
  pub attempt : Text → Exec Frame ExtractionJob
  attempt content = do
    tier_a_triples ← in_world (run_tier_a content)
    change (λ job. record job { tier_a_triples = tier_a_triples })
    report ExtractionState.tier_a_done
    windows ← in_world (run_tier_b content)
    change (λ job. record job { tier_b_windows = length windows })
    report ExtractionState.tier_b_done
    tier_c_triples ← in_world (run_tier_c windows)
    change (λ job. record job { tier_c_triples = tier_c_triples })
    report ExtractionState.tier_c_done
    completed_at ← in_world (now_utc env)
    change
        (λ job. record job { state = ExtractionState.completed; completed_at = some completed_at })
    report ExtractionState.completed
    gets (λ f. f.job)

  -- The last failure: the job is marked FAILED with the error, and returned.
  pub give_up : Exn → ℕ → Exec Frame ExtractionJob
  give_up e retry_count = do
    timestamp ← in_world (now_utc env)
    completed_at ← in_world (now_utc env)
    change (λ job. record job {
      state = ExtractionState.failed;
      completed_at = some completed_at;
      errors =
          some (record { error = e.message; timestamp = timestamp; retry_count = retry_count });
    })
    report ExtractionState.failed
    gets (λ f. f.job)

  -- The body of the `except`, where `again` is the rest of the loop.
  pub recover : ℕ → Exec Frame ExtractionJob → Exn → Exec Frame ExtractionJob
  recover retry_count again e = do
    change (λ job. record job { retry_count = retry_count })
    if leb max_retries retry_count then give_up e retry_count else again

  -- Behind the loop.
  pub fall_back : Exec Frame ExtractionJob
  fall_back = do
    completed_at ← in_world (now_utc env)
    change (λ job. record job { state = ExtractionState.failed; completed_at = some completed_at })
    gets (λ f. f.job)

  -- `while retry_count <= self.MAX_RETRIES`, on fuel. A loop that runs out of it ends in an error that
  -- no code of the program raises.
  pub retry_loop : ℕ → ℕ → Text → Exec Frame ExtractionJob
  retry_loop zero retry_count content = raise out_of_fuel
  retry_loop (suc fuel) retry_count content =
      let again = retry_loop fuel (retry_count + 1) content in
      if leb retry_count max_retries
      then try_else (attempt content) pure (recover (retry_count + 1) again)
      else fall_back

  abbrev unframe : Outcome ExtractionJob × Frame → Outcome ExtractionJob × World
  unframe (r, f) = (r, f.world)

  -- From the first record in Redis on. Four rounds at most pass the loop's test.
  pub run_job : Text → ExtractionJob → Exec World ExtractionJob
  run_job content job = update_state job.job_id ExtractionState.pending job >> λ w.
      unframe (retry_loop 5 0 content (record { world = w; job = job }))

  unfoldable pub process_document : ℕ → Text → Exec World ExtractionJob
  process_document doc_id content = create_job doc_id >>= run_job content
