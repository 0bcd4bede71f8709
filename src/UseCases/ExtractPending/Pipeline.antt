-- ===== src/UseCases/ExtractPending/Pipeline.antt =====
-- The batch with the orchestrator of packages/extraction/orchestrator.py.
use taboot.Prelude.{ℕ, Text, ◌≡◌, sym, ◌∙◌, true, none, some, inl, inr, List}
use taboot.Python.{Outcome, ok, raised}
use taboot.Python.Triples.{Post}
use taboot.Schemas.{Document, ExtractionState, ExtractionJob}
use taboot.DocumentStore.{content_of, in_state}
use taboot.DocumentStore.Updates.{find_document}
use taboot.World.{World, Env}
use taboot.Extraction.Orchestrator.{Tiers, process_document}
use taboot.Extraction.Orchestrator.Ending.{IsSettled, Settled, process_document-Settled}
use taboot.Extraction.Orchestrator.Records.{process_document-store}
use taboot.Extraction.Orchestrator.Returning.{Returns, process_document-Returns}
use taboot.UseCases.Ports.{postgres}
use taboot.UseCases.Reprocess.Queued.{InState}
use taboot.UseCases.ExtractPending.{execute}
use taboot.UseCases.ExtractPending.Drained.{IsDone, IsUp, execute-IsDone}

not_pending : (job : ExtractionJob) → IsSettled job → IsDone job.state
not_pending job (inl (done, _, _)) = λ e. apart_completed (sym done ∙ e)
  where
    apart_completed : ExtractionState.completed ≡ ExtractionState.pending → ⊥
    apart_completed e = cc
not_pending job (inr (failed, _, _, _, _)) = λ e. apart_failed (sym failed ∙ e)
  where
    apart_failed : ExtractionState.failed ≡ ExtractionState.pending → ⊥
    apart_failed e = cc

module _ (env : Env) (tiers : Tiers) where
  returned-IsDone :
      (i : ℕ) (w : World) (r : Outcome ExtractionJob × World)
      → Settled env tiers i r
      → Returns r
      → r.1.store ≡ w.store
      → Post (λ job v. IsDone job.state × (v.store ≡ w.store)) (λ _. ⊥) r
  returned-IsDone i w (ok job, v) (_, done, _) returns same = (not_pending job done, same)
  returned-IsDone i w (raised e, v) settled returns same = returns

  orchestrator-IsUp :
      ((t : ℕ) → env.fault t ≡ none)
      → ((xs : List Text) (w : World) → (tiers.batch_extract xs w).1.store ≡ w.store)
      → IsUp env (process_document env tiers)
  orchestrator-IsUp up kept = record {
    up = up;
    settles = λ i content w.
        returned-IsDone i w (process_document env tiers i content w)
          (process_document-Settled env tiers i content w)
          (process_document-Returns env tiers up i content w)
          (process_document-store env tiers i content kept w);
  }

-- While PostgreSQL and Redis answer and the LLM client leaves the documents alone, whatever the
-- tiers raise: a batch without a limit returns a summary, and no document that was PENDING and
-- whose content is stored is PENDING any more.
pub pipeline-IsDone :
    (env : Env) (tiers : Tiers)
    → ((t : ℕ) → env.fault t ≡ none)
    → ((xs : List Text) (w : World) → (tiers.batch_extract xs w).1.store ≡ w.store)
    → (w : World) (i : ℕ) (d : Document) (t : Text) → find_document i w.store.documents ≡ some d
    → in_state ExtractionState.pending d ≡ true
    → content_of i w.store.contents ≡ some t
    → Post
        (λ _ v. InState IsDone (find_document i v.store.documents))
        (λ _. ⊥)
        (execute (postgres env) (process_document env tiers) none w)
pipeline-IsDone env tiers up kept w i d t there waiting stored =
    execute-IsDone env (process_document env tiers) (orchestrator-IsUp env tiers up kept) w i d t
      there waiting stored
