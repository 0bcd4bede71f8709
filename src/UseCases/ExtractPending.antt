-- ===== src/UseCases/ExtractPending.antt =====
-- packages/core/use_cases/extract_pending.py: `ExtractPendingUseCase.execute`. An exception of any
-- class ends only its own document; the three handlers differ in what they log.
pub mod Counts
pub mod Failures
pub mod Drained
pub mod Pipeline
use taboot.Prelude.{ℕ, ◌+◌, Text, Option, List, [], ◌∷◌, is_empty, if◌then◌else◌}
use taboot.Python.{Exn, Exec, pure, try_else, ◌>>=◌, ◌>>◌}
use taboot.Schemas.{Document, ExtractionJob, ExtractionState, is_completed}
use taboot.UseCases.Ports.{DocumentPort}

pub record Summary : Type 0 where
  pub processed : ℕ
  pub succeeded : ℕ
  pub failed : ℕ

abbrev pub nothing_done : Summary
nothing_done = record { processed = 0; succeeded = 0; failed = 0 }

abbrev pub count_success : Summary → Summary
count_success s = record s { processed = s.processed + 1; succeeded = s.succeeded + 1 }

abbrev pub count_failure : Summary → Summary
count_failure s = record s { processed = s.processed + 1; failed = s.failed + 1 }

module _ {S : Type 0} (store : DocumentPort S)
    (process_document : ℕ → Text → Exec S ExtractionJob) where
  -- Steps 2a to 2e.
  pub extract_document : Document → Exec S ExtractionJob
  extract_document doc = do
    content ← store.get_content doc.doc_id
    job ← process_document doc.doc_id content
    store.update_document (record doc { extraction_state = job.state })
    pure job

  abbrev pub count_job : Summary → ExtractionJob → Exec S Summary
  count_job s job = pure (if is_completed job.state then count_success s else count_failure s)

  abbrev pub count_error : Summary → Exn → Exec S Summary
  count_error s e = pure (count_failure s)

  pub extract_documents : List Document → Summary → Exec S Summary
  extract_documents [] s = pure s
  extract_documents (doc ∷ docs) s =
      try_else (extract_document doc) (count_job s) (count_error s) >>= extract_documents docs

  unfoldable pub execute : Option ℕ → Exec S Summary
  execute limit = do
    pending_docs ← store.query_pending limit
    if is_empty pending_docs then pure nothing_done else extract_documents pending_docs nothing_done
