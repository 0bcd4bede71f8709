-- ===== src/UseCases/ExtractPending/Counts.antt =====
-- The summary of a batch.
use taboot.Prelude.{
  ℕ, ◌+◌, Text, ◌≡◌, refl, Option, List, [], ◌∷◌, length, inl, inr, Bool-cases, arith,
}
use taboot.Python.{Outcome, ok, raised, Exec, settle, try_else, ◌>>=◌}
use taboot.Schemas.{Document, ExtractionJob, is_completed}
use taboot.UseCases.Ports.{DocumentPort}
use taboot.UseCases.ExtractPending.{
  Summary, nothing_done, count_job, count_error, count_success, count_failure, extract_document,
  extract_documents, execute,
}

module _ {S : Type 0} (store : DocumentPort S)
    (process_document : ℕ → Text → Exec S ExtractionJob) where
  -- However the document's extraction ended, it is counted once.
  counted_once :
      (r : Outcome ExtractionJob × S) (s : Summary)
      → (t : Summary) × (u : S) × (settle r
            (count_job store process_document s)
            (count_error store process_document s)
          ≡ (ok t, u))
        × (t.processed ≡ s.processed + 1)
        × (t.succeeded + t.failed ≡ s.succeeded + s.failed + 1)
  counted_once (raised e, u) s = (count_failure s, u, refl, refl, omega arith)
  counted_once (ok job, u) s = elim (Bool-cases (is_completed job.state)) [
    | inl done ↦ (count_success s, u, rw done, refl, omega arith)
    | inr not_done ↦ (count_failure s, u, rw not_done, refl, omega arith)
  ]

  -- The loop ends well, with `n` more documents counted.
  abbrev Counted : ℕ → Summary → Outcome Summary × S → Type 0
  Counted n s r =
      (t : Summary) × (u : S) × (r ≡ (ok t, u))
      × (t.processed ≡ s.processed + n)
      × (t.succeeded + t.failed ≡ s.succeeded + s.failed + n)

  extract_documents-Counted :
      (docs : List Document) (s : Summary) (w : S)
      → Counted (length docs) s (extract_documents store process_document docs s w)
  unfolding extract_documents try_else ◌>>=◌
  extract_documents-Counted [] s w = (s, w, refl, omega arith, omega arith)
  extract_documents-Counted (doc ∷ docs) s w =
      let (t, u, e, p, q) = counted_once (extract_document store process_document doc w) s in
      let (t', u', e', p', q') = extract_documents-Counted docs t u in
      (t', u', rw e e', omega arith, omega arith)

  -- A batch whose query succeeds always ends with a summary: every document found is processed,
  -- and each succeeded or failed, whatever the services and the orchestrator raise.
  pub execute_counts :
      (limit : Option ℕ) (w : S) (docs : List Document) (v : S)
      → store.query_pending limit w ≡ (ok docs, v)
      → (t : Summary) × (u : S) × (execute store process_document limit w ≡ (ok t, u))
        × (t.processed ≡ length docs)
        × (t.succeeded + t.failed ≡ length docs)
  unfolding execute ◌>>=◌
  execute_counts limit w [] v h = (nothing_done, v, rw h, refl, refl)
  execute_counts limit w (doc ∷ docs) v h =
      let (t, u, e, p, q) = extract_documents-Counted (doc ∷ docs) nothing_done v in
      (t, u, rw h e, omega arith, omega arith)
