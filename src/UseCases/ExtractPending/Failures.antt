-- ===== src/UseCases/ExtractPending/Failures.antt =====
-- What a batch leaves alone in the services.
use taboot.Prelude.{ℕ, Text, ◌≡◌, refl, ◌∙◌, Option, List, [], ◌∷◌, is_empty}
use taboot.Python.{raised, Exn, Exec, ◌>>=◌}
use taboot.Python.Triples.{
  Preserves, preserving, Preserves-bind, Preserves-try, Preserves-if, Preserves-pure,
}
use taboot.Schemas.{Document, ExtractionJob, ExtractionState}
use taboot.DocumentStore.{Store, get_content, query_pending}
use taboot.DocumentStore.Queries.{query_pending-state, get_content-state}
use taboot.World.{World, Env}
use taboot.World.Kept.{Preserves-database}
use taboot.UseCases.Ports.{DocumentPort, postgres}
use taboot.UseCases.ExtractPending.{
  Summary, nothing_done, extract_document, extract_documents, execute,
}

module _ {S : Type 0} (store : DocumentPort S) (process_document : ℕ → Text → Exec S ExtractionJob)
    (P : S → Type 0)
    (P-query_pending : (limit : Option ℕ) → Preserves P (store.query_pending limit))
    (P-get_content : (i : ℕ) → Preserves P (store.get_content i))
    (P-process_document : (i : ℕ) (content : Text) → Preserves P (process_document i content)) where
  -- One document, where the updates of that document keep `P`.
  pub extract_document-Preserves :
      (doc : Document)
      → ((state : ExtractionState)
          → Preserves P (store.update_document (record doc { extraction_state = state })))
      → Preserves P (extract_document store process_document doc)
  unfolding extract_document
  extract_document-Preserves doc u =
      search (preserving, P-get_content, P-process_document, u) depth 10

  pub extract_one-Preserves :
      (doc : Document) (s : Summary)
      → ((state : ExtractionState)
          → Preserves P (store.update_document (record doc { extraction_state = state })))
      → Preserves P (extract_documents store process_document (doc ∷ []) s)
  unfolding extract_documents
  extract_one-Preserves doc s u =
      Preserves-bind _ _
        (Preserves-try _ _ _ (extract_document-Preserves doc u) (λ job. Preserves-pure _)
          (λ e. Preserves-pure _))
        (λ t. Preserves-pure t)

-- An orchestrator that cannot work: it raises whatever it is given, and leaves the store alone.
abbrev pub IsDown : (ℕ → Text → Exec World ExtractionJob) → Type 0
IsDown process_document =
    (i : ℕ) (content : Text) (w : World)
    → (e : Exn) × (v : World) × (process_document i content w ≡ (raised e, v)) × (v.store ≡ w.store)

module _ (env : Env) (process_document : ℕ → Text → Exec World ExtractionJob)
    (down : IsDown process_document) (s : Store) where
  abbrev Unchanged : World → Type 0
  Unchanged w = w.store ≡ s

  failing :
      (i : ℕ) (content : Text) (f : ExtractionJob → Exec World ExtractionJob)
      → Preserves Unchanged (process_document i content >>= f)
  unfolding ◌>>=◌
  failing i content f = record {
    at = λ w h. let (e, v, raises, same) = down i content w in rw raises (same ∙ h);
  }

  extract_failing :
      (doc : Document) → Preserves Unchanged (extract_document (postgres env) process_document doc)
  unfolding extract_document
  extract_failing doc =
      Preserves-bind _ _
        (Preserves-database env Unchanged (λ w h. h) (get_content doc.doc_id)
          (λ w h. get_content-state doc.doc_id w.store ∙ h))
        (λ content. failing doc.doc_id content _)

  extract_all_failing :
      (docs : List Document) (t : Summary)
      → Preserves Unchanged (extract_documents (postgres env) process_document docs t)
  unfolding extract_documents
  extract_all_failing [] t = Preserves-pure t
  extract_all_failing (doc ∷ docs) t =
      Preserves-bind _ _
        (Preserves-try _ _ _ (extract_failing doc) (λ job. Preserves-pure _)
          (λ e. Preserves-pure _))
        (extract_all_failing docs)

  execute_failing :
      (limit : Option ℕ) → Preserves Unchanged (execute (postgres env) process_document limit)
  unfolding execute
  execute_failing limit =
      Preserves-bind _ _
        (Preserves-database env Unchanged (λ w h. h) (query_pending limit)
          (λ w h. query_pending-state limit w.store ∙ h))
        (λ docs.
          Preserves-if (is_empty docs) _ _ (Preserves-pure _)
            (extract_all_failing docs nothing_done))

-- While the orchestrator raises on every document, a batch leaves every row as it was: a document
-- that is counted as failed is not marked FAILED, and stays in the queue.
pub execute_unmarked :
    (env : Env) (process_document : ℕ → Text → Exec World ExtractionJob)
    → IsDown process_document
    → (limit : Option ℕ) (w : World)
    → (execute (postgres env) process_document limit w).1.store ≡ w.store
execute_unmarked env process_document down limit w =
    (execute_failing env process_document down w.store limit).at w refl
