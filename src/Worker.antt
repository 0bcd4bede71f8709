-- ===== src/Worker.antt =====
-- apps/worker/main.py: `SingleDocExtractorAdapter`, which runs the use case on one document, and
-- `ExtractionWorker.poll_once`, which feeds it from a stream of events or a queue.
pub mod SingleDocument
pub mod Polling
use taboot.Prelude.{
  ℕ, Text, codes, Bool, true, false, Option, none, some, List, [], ◌∷◌, ◌++◌, ◌==◌, is_empty, map,
  if◌then◌else◌,
}
use taboot.Python.{
  Outcome, ok, raised, Exn, Exec, pure, lift, finally, try_else, try_except, ◌>>=◌, ◌>>◌,
}
use taboot.Schemas.{Document, ExtractionJob}
use taboot.World.{World, Env, service}
use taboot.UseCases.Ports.{DocumentPort, postgres}
use taboot.UseCases.ExtractPending.{Summary}
use taboot.UseCases.ExtractPending

-- `use_case.document_store` is an attribute, which the adapter swaps.
pub record Extractor : Type 0 where
  pub world : World
  pub document_store : DocumentPort World

abbrev pub in_extractor : {A : Type 0} → Exec World A → Exec Extractor A
in_extractor m x = let (r, w) = m x.world in (r, record x { world = w })

-- The first pending document with the id.
unfoldable pub find_target : ℕ → List Document → Option Document
find_target i [] = none
find_target i (doc ∷ docs) = if doc.doc_id == i then some doc else find_target i docs

-- `SingleDocStore`
abbrev pub single_doc_store : DocumentPort World → Document → DocumentPort World
single_doc_store base doc = record base { query_pending = λ limit. pure (doc ∷ []) }

module _ (env : Env) (process_document : ℕ → Text → Exec World ExtractionJob) where
  -- `self.use_case.execute(limit=1)`, over whatever store it holds.
  pub run_use_case : Option ℕ → Exec Extractor Summary
  run_use_case limit x =
      in_extractor (ExtractPending.execute x.document_store process_document limit) x

  abbrev swap_store : DocumentPort World → Extractor → Extractor
  swap_store port x = record x { document_store = port }

  pub extract_target : Document → Exec Extractor (Unit {0})
  extract_target doc x =
      finally (run_use_case (some 1) >> pure tt) (swap_store x.document_store)
        (swap_store (single_doc_store (postgres env) doc) x)

  abbrev or_skip : Option Document → Exec Extractor (Unit {0})
  or_skip none = pure tt
  or_skip (some doc) = extract_target doc

  -- `SingleDocExtractorAdapter.execute`
  pub extract_single : ℕ → Exec Extractor (Unit {0})
  extract_single doc_id = do
    pending_docs ← in_extractor ((postgres env).query_pending none)
    or_skip (find_target doc_id pending_docs)
