-- ===== src/Worker/SingleDocument.antt =====
-- The adapter touches one document, and puts the store back.
use taboot.Prelude.{
  ℕ, Text, ◌≡◌, ◌≢◌, refl, ap, ◌∙◌, false, Option, none, some, inl, inr, List, [], ◌∷◌, ◌==◌,
  ==_sound, Bool-cases, arith,
}
use taboot.Python.{Exec, ◌>>=◌}
use taboot.Python.Triples.{Preserves, Preserves-bind, Preserves-then, Preserves-pure}
use taboot.Schemas.{Document, ExtractionJob}
use taboot.DocumentStore.{get_content, query_pending, update_document}
use taboot.DocumentStore.Queries.{query_pending-state, get_content-state}
use taboot.DocumentStore.Updates.{find_document, find_document-update}
use taboot.World.{World, Env}
use taboot.World.Kept.{Preserves-database, Preserves-now_utc}
use taboot.UseCases.Ports.{DocumentPort, postgres, write_document}
use taboot.UseCases.ExtractPending.{execute, nothing_done}
use taboot.UseCases.ExtractPending.Failures.{extract_one-Preserves}
use taboot.Worker.{
  Extractor, in_extractor, find_target, single_doc_store, run_use_case, extract_target, or_skip,
  swap_store, extract_single,
}

found_is :
    {i : ℕ} (d doc : Document)
    → ◌≡◌ {A = Option Document} (some d) (some doc)
    → d.doc_id ≡ i
    → doc.doc_id ≡ i
found_is d doc e h = let same : d ≡ doc = cc in rw (← same) h

-- The document that is found has the id.
find_target-id :
    (i : ℕ) (docs : List Document) (doc : Document) → find_target i docs ≡ some doc → doc.doc_id ≡ i
unfolding find_target
find_target-id i [] doc e = ground arith
find_target-id i (d ∷ docs) doc e = elim (Bool-cases (d.doc_id == i)) [
  | inl same ↦ found_is d doc (rw same at e) (==_sound d.doc_id i same)
  | inr other ↦ find_target-id i docs doc (rw other at e)
]

module _ (env : Env) (process_document : ℕ → Text → Exec World ExtractionJob)
    (quiet : (i : ℕ) (content : Text) (w : World)
      → (process_document i content w).1.store ≡ w.store)
    (doc_id other : ℕ) (ne : other ≢ doc_id) (row : Option Document) where
  -- The row of another document.
  abbrev Same : World → Type 0
  Same w = find_document other w.store.documents ≡ row

  write_document-Preserves :
      (d : Document) → d.doc_id ≡ doc_id → Preserves Same (write_document env d)
  unfolding write_document
  write_document-Preserves d e = Preserves-bind _ _ (Preserves-now_utc env Same (λ w h. h)) (λ now.
      Preserves-database env Same (λ w h. h) (update_document now d)
        (λ w h. (find_document-update now d w.store other).1 ∙ rw (away d.doc_id e) h))
    where
      away : (i : ℕ) → i ≡ doc_id → (other == i) ≡ false
      away i e = ground arith

  run_single-Preserves :
      (doc : Document)
      → doc.doc_id ≡ doc_id
      → Preserves Same (execute (single_doc_store (postgres env) doc) process_document (some 1))
  unfolding execute ◌>>=◌
  run_single-Preserves doc e = record {
    at = λ w h.
        (extract_one-Preserves (single_doc_store (postgres env) doc) process_document Same
            (λ limit. Preserves-pure (doc ∷ []))
            (λ i.
              Preserves-database env Same (λ w h. h) (get_content i)
                (λ w h.
                  ap (λ s. find_document other s.documents) (get_content-state i w.store) ∙ h))
            (λ i content. record {
              at = λ w h. ap (λ s. find_document other s.documents) (quiet i content w) ∙ h;
            })
            doc nothing_done
            (λ state. write_document-Preserves (record doc { extraction_state = state }) e)).at
          w h;
  }

  abbrev Still : Extractor → Type 0
  Still x = Same x.world

  still : {A : Type 0} (m : Exec World A) → Preserves Same m → Preserves Still (in_extractor m)
  still m k = record { at = λ x h. k.at x.world h }

  -- While the adapter's own store is in place.
  abbrev Ready : Document → Extractor → Type 0
  Ready doc x = (x.document_store ≡ single_doc_store (postgres env) doc) × Same x.world

  run_here :
      (doc : Document)
      → doc.doc_id ≡ doc_id
      → Preserves (Ready doc) (run_use_case env process_document (some 1))
  unfolding run_use_case
  run_here doc e = record {
    at = λ x (swapped, h). (swapped, rw swapped ((run_single-Preserves doc e).at x.world h));
  }

  extract_target-Still :
      (doc : Document)
      → doc.doc_id ≡ doc_id
      → (x : Extractor) → Still x
      → Still (extract_target env process_document doc x).1
  unfolding extract_target
  extract_target-Still doc e x h =
      ((Preserves-then _ _ (run_here doc e) (Preserves-pure tt)).at
        (swap_store env process_document (single_doc_store (postgres env) doc) x) (refl, h)).1

  or_skip-Still :
      (found : Option Document)
      → ((doc : Document) → found ≡ some doc → doc.doc_id ≡ doc_id)
      → Preserves Still (or_skip env process_document found)
  or_skip-Still none k = Preserves-pure tt
  or_skip-Still (some doc) k = record { at = extract_target-Still doc (k doc refl) }

  extract_single-Still : Preserves Still (extract_single env process_document doc_id)
  unfolding extract_single
  extract_single-Still =
      Preserves-bind _ _
        (still _ (
          Preserves-database env Same (λ w h. h) (query_pending none)
            (λ w h.
              ap (λ s. find_document other s.documents) (query_pending-state none w.store) ∙ h)))
        (λ docs. or_skip-Still (find_target doc_id docs) (find_target-id doc_id docs))

-- Where the orchestrator leaves PostgreSQL alone, the worker's extraction of one document leaves
-- the row of every other id as it was, however it ends.
pub extract_single_only :
    (env : Env) (process_document : ℕ → Text → Exec World ExtractionJob)
    → ((i : ℕ) (content : Text) (w : World) → (process_document i content w).1.store ≡ w.store)
    → (doc_id other : ℕ) → other ≢ doc_id
    → (x : Extractor)
    → find_document other (extract_single env process_document doc_id x).1.world.store.documents
      ≡ find_document other x.world.store.documents
extract_single_only env process_document quiet doc_id other ne x =
    (extract_single-Still env process_document quiet doc_id other ne
        (find_document other x.world.store.documents)).at
      x refl

module _ (env : Env) (process_document : ℕ → Text → Exec World ExtractionJob)
    (port : DocumentPort World) where
  abbrev Holds : Extractor → Type 0
  Holds x = x.document_store ≡ port

  or_skip-Holds : (found : Option Document) → Preserves Holds (or_skip env process_document found)
  unfolding extract_target
  or_skip-Holds none = Preserves-pure tt
  or_skip-Holds (some doc) = record { at = λ x h. h }

  extract_single-Holds : (i : ℕ) → Preserves Holds (extract_single env process_document i)
  unfolding extract_single
  extract_single-Holds i =
      Preserves-bind _ _ (record { at = λ x h. h }) (λ docs. or_skip-Holds (find_target i docs))

-- However an extraction of one document ends, the use case has the store that it had.
pub extract_single_restores :
    (env : Env) (process_document : ℕ → Text → Exec World ExtractionJob) (doc_id : ℕ)
    (x : Extractor)
    → (extract_single env process_document doc_id x).1.document_store ≡ x.document_store
extract_single_restores env process_document doc_id x =
    (extract_single-Holds env process_document x.document_store doc_id).at x refl
