-- ===== src/UseCases/IngestWeb/Kept.antt =====
-- What an ingestion leaves alone while it makes chunks and vectors.
use taboot.Prelude.{ℕ, ◌<◌, Text, ◌≡◌, refl, ◌∙◌, Option, none, some, List, ◌++◌, length}
use taboot.Python.{raised, Exec}
use taboot.Python.Triples.{
  Post, Preserves, Preserves-bind, Preserves-then, Preserves-pure, Preserves-lift, Preserves-if,
  Preserves-try, Preserves-for_each,
}
use taboot.Schemas.{invalid, has_length, Document}
use taboot.DocumentStore.{Store}
use taboot.World.{Env, now_utc, fresh_uuid, database}
use taboot.Ingest.Chunker.{Page, ChunkDoc, chunk_document}
use taboot.Ingest.Embedder.{embed_texts}
use taboot.Ingest.Embedder.Kept.{embed_texts-Preserves}
use taboot.Vector.Writer.{PointStruct}
use taboot.UseCases.IngestWeb.{
  Site, Tools, on_world, make_chunk, store_document, notify, process_page,
}

-- What the parameters do to the collection: the client's `upsert` appends the points or fails, and
-- nothing else touches it. The writer's batch size is validated by its constructor.
pub record IsFaithful {F : Type 0} (tools : Tools F) : Type 0 where
  pub loads :
      (url : Text) (limit : Option ℕ) (s : Site F)
      → (tools.load_data url limit s).1.points ≡ s.points
  pub posts : (texts : List Text) (s : Site F) → (tools.post texts s).1.points ≡ s.points
  pub calls :
      (callback : Document → ℕ → Exec (Site F) (Unit {0}))
      → tools.document_ingested_callback ≡ some callback
      → (d : Document) (n : ℕ) (s : Site F) → (callback d n s).1.points ≡ s.points
  pub upserts :
      (ps : List (PointStruct F)) (s : Site F)
      → Post (λ _ v. v.points ≡ s.points ++ ps) (λ v. v.points ≡ s.points) (tools.upsert ps s)
  pub batched : 0 < tools.write_batch_size

-- The steps of a page leave `K` alone.
pub record IsInert {F : Type 0} (env : Env) (tools : Tools F) (K : Site F → Type 0) : Type 0 where
  pub clock : Preserves K (on_world (now_utc env))
  pub uuids : Preserves K (on_world (fresh_uuid env))
  pub stores : (m : Exec Store (Unit {0})) → Preserves K (on_world (database env m))
  pub posts : (texts : List Text) → Preserves K (tools.post texts)
  pub calls :
      (callback : Document → ℕ → Exec (Site F) (Unit {0}))
      → tools.document_ingested_callback ≡ some callback
      → (d : Document) (n : ℕ) → Preserves K (callback d n)

module _ {F : Type 0} (env : Env) (tools : Tools F) {K : Site F → Type 0}
    (inert : IsInert env tools K) where
  notify-Preserves :
      (o : Option (Document → ℕ → Exec (Site F) (Unit {0})))
      → tools.document_ingested_callback ≡ o
      → (d : Document) (n : ℕ) → Preserves K (notify env tools o d n)
  notify-Preserves none e d n = Preserves-pure tt
  notify-Preserves (some callback) e d n =
      Preserves-try _ _ _ (inert.calls callback e d n) (λ a. Preserves-pure a)
        (λ x. Preserves-pure tt)

  make_chunk-Preserves :
      (url : Text) (i at : ℕ) (c : ChunkDoc) → Preserves K (make_chunk env tools url i at c)
  unfolding make_chunk
  make_chunk-Preserves url i at c = Preserves-bind _ _ inert.uuids (λ chunk_id.
      Preserves-if (has_length 4096 c.text) _ _ (Preserves-pure _)
        (Preserves-lift (raised invalid)))

  store_document-Preserves :
      (url : Text) (i : ℕ) (markdown : Text) (n : ℕ)
      → Preserves K (store_document env tools url i markdown n)
  unfolding store_document
  store_document-Preserves url i markdown n = Preserves-bind _ _ inert.clock (λ ingested_at.
      Preserves-bind _ _ inert.clock (λ updated_at.
        Preserves-then _ _ (inert.stores _)
          (notify-Preserves tools.document_ingested_callback refl _ n)))

  pub page-Preserves : (url : Text) (doc : Page) → Preserves K (process_page env tools url doc)
  unfolding process_page
  page-Preserves url doc =
      Preserves-bind _ _ (Preserves-lift (tools.normalize doc.text)) (λ markdown.
        Preserves-bind _ _ (Preserves-lift (chunk_document tools.split_nodes _)) (λ chunk_docs.
          Preserves-bind _ _ inert.uuids (λ doc_id. Preserves-bind _ _ inert.clock (λ at.
            Preserves-bind _ _
              (Preserves-for_each (make_chunk env tools url doc_id at)
                (make_chunk-Preserves url doc_id at) chunk_docs)
              (λ chunks.
                Preserves-then _ _ (store_document-Preserves url doc_id markdown (length chunks))
                  (Preserves-pure chunks))))))

  pub vectors-Preserves :
      (texts : List Text)
      → Preserves K (embed_texts tools.post tools.embed_batch_size tools.expected_dim texts)
  vectors-Preserves =
      embed_texts-Preserves tools.post tools.embed_batch_size tools.expected_dim K inert.posts

module _ {F : Type 0} (env : Env) (tools : Tools F) (faithful : IsFaithful tools)
    (kept : List (PointStruct F)) where
  points-IsInert : IsInert env tools (λ s. s.points ≡ kept)
  unfolding on_world
  points-IsInert = record {
    clock = record { at = λ s h. h };
    uuids = record { at = λ s h. h };
    stores = λ m. record { at = λ s h. h };
    posts = λ texts. record { at = λ s h. faithful.posts texts s ∙ h };
    calls = λ callback e d n. record { at = λ s h. faithful.calls callback e d n s ∙ h };
  }

  pub process_page-Preserves :
      (url : Text) (doc : Page) → Preserves (λ s. s.points ≡ kept) (process_page env tools url doc)
  process_page-Preserves = page-Preserves env tools points-IsInert

  pub embed-Preserves :
      (texts : List Text)
      → Preserves
          (λ s. s.points ≡ kept)
          (embed_texts tools.post tools.embed_batch_size tools.expected_dim texts)
  embed-Preserves = vectors-Preserves env tools points-IsInert
