-- ===== src/UseCases/IngestWeb.antt =====
-- packages/core/use_cases/ingest_web.py: `IngestWebUseCase.execute`, from the pages that the reader
-- loads to the points of the vector store. The reader, the normalizer, LlamaIndex, tiktoken, the
-- embedding service and Qdrant's client are parameters. `F` is Python's float.
pub mod Kept
pub mod Reingested
pub mod Counting
pub mod Accounting
pub mod Timed
use Prim.Native.Nat.{min, max}
use taboot.Prelude.{
  ℕ, ◌+◌, Text, codes, Bool, true, false, not, ◌&&◌, ◌||◌, Option, none, some, List, [], ◌∷◌, ◌++◌,
  map, filter, length, is_empty, ltb, leb, text_eq, if◌then◌else◌,
}
use taboot.Python.{
  Kind, Exn, Outcome, ok, raised, Exec, pure, raise, gets, modify, lift, try_else, try_except,
  is_value_error, is_connection_error, is_timeout_error, is_key_error, ◌>>=◌, ◌>>◌,
}
use taboot.Python.Loops.{for_each}
use taboot.Schemas.{
  invalid, has_length, Document, Chunk, IngestionJob, JobError, JobState, SourceType,
  ExtractionState,
}
use taboot.DocumentStore
use taboot.World.{World, Env, now_utc, fresh_uuid, database}
use taboot.Ingest.Chunker.{Metadata, MetaValue, Page, ChunkDoc, chunk_document}
use taboot.Ingest.Embedder.{Answer, embed_texts}
use taboot.Vector.Writer.{PointStruct, upsert_batch}

-- The services and the collection of the vector store.
pub record Site (F : Type 0) : Type 0 where
  pub world : World
  pub points : List (PointStruct F)

pub record Tools (F : Type 0) : Type 0 where
  pub load_data : Text → Option ℕ → Exec (Site F) (List Page)
  pub normalize : Text → Outcome Text
  pub split_nodes : Text → Metadata → Outcome (List Text)
  pub count_tokens : Text → ℕ
  pub sha256 : Text → Text
  pub post : List Text → Exec (Site F) (Answer F)
  pub upsert : List (PointStruct F) → Exec (Site F) (Unit {0})
  pub document_ingested_callback : Option (Document → ℕ → Exec (Site F) (Unit {0}))
  pub embed_batch_size : ℕ
  pub expected_dim : ℕ
  pub write_batch_size : ℕ
  pub flush_threshold : ℕ

-- The variables of `execute` that outlive an exception.
pub record Frame (F : Type 0) : Type 0 where
  pub site : Site F
  pub job : IngestionJob

abbrev pub is_allowed_key : Text → Bool
is_allowed_key k =
    text_eq k (codes "source_url") || text_eq k (codes "section") || text_eq k (codes "title")

abbrev pub is_scalar : MetaValue → Bool
is_scalar (MetaValue.scalar t) = true
is_scalar MetaValue.compound = false

abbrev pub keep_entry : Text × MetaValue → Bool
keep_entry (k, v) = is_allowed_key k && is_scalar v

abbrev pub error_prefix : Kind → Text
error_prefix k =
    if is_connection_error k
    then codes "Connection failed: "
    else if is_timeout_error k
    then codes "Operation timed out: "
    else if is_key_error k || is_value_error k
    then codes "Data error: "
    else codes "Unexpected error: "

-- `job.errors if job.errors else []`
abbrev pub error_list : Option (List JobError) → List JobError
error_list none = []
error_list (some es) = es

module _ {F : Type 0} where
  unfoldable pub on_world : {A : Type 0} → Exec World A → Exec (Site F) A
  on_world m s = let (r, w) = m s.world in (r, record s { world = w })

  pub on_site : {A : Type 0} → Exec (Site F) A → Exec (Frame F) A
  on_site m f = let (r, s) = m f.site in (r, record f { site = s })

  abbrev pub change_job : (IngestionJob → IngestionJob) → Exec (Frame F) (Unit {0})
  change_job g = modify (λ f. record f { job = g f.job })

module _ {F : Type 0} (env : Env) (tools : Tools F) where
  -- The URL is validated by the model of the job, outside every handler.
  pub create_job : Text → Option ℕ → Exec (Site F) IngestionJob
  create_job url job_id = do
    id ← elim job_id [ some i ↦ pure i | none ↦ on_world (fresh_uuid env) ]
    created_at ← on_world (now_utc env)
    if has_length 2048 url
        then pure (record {
          job_id = id;
          source_type = SourceType.web;
          source_target = url;
          state = JobState.pending;
          created_at = created_at;
          started_at = none;
          completed_at = none;
          pages_processed = 0;
          chunks_created = 0;
          errors = none;
        })
        else raise invalid

  pub transition_to_running : Exec (Frame F) (Unit {0})
  transition_to_running = do
    started_at ← on_site (on_world (now_utc env))
    change_job (λ job. record job { state = JobState.running; started_at = some started_at })

  pub transition_to_completed : Exec (Frame F) IngestionJob
  transition_to_completed = do
    completed_at ← on_site (on_world (now_utc env))
    change_job (λ job. record job { state = JobState.completed; completed_at = some completed_at })
    gets (λ f. f.job)

  pub transition_to_failed : Text → Exec (Frame F) IngestionJob
  transition_to_failed error_msg = do
    timestamp ← on_site (on_world (now_utc env))
    completed_at ← on_site (on_world (now_utc env))
    change_job (λ job. record job {
      state = JobState.failed;
      completed_at = some completed_at;
      errors =
          some (error_list job.errors ++ record { error = error_msg; timestamp = timestamp } ∷ []);
    })
    gets (λ f. f.job)

  -- A `Chunk` of what the chunker returned, which its model validates.
  pub make_chunk : Text → ℕ → ℕ → ChunkDoc → Exec (Site F) Chunk
  make_chunk source_url doc_id ingested_at chunk_doc = do
    chunk_id ← on_world (fresh_uuid env)
    if has_length 4096 chunk_doc.text
        then pure (record {
          chunk_id = chunk_id;
          doc_id = doc_id;
          content = chunk_doc.text;
          section = none;
          position = chunk_doc.chunk_index;
          token_count = max 1 (min (tools.count_tokens chunk_doc.text) 512);
          source_url = source_url;
          source_type = SourceType.web;
          ingested_at = ingested_at;
          tags = none;
        })
        else raise invalid

  abbrev pub notify :
      Option (Document → ℕ → Exec (Site F) (Unit {0})) → Document → ℕ → Exec (Site F) (Unit {0})
  notify none doc n = pure tt
  notify (some callback) doc n = try_except (callback doc n) (λ e. pure tt)

  pub store_document : Text → ℕ → Text → ℕ → Exec (Site F) (Unit {0})
  store_document source_url doc_id markdown chunk_count = do
    ingested_at ← on_world (now_utc env)
    updated_at ← on_world (now_utc env)
    let doc_record : Document = record {
      doc_id = doc_id;
      source_url = source_url;
      source_type = SourceType.web;
      content_hash = tools.sha256 markdown;
      ingested_at = ingested_at;
      extraction_state = ExtractionState.pending;
      extraction_version = none;
      updated_at = updated_at;
    }
    on_world (database env (DocumentStore.create doc_record markdown))
    notify tools.document_ingested_callback doc_record chunk_count

  -- `_process_document`
  unfoldable pub process_page : Text → Page → Exec (Site F) (List Chunk)
  process_page source_url doc = do
    markdown ← lift (tools.normalize doc.text)
    chunk_docs ← lift (
        chunk_document tools.split_nodes
          (record { text = markdown; metadata = filter keep_entry doc.metadata }))
    doc_id ← on_world (fresh_uuid env)
    ingested_at ← on_world (now_utc env)
    chunks ← for_each (make_chunk source_url doc_id ingested_at) chunk_docs
    store_document source_url doc_id markdown (length chunks)
    pure chunks

  pub write_chunks : List Chunk → Exec (Site F) (Unit {0})
  write_chunks chunks = do
    embeddings ←
        embed_texts tools.post tools.embed_batch_size tools.expected_dim
          (map (λ c. c.content) chunks)
    upsert_batch tools.upsert tools.write_batch_size chunks embeddings

  pub flush_chunks : List Chunk → Exec (Frame F) (Unit {0})
  flush_chunks chunks = do
    on_site (write_chunks chunks)
    change_job (λ job. record job { chunks_created = job.chunks_created + length chunks })

  -- What is pending behind a page.
  pub flush_full : List Chunk → Exec (Frame F) (List Chunk)
  flush_full all_chunks =
      if leb tools.flush_threshold (length all_chunks)
      then flush_chunks all_chunks >> pure []
      else pure all_chunks

  pub process_pages : Text → List Page → List Chunk → Exec (Frame F) (List Chunk)
  process_pages url [] all_chunks = pure all_chunks
  process_pages url (doc ∷ docs) all_chunks = do
    chunks ← on_site (process_page url doc)
    change_job (λ job. record job { pages_processed = job.pages_processed + 1 })
    pending ← flush_full (all_chunks ++ chunks)
    process_pages url docs pending

  pub ingest_pages : Text → List Page → Exec (Frame F) IngestionJob
  ingest_pages url docs = do
    all_chunks ← process_pages url docs []
    if is_empty all_chunks then pure tt else flush_chunks all_chunks
    transition_to_completed

  -- The body of the `try`.
  pub ingest : Text → Option ℕ → Exec (Frame F) IngestionJob
  ingest url limit = do
    transition_to_running
    docs ← on_site (tools.load_data url limit)
    if is_empty docs then transition_to_completed else ingest_pages url docs

  pub fail_job : Exn → Exec (Frame F) IngestionJob
  fail_job e = transition_to_failed (error_prefix e.kind ++ e.message)

  abbrev unframe : Outcome IngestionJob × Frame F → Outcome IngestionJob × Site F
  unframe (r, f) = (r, f.site)

  pub run_ingestion : Text → Option ℕ → IngestionJob → Exec (Site F) IngestionJob
  run_ingestion url limit job s =
      unframe (try_else (ingest url limit) pure fail_job (record { site = s; job = job }))

  pub execute : Text → Option ℕ → Option ℕ → Exec (Site F) IngestionJob
  execute url limit job_id = create_job url job_id >>= run_ingestion url limit
