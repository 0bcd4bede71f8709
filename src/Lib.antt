-- ===== src/Lib.antt =====
-- A verification library for the ingestion and extraction core of taboot: documents are stored
-- in PostgreSQL, a pipeline of three tiers extracts triples from the text of the pending ones,
-- and use cases, run by a worker and by the apps, drive the pipeline and keep the documents'
-- states.
--
-- The parts and their files:
-- - Schemas: packages/schemas/models/__init__.py, the enums and records that the parts pass on.
-- - DocumentStore: packages/clients/postgres_document_store.py. A method is the SQL that it
--   sends, read over two lists of rows. Ordering, Unique, Updates and Queries hold its theorems.
-- - World: PostgreSQL and Redis as one state with a counter of calls. The clock, the fresh
--   UUIDs and the faults of the services are an environment that answers by that counter.
-- - Extraction.Sentences and Extraction.Windows: packages/extraction/tier_b/window_selector.py.
--   The tokenizer is a parameter, a text is the list of its code points.
-- - Extraction.LlmClient: packages/extraction/tier_c/llm_client.py. The model, SHA-256, JSON
--   and the retries of tenacity are a record of parameters.
-- - Extraction.Orchestrator: packages/extraction/orchestrator.py, process_document with its
--   retry loop and the job records in Redis. The tiers are parameters, each of which may raise.
-- - UseCases: packages/core/use_cases/extract_pending.py, reprocess.py and list_documents.py,
--   over ports that Ports fills with the PostgreSQL store; packages/common/postgres_adapter.py is
--   the repository of the listing.
-- - Worker: apps/worker/main.py, the adapter that runs the batch use case on one document, and
--   the poll that feeds it from a stream of events or a queue.
-- - Common.Validators and Common.Dlq: packages/common/validators.py and dlq.py.
-- - Common.DbSchema: packages/common/db_schema.py, create_schema as transactions of PostgreSQL,
--   which Common.Postgres describes, over the effect of the script of the schema.
-- - Graph.BatchedWriter: packages/graph/writers/batched.py.
-- - UseCases.IngestWeb: packages/core/use_cases/ingest_web.py, from the pages that the reader
--   loads to the points of the vector store. The collection joins the services in its state, and
--   the reader, the normalizer and the clients are parameters, as they are for the parts that it
--   calls.
-- - Ingest.Chunker: packages/ingest/chunker.py, over the splitter of LlamaIndex.
-- - Ingest.Embedder: packages/ingest/embedder.py, the synchronous methods over the TEI service.
-- - Ingest.Swag: packages/ingest/readers/swag.py, the parser of nginx configurations, with its
--   regular expressions read out as functions on code points.
-- - Graph.SwagWriter: packages/graph/writers/swag_writer.py. A query is what its Cypher does
--   with each row to the nodes and relationships, and a call of `session.run` one transaction.
--   What Neo4j answers to a property whose value is a map, as the proxy's metadata is, is a
--   parameter.
-- - UseCases.IngestSwag: packages/core/use_cases/ingest_swag.py and SwagReader.parse_file, over
--   a file system that is a parameter; it joins the parser to the writer.
-- - Vector.Writer: packages/vector/writer.py, the synchronous methods over the client of
--   Qdrant.
-- - Ingest.JobStore: packages/ingest/postgres_job_store.py over the rows of rag.ingestion_jobs.
-- - Api.Ingestion: apps/api/routes/ingest.py, which joins the URL validation, the job store and
--   the web ingestion: the request that creates a job and queues a task, the task, and the
--   status.
-- - Api.Auth and Api.ApiKeys: apps/api/middleware/jwt_auth.py, apps/api/deps/auth.py and
--   packages/common/api_key_store.py, over PyJWT, SHA-256 and JSON as parameters.
-- - DocumentStore.Repository: the other methods of packages/common/postgres_adapter.py.
-- - Ingest.DockerCompose, Ingest.Unifi and Ingest.Tailscale:
--   packages/ingest/readers/docker_compose.py, unifi.py and tailscale.py, over a YAML parser and
--   HTTP requests as parameters.
-- - Extraction.Patterns: packages/extraction/tier_a/patterns.py, over the matches of a regular
--   expression.
-- - Vector.Versioning: packages/vector/migrations/versioning.py, over the client of Qdrant.
-- - Prelude and Python: lists by native numbers, Python's exceptions, loops and batches, and
--   the rules for what an action keeps or leaves behind. Tests: runs at concrete inputs.
--
-- A method that may raise is a function from the state to an outcome and the state it leaves,
-- so that what was written before an exception stays written. `for` loops are structural
-- recursion; the retry loop of the orchestrator runs on fuel 5, one more than the rounds that
-- its test admits, and would end in an error of its own if that were not enough; and the slices
-- of a batch loop on one round for each element.
--
-- Left out: logging, the fields of the schemas that no modelled operation reads, and the
-- validators of pydantic but for the lengths of a job's target, a chunk's content and a proxy's
-- name; the other readers and ingestions, the rest of the vector store, retrieval, the other
-- routes of the HTTP API, the command line and the web application; the worker's endless loop.
-- Timestamps and UUIDs are numbers. Rows that an ORDER BY does not separate come in table
-- order. Transactions of different connections do not interleave.
pub mod Prelude
pub mod Python
pub mod Api
pub mod Common
pub mod DocumentStore
pub mod Extraction
pub mod Graph
pub mod Ingest
pub mod Schemas
pub mod Tests
pub mod UseCases
pub mod Vector
pub mod Worker
pub mod World
