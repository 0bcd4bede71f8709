-- ===== src/Tests/Pipeline.antt =====
-- The pipeline of packages/extraction, packages/core/use_cases and apps/worker on one document.
use taboot.Prelude.{
  ℕ, ℤ, zero, suc, ◌+◌, codes, ◌≡◌, refl, true, none, [], ◌∷◌, length, text_eq, arith,
}
use taboot.Python.{Kind, Exn, ok, raised, ◌>>=◌, ◌>>◌}
use taboot.Python.Loops.{for_each}
use taboot.Python.Triples.{Post}
use taboot.World.{World, Env, tick, service}
use taboot.Extraction.{ExtractionResult}
use taboot.Extraction.LlmClient.{
  Backend, cached_at, extract_from_window, batch_extract, check_cache, save_to_cache, call_ollama,
}
use taboot.Extraction.LlmClient.Batching.{batch_extract-for_each}
use taboot.Extraction.LlmClient.Caching.{extract_again}
use taboot.Extraction.Orchestrator.{Tiers, process_document}
use taboot.Extraction.Orchestrator.Ending.{Settled, process_document-Settled}
use taboot.Extraction.Orchestrator.Records.{process_document-store}
use taboot.Extraction.Orchestrator.Returning.{Returns, process_document-Returns}
use taboot.DocumentStore.Updates.{find_document}
use taboot.UseCases.Ports.{DocumentPort, postgres}
use taboot.UseCases.ExtractPending.{Summary, execute}
use taboot.UseCases.ExtractPending.Counts.{execute_counts}
use taboot.UseCases.ExtractPending.Drained.{IsDone}
use taboot.UseCases.ExtractPending.Pipeline.{pipeline-IsDone}
use taboot.UseCases.Reprocess.Queued.{InState}
use taboot.DocumentStore.{content_of}
use taboot.UseCases.Reprocess
use taboot.UseCases.Reprocess.Queued.{Row, IsPending, reprocess-IsPending}
use taboot.UseCases.ListDocuments.{documents_client, bad_limit, bad_offset}
use taboot.UseCases.ListDocuments
use taboot.UseCases.ListDocuments.Paging.{Answers, execute-Answers}
use taboot.Worker.{Extractor, extract_single}
use taboot.Worker.SingleDocument.{extract_single_only}
use taboot.Tests.Stores.{first, one_row}

abbrev pub env : Env
env = record { now = λ t. 100 + t; uuid4 = λ t. t; fault = λ t. none }

abbrev pub world : World
world = record { store = one_row; jobs = []; cache = []; ticks = 0 }

abbrev tiers : Tiers
tiers = record {
  parse_code_blocks = λ t. ok [];
  parse_tables = λ t. ok [];
  find_matches = λ t. ok [];
  select_windows =
      λ t. ok (record { content = t; token_count = 1; start = 0; stop = length t } ∷ []);
  batch_extract = λ xs w. (ok [], w);
}

abbrev no_result : ExtractionResult
no_result = record { triples = [] }

-- A model that always answers the same.
abbrev backend : Backend
backend = record {
  has_ollama = true;
  has_redis = true;
  batch_size = 2;
  sha256 = λ t. t;
  chat = λ t p. ok (codes "{}");
  load = λ t. ok no_result;
  dump = λ r. codes "{}";
  resilient = λ m. m;
}

process_document-Settled_example :
    Settled env tiers 1 (process_document env tiers 1 (codes "text") world)
process_document-Settled_example = process_document-Settled env tiers 1 (codes "text") world

batch_extract-for_each_example :
    batch_extract env backend (codes "a" ∷ codes "b" ∷ codes "c" ∷ []) world
    ≡ for_each (extract_from_window env backend) (codes "a" ∷ codes "b" ∷ codes "c" ∷ []) world
batch_extract-for_each_example =
    batch_extract-for_each env backend (codes "a" ∷ codes "b" ∷ codes "c" ∷ []) world (omega arith)

process_document-Returns_example : Returns (process_document env tiers 1 (codes "text") world)
process_document-Returns_example =
    process_document-Returns env tiers (λ t. refl) 1 (codes "text") world

abbrev port : DocumentPort ℕ
port = record {
  query_pending = λ limit n. (ok (first ∷ []), n);
  get_content = λ i n. (ok (codes "text"), n);
  update_document = λ d n. (ok tt, n + 1);
}

abbrev broken : Exn
broken = record { kind = Kind.runtime_error; message = codes "broken" }

execute_counts_example :
    (t : Summary) × (u : ℕ) × (execute port (λ i content n. (raised broken, n)) none 0 ≡ (ok t, u))
    × (t.processed ≡ 1)
    × (t.succeeded + t.failed ≡ 1)
execute_counts_example =
    execute_counts port (λ i content n. (raised broken, n)) none 0 (first ∷ []) 0 refl

reprocess-IsPending_example :
    Post
      (λ _ v. Row env 1 IsPending v)
      (λ _. Unit {0})
      (Reprocess.execute env (Reprocess.postgres env) 15 world)
unfolding find_document
reprocess-IsPending_example = reprocess-IsPending env 15 world 1 first refl refl

abbrev extractor : Extractor
extractor = record { world = world; document_store = postgres env }

extract_single_only_example :
    find_document 2
      (extract_single env (process_document env tiers) 1 extractor).1.world.store.documents
    ≡ find_document 2 one_row.documents
extract_single_only_example =
    extract_single_only env (process_document env tiers)
      (λ i content w. process_document-store env tiers i content (λ xs v. refl) w) 1 2
      (λ e. absurd (omega arith)) extractor

-- What the second extraction of a window starts from.
abbrev seen : World
seen = record world { cache = (codes "a", codes "{}") ∷ []; ticks = 3 }

extract_again_example : extract_from_window env backend (codes "a") seen ≡ (ok no_result, tick seen)
unfolding extract_from_window check_cache save_to_cache call_ollama service cached_at ◌>>=◌ ◌>>◌
extract_again_example =
    extract_again env backend refl (codes "a") world seen no_result
      (record { load-dump = refl; dump-ne_nil = λ e. cc }) refl refl

execute-Answers_example :
    ((n offset : ℕ)
      → Post
          (Answers env (suc n) offset none none world)
          (λ v. v.store ≡ one_row)
          (ListDocuments.execute
            (documents_client env)
            (ℤ.pos (suc n))
            (ℤ.pos offset)
            none
            none
            world))
    × ((n k : ℕ)
        → ListDocuments.execute (documents_client env) (ℤ.pos (suc n)) (ℤ.negsuc k) none none world
          ≡ (raised bad_offset, world))
    × ((offset : ℤ)
        → ListDocuments.execute (documents_client env) (ℤ.pos zero) offset none none world
          ≡ (raised bad_limit, world))
    × ((k : ℕ) (offset : ℤ)
        → ListDocuments.execute (documents_client env) (ℤ.negsuc k) offset none none world
          ≡ (raised bad_limit, world))
execute-Answers_example = execute-Answers env none none world

pipeline-IsDone_example :
    Post
      (λ _ v. InState IsDone (find_document 1 v.store.documents))
      (λ _. ⊥)
      (execute (postgres env) (process_document env tiers) none world)
unfolding find_document content_of text_eq
pipeline-IsDone_example =
    pipeline-IsDone env tiers (λ t. refl) (λ xs w. refl) world 1 first (codes "one") refl refl refl
