-- ===== src/Tests/Ingestion.antt =====
-- packages/core/use_cases/ingest_web.py and packages/vector/writer.py on one page and two chunks, and
-- packages/vector/migrations/versioning.py on one version.
use taboot.Prelude.{
  ℕ, zero, suc, Option, some, text_eq_refl, ap, sym, Text, codes, ◌≡◌, refl, true, none, List, [],
  ◌∷◌, ◌++◌, All, map, filter, text_eq, length, arith, ◌≤◌,
}
use mathlib.Core.List.{flatten}
use taboot.Python.{ok, Exec}
use taboot.Python.Triples.{Post}
use taboot.Schemas.{Chunk, SourceType}
use taboot.Ingest.Embedder.{Answer, Item}
use taboot.Vector.Writer.{PointStruct, all_sized, upsert_batch}
use taboot.Vector.Writer.Upserted.{points_of, upsert_each, upsert_batch-each}
use taboot.DocumentStore.{has_hash, has_id}
use taboot.DocumentStore.Updates.{find_document}
use taboot.Ingest.Chunker.{Page, ChunkDoc, number_chunks, chunk_document}
use taboot.UseCases.IngestWeb.{Site, Tools, keep_entry, process_page, execute}
use taboot.UseCases.IngestWeb.Reingested.{IsQuiet, process_page-Orphaned}
use taboot.UseCases.IngestWeb.Kept.{IsFaithful}
use taboot.UseCases.IngestWeb.Counting.{Accounted}
use taboot.UseCases.IngestWeb.Accounting.{ingest_web-Accounted}
use taboot.Tests.Pipeline.{env, world}
use taboot.Vector.Versioning.{
  Client, versioned_name, any_named, list_versions, create_collection_with_version,
}
use taboot.Vector.Versioning.Listed
use taboot.Vector.Versioning.Listed.{is_dotted, list_versions-create}

abbrev zeros : ℕ → List ℕ
zeros zero = []
zeros (suc n) = 0 ∷ zeros n

-- A client that appends what it is given.
abbrev append_points : List (PointStruct ℕ) → Exec (Site ℕ) (Unit {0})
append_points ps s = (ok tt, record s { points = s.points ++ ps })

abbrev pub tools : Tools ℕ
tools = record {
  load_data = λ url limit s. (ok (record { text = codes "one two"; metadata = [] } ∷ []), s);
  normalize = λ t. ok t;
  split_nodes = λ t metadata. ok (codes "one" ∷ codes "two" ∷ []);
  count_tokens = length;
  sha256 = λ t. t;
  post = λ ts s. (ok (Answer.items (map (λ t. Item.vector (zeros 1024)) ts)), s);
  upsert = append_points;
  document_ingested_callback = none;
  embed_batch_size = 2;
  expected_dim = 1024;
  write_batch_size = 1;
  flush_threshold = 2;
}

pub tools-IsFaithful : IsFaithful tools
tools-IsFaithful = record {
  loads = λ url limit s. refl;
  posts = λ texts s. refl;
  calls = λ callback e d n s. absurd (ground arith);
  upserts = λ ps s. refl;
  batched = omega arith;
}

tools-IsQuiet : IsQuiet env tools
tools-IsQuiet = record { up = λ t. refl; calls = λ callback e d n s. absurd (ground arith) }

abbrev pub site : Site ℕ
site = record { world = world; points = [] }

ingest_web-Accounted_example :
    Post (Accounted []) (λ _. ⊥) (execute env tools (codes "https://example.com") none none site)
ingest_web-Accounted_example =
    ingest_web-Accounted env tools tools-IsFaithful (codes "https://example.com") none none site
      refl

abbrev chunk : ℕ → Text → Chunk
chunk i content = record {
  chunk_id = i;
  doc_id = 1;
  content = content;
  section = none;
  position = i;
  token_count = 1;
  source_url = codes "https://example.com";
  source_type = SourceType.web;
  ingested_at = 5;
  tags = none;
}

abbrev chunks : List Chunk
chunks = chunk 0 (codes "one") ∷ chunk 1 (codes "two") ∷ chunk 2 (codes "three") ∷ []

abbrev embeddings : List (List ℕ)
embeddings = zeros 1024 ∷ zeros 1024 ∷ zeros 1024 ∷ []

embeddings_sized : all_sized embeddings ≡ true
unfolding all_sized
embeddings_sized = refl

upsert_batch-each_example :
    (bs : List (List (PointStruct ℕ))) × (flatten bs ≡ points_of chunks embeddings)
    × All (λ b. length b ≤ 2) bs
    × (upsert_batch append_points 2 chunks embeddings site ≡ upsert_each append_points 2 bs site)
upsert_batch-each_example =
    upsert_batch-each append_points 2 (omega arith) chunks embeddings refl embeddings_sized site

-- The content of the page is the hash of the stored document.
abbrev page : Page
page = record { text = codes "ab"; metadata = [] }

abbrev nodes : List ChunkDoc
nodes = number_chunks [] 0 2 (codes "one" ∷ codes "two" ∷ [])

abbrev later : Site ℕ
later = record { world = record world { ticks = 7 }; points = [] }

page_split :
    chunk_document tools.split_nodes
      (record { text = codes "ab"; metadata = filter keep_entry page.metadata })
    ≡ ok nodes
unfolding chunk_document
page_split = refl

process_page-Orphaned_example :
    Post
      (λ chunks v.
        (v.world.store ≡ later.world.store)
        × (length chunks ≡ length nodes)
        × All (λ c. find_document c.doc_id v.world.store.documents ≡ none) chunks)
      (λ _. ⊥)
      (process_page env tools (codes "https://example.com") page later)
unfolding number_chunks has_hash has_id text_eq
process_page-Orphaned_example =
    process_page-Orphaned env tools tools-IsQuiet (codes "https://example.com") page (codes "ab")
      nodes later refl page_split (refl, (refl, tt)) refl refl

-- A client that keeps the names of its collections and takes any alias.
abbrev names_client : Client (List Text)
names_client = record {
  create_collection = λ name size s. (ok tt, name ∷ s);
  get_collections = λ s. (ok s, s);
  get_collection = λ name s. (ok none, s);
  delete_alias = none;
  create_alias = some (λ c a s. (ok tt, s));
}

abbrev after_alias :
    Option (Text → Text → Exec (List Text) (Unit {0})) → Text → Text → List Text → List Text
after_alias none c a s = s
after_alias (some g) c a s = (g c a s).1

names_client-IsFaithful : Listed.IsFaithful names_client (λ s. s)
unfolding any_named
names_client-IsFaithful = record {
  lists = λ s. refl;
  creates = λ name size s. rw (text_eq_refl name) refl;
  deletes = λ f e a s. absurd (ground arith);
  points = λ g e c a s. sym (ap (λ o. after_alias o c a s) e);
}

list_versions-create_example :
    Post
      (λ created t.
        (created ≡ versioned_name (codes "docs") (codes "1.0.0"))
        × (vs : List Text) × ((list_versions names_client (codes "docs") t).0 ≡ ok vs)
        × (any_named (codes "1.0.0") vs ≡ true))
      (λ _. Unit {0})
      (create_collection_with_version names_client (codes "docs") 1024 (codes "1.0.0") [])
unfolding is_dotted
list_versions-create_example =
    list_versions-create names_client (λ s. s) names_client-IsFaithful (codes "docs")
      (codes "1.0.0") 1024 [] refl
