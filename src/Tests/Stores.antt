-- ===== src/Tests/Stores.antt =====
-- packages/clients/postgres_document_store.py on a few rows.
use taboot.Prelude.{ℕ, ◌+◌, Text, codes, ◌≡◌, refl, none, some, List, [], ◌∷◌}
use taboot.Python.{ok}
use taboot.Schemas.{Document, SourceType, ExtractionState}
use taboot.DocumentStore.{Store, has_id, has_hash, content_of, create, query_pending}
use taboot.DocumentStore.Unique.{IsValid, create-IsValid}
use taboot.DocumentStore.Queries.{IsQueue, query_pending-IsQueue}

abbrev pub row : ℕ → Text → ExtractionState → Document
row i hash state = record {
  doc_id = i;
  source_url = codes "https://example.com";
  source_type = SourceType.web;
  content_hash = hash;
  ingested_at = 10 + i;
  extraction_state = state;
  extraction_version = none;
  updated_at = 20;
}

abbrev pub first : Document
first = row 1 (codes "ab") ExtractionState.pending

abbrev pub second : Document
second = row 2 (codes "cd") ExtractionState.completed

abbrev pub one_row : Store
one_row = record { documents = first ∷ []; contents = (1, codes "one") ∷ [] }

one_row-IsValid : IsValid one_row
unfolding has_id has_hash content_of
one_row-IsValid = record {
  unique = (refl, refl, tt);
  stored = ((codes "one", refl), tt);
  owned = (refl, tt);
}

create-IsValid_example : IsValid (create second (codes "two") one_row).1
create-IsValid_example = create-IsValid second (codes "two") one_row one_row-IsValid

abbrev renewed : Document
renewed = record first { content_hash = codes "ef" }

query_pending-IsQueue_example :
    (ds : List Document) × (query_pending (some 1) one_row ≡ (ok ds, one_row))
    × IsQueue one_row.documents (some 1) ds
query_pending-IsQueue_example = query_pending-IsQueue (some 1) one_row
