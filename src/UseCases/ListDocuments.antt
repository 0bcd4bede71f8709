-- ===== src/UseCases/ListDocuments.antt =====
-- packages/core/use_cases/list_documents.py: `ListDocumentsUseCase.execute`, over the repository
-- of packages/common/postgres_adapter.py, whose SQL is that of the document store.
pub mod Paging
use taboot.Prelude.{ℕ, ℤ, zero, suc, Bool, true, false, codes, Option, List, if◌then◌else◌}
use taboot.Python.{Exn, Kind, Exec, pure, raise, ◌>>=◌}
use taboot.Schemas.{Document, SourceType, ExtractionState}
use taboot.DocumentStore
use taboot.World.{World, Env, database}

pub record DocumentListResponse : Type 0 where
  pub documents : List Document
  pub total : ℕ
  pub limit : ℕ
  pub offset : ℕ

-- What the use case asks of a repository, by a limit and an offset that it has checked.
pub record DocumentRepository (S : Type 0) : Type 0 where
  pub list_documents : ℕ → ℕ → Option SourceType → Option ExtractionState → Exec S (List Document)
  pub count_documents : Option SourceType → Option ExtractionState → Exec S ℕ

abbrev pub documents_client : Env → DocumentRepository World
documents_client env = record {
  list_documents = λ limit offset source state.
      database env (DocumentStore.query_documents limit offset source state);
  count_documents = λ source state. database env (DocumentStore.count_documents source state);
}

abbrev pub bad_limit : Exn
bad_limit = record { kind = Kind.value_error; message = codes "limit must be >= 1" }

abbrev pub bad_offset : Exn
bad_offset = record { kind = Kind.value_error; message = codes "offset must be >= 0" }

module _ {S : Type 0} (repository : DocumentRepository S) where
  pub list_page : ℕ → ℕ → Option SourceType → Option ExtractionState → Exec S DocumentListResponse
  list_page limit offset source state = do
    documents ← repository.list_documents limit offset source state
    total ← repository.count_documents source state
    pure (record { documents = documents; total = total; limit = limit; offset = offset })

  pub execute : ℤ → ℤ → Option SourceType → Option ExtractionState → Exec S DocumentListResponse
  execute (ℤ.negsuc _) offset source state = raise bad_limit
  execute (ℤ.pos zero) offset source state = raise bad_limit
  execute (ℤ.pos (suc n)) (ℤ.negsuc _) source state = raise bad_offset
  execute (ℤ.pos (suc n)) (ℤ.pos offset) source state = list_page (suc n) offset source state
