-- ===== src/DocumentStore/Repository.antt =====
-- packages/common/postgres_adapter.py: the methods of the PostgreSQL repository that read and save one
-- document. `save` sends every column, so that it may meet the key of `content_hash`; it raises
-- where no row has the id, before the commit.
pub mod Saved
use taboot.Prelude.{
  ℕ, Text, Bool, true, false, not, ◌&&◌, ◌||◌, Option, none, some, List, [], ◌∷◌, filter, ◌==◌,
  text_eq, if◌then◌else◌,
}
use taboot.Python.{Exec, ok, raised}
use taboot.Schemas.{Document, ExtractionState}
use taboot.DocumentStore.{
  Store, has_id, content_of, duplicate_key, order_by, oldest_first, in_state, limited, not_updated,
  found_or_key_error,
}
use taboot.DocumentStore.Updates.{find_document}

unfoldable pub find_by_id : ℕ → Exec Store (Option Document)
find_by_id doc_id s = (ok (find_document doc_id s.documents), s)

pub find_pending_extraction : Option ℕ → Exec Store (List Document)
find_pending_extraction limit s = (
  ok (
      limited limit
        (order_by oldest_first (filter (in_state ExtractionState.pending) s.documents))),
  s,
)

pub get_document_content : ℕ → Exec Store Text
get_document_content doc_id s = found_or_key_error (content_of doc_id s.contents) s

-- UPDATE ... SET every column ... WHERE doc_id = %s
unfoldable pub save_rows : ℕ → Document → List Document → List Document
save_rows now d [] = []
save_rows now d (row ∷ rows) =
    (if row.doc_id == d.doc_id then record d { updated_at = now } else row) ∷ save_rows now d rows

-- Another row has the hash.
unfoldable pub hash_taken : Document → List Document → Bool
hash_taken d [] = false
hash_taken d (row ∷ rows) =
    (not (row.doc_id == d.doc_id) && text_eq row.content_hash d.content_hash) || hash_taken d rows

unfoldable pub save : ℕ → Document → Exec Store (Unit {0})
save now document s =
    if has_id document.doc_id s.documents
    then if hash_taken document s.documents
      then (raised duplicate_key, s)
      else (ok tt, record s { documents = save_rows now document s.documents })
    else (raised not_updated, s)
