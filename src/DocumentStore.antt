-- ===== src/DocumentStore.antt =====
-- packages/clients/postgres_document_store.py: each method is the SQL that it sends, read over
-- two tables, lists of rows with the keys that the schema declares: `doc_id` and `content_hash`
-- are unique in rag.documents, `doc_id` in rag.document_content. A statement is one transaction.
-- Rows that an ORDER BY does not separate come in table order. `now` is what the clock says at
-- the call. Connection failures are injected where the store is used (World).
pub mod Ordering
pub mod Selected
pub mod Unique
pub mod Updates
pub mod Queries
pub mod Repository
use taboot.Prelude.{
  ℕ, Text, codes, Bool, true, false, not, ◌&&◌, ◌||◌, Option, none, some, List, [], ◌∷◌, ◌++◌,
  length, take, drop, filter, leb, ◌==◌, text_eq, if◌then◌else◌,
}
use taboot.Python.{Exec, Exn, Kind, ok, raised, pure, raise, ◌>>=◌, ◌>>◌}
use taboot.Schemas.{Document, SourceType, ExtractionState, source_value, state_value}

pub record Store : Type 0 where
  pub documents : List Document
  pub contents : List (ℕ × Text)

abbrev pub empty : Store
empty = record { documents = []; contents = [] }

-- A row with this `doc_id`, and one with this `content_hash`.
unfoldable pub has_id : ℕ → List Document → Bool
has_id i [] = false
has_id i (d ∷ ds) = d.doc_id == i || has_id i ds

unfoldable pub has_hash : Text → List Document → Bool
has_hash h [] = false
has_hash h (d ∷ ds) = text_eq d.content_hash h || has_hash h ds

unfoldable pub content_of : ℕ → List (ℕ × Text) → Option Text
content_of i [] = none
content_of i ((j, t) ∷ rest) = if j == i then some t else content_of i rest

abbrev insert_unless : Option Text → ℕ → Text → List (ℕ × Text) → List (ℕ × Text)
insert_unless none i t rows = rows ++ (i, t) ∷ []
insert_unless (some _) i t rows = rows

-- INSERT INTO rag.document_content ... ON CONFLICT (doc_id) DO NOTHING
abbrev pub insert_content : ℕ → Text → List (ℕ × Text) → List (ℕ × Text)
insert_content i t rows = insert_unless (content_of i rows) i t rows

abbrev pub duplicate_key : Exn
duplicate_key = record { kind = Kind.integrity_error; message = codes "duplicate key" }

unfoldable pub create : Document → Text → Exec Store (Unit {0})
create d content s =
    if has_hash d.content_hash s.documents
    then (ok tt, s)
    else if has_id d.doc_id s.documents
    then (raised duplicate_key, s)
    else (
      ok tt,
      record {
        documents = s.documents ++ d ∷ [];
        contents = insert_content d.doc_id content s.contents;
      },
    )

-- ORDER BY: `before d e` says that `d` may stand before `e`.
unfoldable pub insert_by : {A : Type 0} → (A → A → Bool) → A → List A → List A
insert_by before d [] = d ∷ []
insert_by before d (e ∷ es) =
    let rest = insert_by before d es in if before d e then d ∷ e ∷ es else e ∷ rest

unfoldable pub order_by : {A : Type 0} → (A → A → Bool) → List A → List A
order_by before [] = []
order_by before (d ∷ ds) = insert_by before d (order_by before ds)

abbrev pub oldest_first : Document → Document → Bool
oldest_first d e = leb d.ingested_at e.ingested_at

abbrev pub newest_first : Document → Document → Bool
newest_first d e = leb e.ingested_at d.ingested_at

abbrev pub latest_update_first : Document → Document → Bool
latest_update_first d e = leb e.updated_at d.updated_at

-- WHERE extraction_state = ...
abbrev pub in_state : ExtractionState → Document → Bool
in_state state d = text_eq (state_value d.extraction_state) (state_value state)

abbrev pub from_source : SourceType → Document → Bool
from_source source d = text_eq (source_value d.source_type) (source_value source)

-- LIMIT, where there is one
abbrev pub limited : Option ℕ → List Document → List Document
limited none ds = ds
limited (some n) ds = take n ds

unfoldable pub query_pending : Option ℕ → Exec Store (List Document)
query_pending limit s = (
  ok (
      limited limit
        (order_by oldest_first (filter (in_state ExtractionState.pending) s.documents))),
  s,
)

unfoldable pub query_by_date : ℕ → Exec Store (List Document)
query_by_date since s =
    (ok (order_by latest_update_first (filter (λ d. leb since d.updated_at) s.documents)), s)

abbrev pub not_found : Exn
not_found = record { kind = Kind.key_error; message = codes "Document content not found" }

abbrev pub found_or_key_error : Option Text → Exec Store Text
found_or_key_error none = raise not_found
found_or_key_error (some t) = pure t

unfoldable pub get_content : ℕ → Exec Store Text
get_content i s = found_or_key_error (content_of i s.contents) s

-- SET extraction_state, extraction_version, updated_at; the other columns stay.
abbrev pub set_columns : ℕ → Document → Document → Document
set_columns now d row = record row {
  extraction_state = d.extraction_state;
  extraction_version = d.extraction_version;
  updated_at = now;
}

-- UPDATE ... WHERE doc_id = %s
unfoldable pub update_rows : ℕ → Document → List Document → List Document
update_rows now d [] = []
update_rows now d (row ∷ rows) =
    (if row.doc_id == d.doc_id then set_columns now d row else row) ∷ update_rows now d rows

abbrev pub not_updated : Exn
not_updated = record { kind = Kind.key_error; message = codes "Document not found for update" }

pub update_document : ℕ → Document → Exec Store (Unit {0})
update_document now d s =
    if has_id d.doc_id s.documents
    then (ok tt, record s { documents = update_rows now d s.documents })
    else (raised not_updated, s)

-- The optional filters of a listing.
abbrev pub source_matches : Option SourceType → Document → Bool
source_matches none d = true
source_matches (some source) d = from_source source d

abbrev pub state_matches : Option ExtractionState → Document → Bool
state_matches none d = true
state_matches (some state) d = in_state state d

abbrev pub selected : Option SourceType → Option ExtractionState → List Document → List Document
selected source state = filter (λ d. source_matches source d && state_matches state d)

pub query_documents :
    ℕ → ℕ → Option SourceType → Option ExtractionState → Exec Store (List Document)
query_documents limit offset source state s =
    (ok (take limit (drop offset (order_by newest_first (selected source state s.documents)))), s)

pub count_documents : Option SourceType → Option ExtractionState → Exec Store ℕ
count_documents source state s = (ok (length (selected source state s.documents)), s)
