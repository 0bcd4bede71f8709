-- ===== src/UseCases/ListDocuments/Paging.antt =====
-- The response of a listing.
use taboot.Prelude.{ℤ, ℕ, zero, suc, ◌≡◌, refl, Option, inl, inr, Option-cases}
use taboot.Python.{raised, ◌>>=◌, ◌>>◌}
use taboot.Python.Triples.{Post}
use taboot.Schemas.{SourceType, ExtractionState}
use taboot.DocumentStore.Queries.{IsPage, query_documents-IsPage}
use taboot.World.{World, Env, tick, service, database}
use taboot.UseCases.ListDocuments.{
  DocumentListResponse, documents_client, bad_limit, bad_offset, list_page, execute,
}

module _ (env : Env) (limit offset : ℕ) (source : Option SourceType)
    (state : Option ExtractionState) where
  -- A response to the request, of a store's rows.
  pub record Answers (w : World) (r : DocumentListResponse) (v : World) : Type 0 where
    pub same : v.store ≡ w.store
    pub page : IsPage w.store.documents source state limit offset r.total r.documents
    pub limit_sent : r.limit ≡ limit
    pub offset_sent : r.offset ≡ offset

  list_page-Answers :
      (w : World)
      → Post
          (Answers w)
          (λ v. v.store ≡ w.store)
          (list_page (documents_client env) limit offset source state w)
  unfolding list_page database service ◌>>=◌ ◌>>◌
  list_page-Answers w =
      let (ds, queried, total, counted, page) =
        query_documents-IsPage limit offset source state w.store in
      elim (Option-cases (env.fault w.ticks)) [
        | inr (e, down) ↦ rw down refl
        | inl up ↦ elim (Option-cases (env.fault (tick w).ticks)) [
          | inr (e, down) ↦ rw (up, queried, down) refl
          | inl still_up ↦
              rw (up, queried, still_up, counted)
                (record { same = refl; page = page; limit_sent = refl; offset_sent = refl })
        ]
      ]

-- A listing whose limit is at least 1 and whose offset is not negative returns or raises, and changes
-- no row. What it returns is of the rows with the source type and the state of the filters that are
-- given, the newest ingestion first: their number as the total, and, behind as many of them as the
-- offset, as many as the limit admits. Any other limit or offset is a `ValueError` before the database
-- is asked.
pub execute-Answers :
    (env : Env) (source : Option SourceType) (state : Option ExtractionState) (w : World)
    → ((n offset : ℕ)
        → Post
            (Answers env (suc n) offset source state w)
            (λ v. v.store ≡ w.store)
            (execute (documents_client env) (ℤ.pos (suc n)) (ℤ.pos offset) source state w))
      × ((n k : ℕ)
          → execute (documents_client env) (ℤ.pos (suc n)) (ℤ.negsuc k) source state w
            ≡ (raised bad_offset, w))
      × ((offset : ℤ)
          → execute (documents_client env) (ℤ.pos zero) offset source state w
            ≡ (raised bad_limit, w))
      × ((k : ℕ) (offset : ℤ)
          → execute (documents_client env) (ℤ.negsuc k) offset source state w
            ≡ (raised bad_limit, w))
unfolding execute
execute-Answers env source state w = (
  λ n offset. list_page-Answers env (suc n) offset source state w,
  λ n k. refl,
  λ offset. refl,
  λ k offset. refl,
)
