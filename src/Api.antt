-- ===== src/Api.antt =====
-- apps/api: the routes that start an ingestion and report on it, and the authentication of requests.
pub mod Ingestion
pub mod Auth
pub mod ApiKeys
use taboot.Prelude.{ℕ, Text}
use taboot.Python.{Kind, Exn}

-- `HTTPException(status_code=..., detail=...)`
abbrev pub http_error : ℕ → Text → Exn
http_error status detail = record { kind = Kind.http_exception status; message = detail }
