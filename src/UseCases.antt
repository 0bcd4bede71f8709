-- ===== src/UseCases.antt =====
-- packages/core/use_cases: the orchestration that the apps call, over ports.
pub mod Ports
pub mod ExtractPending
pub mod Reprocess
pub mod ListDocuments
pub mod IngestWeb
pub mod IngestSwag
