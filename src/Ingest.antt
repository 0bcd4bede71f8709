-- ===== src/Ingest.antt =====
-- packages/ingest: from texts to chunks and vectors.
pub mod Embedder
pub mod JobStore
pub mod Chunker
pub mod Swag
pub mod DockerCompose
pub mod Unifi
pub mod Tailscale
