-- ===== src/Vector.antt =====
-- packages/vector: chunks and their vectors in Qdrant.
pub mod Writer
pub mod Versioning
