-- ===== src/Graph.antt =====
-- packages/graph: writes to Neo4j.
pub mod BatchedWriter
pub mod SwagWriter
