-- ===== src/Vector/Writer.antt =====
-- packages/vector/writer.py: `QdrantWriter.upsert_batch` and its asynchronous twin, which differs
-- in running the client's `upsert` in a thread. The client is a parameter. `F` is Python's float.
pub mod Upserted
pub mod Stored
pub mod Kept
use taboot.Prelude.{
  ℕ, zero, suc, ◌+◌, codes, Bool, true, ◌&&◌, List, [], ◌∷◌, length, is_empty, ◌==◌, if◌then◌else◌,
}
use taboot.Python.{Kind, Exn, Outcome, ok, raised, Exec, pure, raise, lift, try_except, ◌>>=◌, ◌>>◌}
use taboot.Python.Slices.{batch_start, batch_stop, slice, num_batches}
use taboot.Schemas.{Chunk}

-- `models.PointStruct`, whose id and payload are the chunk's fields
pub record PointStruct (F : Type 0) : Type 0 where
  pub chunk : Chunk
  pub vector : List F

abbrev pub vector_size : ℕ
vector_size = 1024

abbrev pub bad_length : Exn
bad_length = record {
  kind = Kind.value_error;
  message = codes "chunks and embeddings must have the same length";
}

abbrev pub bad_dimension : Exn
bad_dimension = record {
  kind = Kind.value_error;
  message = codes "All embeddings must be 1024-dimensional";
}

abbrev pub zip_mismatch : Exn
zip_mismatch = record {
  kind = Kind.value_error;
  message = codes "zip() argument 2 is of another length than argument 1";
}

abbrev pub write_error : Exn
write_error = record {
  kind = Kind.qdrant_write_error;
  message = codes "Failed to upsert points to collection";
}

-- The loop that validates the dimensions.
unfoldable pub all_sized : {F : Type 0} → List (List F) → Bool
all_sized [] = true
all_sized (emb ∷ rest) = length emb == vector_size && all_sized rest

abbrev pub add_point :
    {F : Type 0} → PointStruct F → Outcome (List (PointStruct F)) → Outcome (List (PointStruct F))
add_point p (ok ps) = ok (p ∷ ps)
add_point p (raised e) = raised e

-- `for chunk, embedding in zip(chunks, embeddings, strict=True)`
pub build_points : {F : Type 0} → List Chunk → List (List F) → Outcome (List (PointStruct F))
build_points [] [] = ok []
build_points [] (v ∷ vs) = raised zip_mismatch
build_points (c ∷ cs) [] = raised zip_mismatch
build_points (c ∷ cs) (v ∷ vs) = add_point (record { chunk = c; vector = v }) (build_points cs vs)

module _ {S F : Type 0} (upsert : List (PointStruct F) → Exec S (Unit {0})) (batch_size : ℕ) where
  -- `_upsert_batch_internal`
  pub upsert_points : List (PointStruct F) → Exec S (Unit {0})
  upsert_points points = try_except (upsert points) (λ e. raise write_error)

  pub upsert_batch_internal : List Chunk → List (List F) → Exec S (Unit {0})
  upsert_batch_internal chunks embeddings = lift (build_points chunks embeddings) >>= upsert_points

  -- `for batch_idx in range(num_batches)`, from an index on.
  pub upsert_from : ℕ → ℕ → List Chunk → List (List F) → Exec S (Unit {0})
  upsert_from zero batch_idx chunks embeddings = pure tt
  upsert_from (suc rest) batch_idx chunks embeddings =
      let start_idx = batch_start batch_size batch_idx in
      let end_idx = batch_stop batch_size batch_idx (length chunks) in
      upsert_batch_internal (slice start_idx end_idx chunks) (slice start_idx end_idx embeddings)
      >> upsert_from rest (batch_idx + 1) chunks embeddings

  pub upsert_batch : List Chunk → List (List F) → Exec S (Unit {0})
  upsert_batch chunks embeddings =
      if is_empty chunks
      then pure tt
      else if length chunks == length embeddings
      then if all_sized embeddings
        then upsert_from (num_batches batch_size (length chunks)) 0 chunks embeddings
        else raise bad_dimension
      else raise bad_length

  pub upsert_single : Chunk → List F → Exec S (Unit {0})
  upsert_single chunk embedding = upsert_batch (chunk ∷ []) (embedding ∷ [])
