-- ===== src/Vector/Writer/Kept.antt =====
-- What writing points leaves alone.
use taboot.Prelude.{ℕ, zero, suc, ◌+◌, List, length, is_empty, ◌==◌}
use taboot.Python.{raised, Exec}
use taboot.Python.Triples.{
  Preserves, Preserves-pure, Preserves-lift, Preserves-if, Preserves-bind, Preserves-then,
  Preserves-try,
}
use taboot.Schemas.{Chunk}
use taboot.Python.Slices.{batch_start, batch_stop, slice, num_batches}
use taboot.Vector.Writer.{
  PointStruct, all_sized, bad_dimension, bad_length, write_error, build_points, upsert_points,
  upsert_batch_internal, upsert_from, upsert_batch,
}

module _ {S F : Type 0} (upsert : List (PointStruct F) → Exec S (Unit {0})) (batch_size : ℕ)
    (P : S → Type 0) (kept : (ps : List (PointStruct F)) → Preserves P (upsert ps)) where
  upsert_batch_internal-Preserves :
      (chunks : List Chunk) (embeddings : List (List F))
      → Preserves P (upsert_batch_internal upsert batch_size chunks embeddings)
  unfolding upsert_batch_internal upsert_points
  upsert_batch_internal-Preserves chunks embeddings =
      Preserves-bind _ _ (Preserves-lift (build_points chunks embeddings)) (λ points.
        Preserves-try _ _ _ (kept points) (λ a. Preserves-pure a)
          (λ e. Preserves-lift (raised write_error)))

  upsert_from-Preserves :
      (rest batch_idx : ℕ) (chunks : List Chunk) (embeddings : List (List F))
      → Preserves P (upsert_from upsert batch_size rest batch_idx chunks embeddings)
  unfolding upsert_from
  upsert_from-Preserves zero i chunks embeddings = Preserves-pure tt
  upsert_from-Preserves (suc rest) i chunks embeddings =
      let start_idx = batch_start batch_size i in
      let end_idx = batch_stop batch_size i (length chunks) in
      Preserves-then _ _
        (upsert_batch_internal-Preserves (slice start_idx end_idx chunks)
          (slice start_idx end_idx embeddings))
        (upsert_from-Preserves rest (i + 1) chunks embeddings)

  pub upsert_batch-Preserves :
      (chunks : List Chunk) (embeddings : List (List F))
      → Preserves P (upsert_batch upsert batch_size chunks embeddings)
  unfolding upsert_batch
  upsert_batch-Preserves chunks embeddings =
      Preserves-if (is_empty chunks) _ _ (Preserves-pure tt) (
        Preserves-if (length chunks == length embeddings) _ _
          (Preserves-if (all_sized embeddings) _ _
            (upsert_from-Preserves (num_batches batch_size (length chunks)) 0 chunks embeddings)
            (Preserves-lift (raised bad_dimension)))
          (Preserves-lift (raised bad_length)))
