-- ===== src/Ingest/Embedder/Kept.antt =====
-- What embedding leaves alone.
use taboot.Prelude.{Text, List, [], ◌∷◌, ◌++◌, ℕ, is_empty, ◌==◌, length}
use taboot.Python.{Exec, raised}
use taboot.Python.Triples.{
  Preserves, Preserves-if, Preserves-pure, Preserves-bind, Preserves-lift, Preserves-try,
}
use taboot.Python.Batches.{batches}
use taboot.Ingest.Embedder.{
  Answer, check_answer, embed_batch, embed_batches, embed_texts, embedder_error, zero_step,
}

module _ {S F : Type 0} (post : List Text → Exec S (Answer F)) (batch_size expected_dim : ℕ)
    (P : S → Type 0) (P-post : (texts : List Text) → Preserves P (post texts)) where
  embed_batch-Preserves :
      (batch : List Text) → Preserves P (embed_batch post batch_size expected_dim batch)
  unfolding embed_batch
  embed_batch-Preserves batch =
      Preserves-try _ _ _
        (Preserves-bind _ _ (P-post batch)
          (λ a. Preserves-lift (check_answer post batch_size expected_dim (length batch) a)))
        (λ vs. Preserves-pure vs) (λ e. Preserves-lift (raised embedder_error))

  embed_batches-Preserves :
      (bs : List (List Text)) (done : List (List F))
      → Preserves P (embed_batches post batch_size expected_dim bs done)
  unfolding embed_batches
  embed_batches-Preserves [] done = Preserves-pure done
  embed_batches-Preserves (b ∷ bs) done =
      Preserves-bind _ _ (embed_batch-Preserves b) (λ vs. embed_batches-Preserves bs (done ++ vs))

  pub embed_texts-Preserves :
      (texts : List Text) → Preserves P (embed_texts post batch_size expected_dim texts)
  unfolding embed_texts
  embed_texts-Preserves texts = Preserves-if (is_empty texts) _ _ (Preserves-pure []) (
      Preserves-if (batch_size == 0) _ _ (Preserves-lift (raised zero_step))
        (embed_batches-Preserves (batches batch_size texts) []))
