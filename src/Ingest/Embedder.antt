-- ===== src/Ingest/Embedder.antt =====
-- packages/ingest/embedder.py: `Embedder.embed_texts`. The call of the TEI service is a parameter:
-- it may raise, and what it answers is JSON that need be no list of vectors.
pub mod Dimensions
pub mod Kept
use taboot.Prelude.{ℕ, Text, codes, List, [], ◌∷◌, ◌++◌, length, is_empty, ◌==◌, if◌then◌else◌}
use taboot.Python.{Kind, Exn, Outcome, ok, raised, Exec, pure, raise, lift, try_except, ◌>>=◌}
use taboot.Python.Batches.{batches}

-- An element of the answer, and the answer: a list, or anything else.
pub data Item (F : Type 0) : Type 0 where
  vector : List F → Item F
  no_vector : Item F

pub data Answer (F : Type 0) : Type 0 where
  items : List (Item F) → Answer F
  no_list : Answer F

-- `EmbedderError`, whatever it was raised from
abbrev pub embedder_error : Exn
embedder_error = record {
  kind = Kind.embedder_error;
  message = codes "Unexpected error during embedding";
}

abbrev pub zero_step : Exn
zero_step = record { kind = Kind.value_error; message = codes "range() arg 3 must not be zero" }

module _ {S F : Type 0} (post : List Text → Exec S (Answer F)) (batch_size expected_dim : ℕ) where
  abbrev add_checked : List F → Outcome (List (List F)) → Outcome (List (List F))
  add_checked v (ok vs) = ok (v ∷ vs)
  add_checked v (raised e) = raised e

  -- The loop that validates the dimensions.
  pub check_items : List (Item F) → Outcome (List (List F))
  check_items [] = ok []
  check_items (Item.no_vector ∷ rest) = raised embedder_error
  check_items (Item.vector v ∷ rest) =
      let checked = check_items rest in
      if length v == expected_dim then add_checked v checked else raised embedder_error

  pub check_answer : ℕ → Answer F → Outcome (List (List F))
  check_answer n Answer.no_list = raised embedder_error
  check_answer n (Answer.items xs) =
      if length xs == n then check_items xs else raised embedder_error

  -- Every exception ends as an `EmbedderError`.
  pub embed_batch : List Text → Exec S (List (List F))
  embed_batch batch =
      try_except (post batch >>= λ answer. lift (check_answer (length batch) answer))
        (λ e. raise embedder_error)

  pub embed_batches : List (List Text) → List (List F) → Exec S (List (List F))
  embed_batches [] all_embeddings = pure all_embeddings
  embed_batches (batch ∷ rest) all_embeddings = do
    batch_embeddings ← embed_batch batch
    embed_batches rest (all_embeddings ++ batch_embeddings)

  pub embed_texts : List Text → Exec S (List (List F))
  embed_texts texts =
      if is_empty texts
      then pure []
      else if batch_size == 0
      then raise zero_step
      else embed_batches (batches batch_size texts) []
