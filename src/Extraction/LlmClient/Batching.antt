-- ===== src/Extraction/LlmClient/Batching.antt =====
-- The batches of `batch_extract`.
use taboot.Prelude.{ℕ, ◌<◌, Text, ◌≡◌, ap, ◌∙◌, false, List, ◌==◌, arith}
use taboot.Python.{◌>>=◌}
use taboot.Python.Loops.{for_each}
use taboot.Python.Batches.{batches, flatten-batches, for_each-flatten}
use taboot.World.{World, Env}
use taboot.Extraction.LlmClient.{Backend, extract_from_window, batch_extract}

-- Whatever the batch size, the windows are extracted one by one, in order; the size changes
-- neither the results nor what happens to the services.
pub batch_extract-for_each :
    (env : Env) (b : Backend) (windows : List Text) (w : World)
    → 0 < b.batch_size
    → batch_extract env b windows w ≡ for_each (extract_from_window env b) windows w
unfolding batch_extract ◌>>=◌
batch_extract-for_each env b windows w h = rw (nonzero b.batch_size h) (
    for_each-flatten (extract_from_window env b) (batches b.batch_size windows) w
    ∙ ap (λ xs. for_each (extract_from_window env b) xs w) (flatten-batches b.batch_size windows h))
  where
    nonzero : (n : ℕ) → 0 < n → (n == 0) ≡ false
    nonzero n h = ground arith
