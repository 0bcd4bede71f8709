-- ===== src/Extraction/Windows/Bounds.antt =====
-- The token counts of the windows against `max_tokens`.
use Prim.Native.Nat.{max}
use taboot.Prelude.{ℕ, ◌≤◌, Text, All, All-append}
use taboot.Extraction.{ExtractionWindow}
use taboot.Extraction.Windows.{select_windows}
use taboot.Extraction.Windows.Invariant.{select_windows_induction}

-- The `token_count` that a window records, in which each word of a sentence over the limit counts as
-- one, is at most the larger of `max_tokens` and one.
pub select_windows_bounded :
    (count_tokens : Text → ℕ) (max_tokens : ℕ) (text : Text)
    → All (λ w. w.token_count ≤ max 1 max_tokens) (select_windows count_tokens max_tokens text)
select_windows_bounded count_tokens max_tokens text =
    (select_windows_induction max_tokens
      (λ ws _. All (λ (w : ExtractionWindow). w.token_count ≤ max 1 max_tokens) ws)
      (λ ws p parts tokens h fit. All-append _ ws _ fit (h, tt)) count_tokens text tt).1
