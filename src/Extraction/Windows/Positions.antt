-- ===== src/Extraction/Windows/Positions.antt =====
-- The positions of the windows.
use taboot.Prelude.{ℕ, ◌+◌, Text, ◌≡◌, refl, sym, List, [], ◌∷◌, ◌++◌, length, arith}
use taboot.Extraction.{ExtractionWindow}
use taboot.Extraction.Sentences.{join}
use taboot.Extraction.Windows.{windows_of, select_windows}
use taboot.Extraction.Windows.Invariant.{window, windows_of_induction, select_windows_induction}

-- From position `p` on each window spans its content, and one character lies between two.
abbrev pub Contiguous : ℕ → List ExtractionWindow → Type 0
Contiguous p [] = Unit
Contiguous p (w ∷ ws) = (w.start ≡ p) × (w.stop ≡ p + length w.content) × Contiguous (w.stop + 1) ws

-- The position after windows that begin at `p`.
abbrev pub next_start : ℕ → List ExtractionWindow → ℕ
next_start p [] = p
next_start p (w ∷ ws) = next_start (w.stop + 1) ws

Contiguous-append :
    (p : ℕ) (ws : List ExtractionWindow) (parts : List Text) (tokens q : ℕ)
    → Contiguous p ws
    → next_start p ws ≡ q
    → Contiguous p (ws ++ window q parts tokens ∷ [])
      × (next_start p (ws ++ window q parts tokens ∷ []) ≡ q + (length (join parts) + 1))
Contiguous-append p [] parts tokens q h e = ((sym e, omega arith, tt), omega arith)
Contiguous-append p (w ∷ ws) parts tokens q h e =
    let rest = Contiguous-append (w.stop + 1) ws parts tokens q h.2 e in
    ((h.0, h.1, rest.0), rest.1)

-- The recorded positions follow each other from 0: the first window starts at 0, each spans as many
-- positions as its content has characters, and the next starts one position after its end.
pub select_windows-Contiguous :
    (count_tokens : Text → ℕ) (max_tokens : ℕ) (text : Text)
    → Contiguous 0 (select_windows count_tokens max_tokens text)
select_windows-Contiguous count_tokens max_tokens text =
    (select_windows_induction max_tokens (λ ws p. Contiguous 0 ws × (next_start 0 ws ≡ p))
      (λ ws p parts tokens _ h. Contiguous-append 0 ws parts tokens p h.0 h.1) count_tokens text
      (tt, refl)).1.0

pub windows_of-Contiguous :
    (count_tokens : Text → ℕ) (max_tokens : ℕ) (sentences : List Text)
    → Contiguous 0 (windows_of count_tokens max_tokens sentences)
windows_of-Contiguous count_tokens max_tokens sentences =
    (windows_of_induction max_tokens (λ ws p. Contiguous 0 ws × (next_start 0 ws ≡ p))
      (λ ws p parts tokens _ h. Contiguous-append 0 ws parts tokens p h.0 h.1) count_tokens
      sentences (tt, refl)).1.0
