-- ===== src/Tests/Windows.antt =====
-- packages/extraction/tier_b/window_selector.py on short texts, where a token is a character.
use Prim.Native.Nat.{max}
use taboot.Prelude.{ℕ, ◌≤◌, Text, codes, ◌≡◌, refl, List, [], ◌∷◌, All, length, arith}
use taboot.Extraction.Sentences.{join}
use taboot.Extraction.Windows.{select_windows, windows_of}
use taboot.Extraction.Windows.Bounds.{select_windows_bounded}
use taboot.Extraction.Windows.Positions.{Contiguous, select_windows-Contiguous}
use taboot.Extraction.Windows.Shifted.{select_windows-space}
use taboot.Extraction.Windows.Content.{contents, windows_of_content}
use taboot.Extraction.Patterns.{Matcher, Span, find_matches}
use taboot.Extraction.Patterns.Covered.{IsSorted, IsWithin, find_matches-CoversAll}

abbrev sample : Text
sample = codes "Up. A long one here. On! Off?"

abbrev sentences : List Text
sentences = codes "Up." ∷ codes "On!" ∷ codes "Off?" ∷ []

abbrev count : Text → ℕ
count t = length t

select_windows_bounded_example : All (λ w. w.token_count ≤ max 1 8) (select_windows count 8 sample)
select_windows_bounded_example = select_windows_bounded count 8 sample

select_windows-Contiguous_example : Contiguous 0 (select_windows count 8 sample)
select_windows-Contiguous_example = select_windows-Contiguous count 8 sample

select_windows-space_example : select_windows count 8 (32 ∷ sample) ≡ select_windows count 8 sample
select_windows-space_example = select_windows-space count 8 32 sample refl

windows_of_content_example : join (contents (windows_of count 8 sentences)) ≡ join sentences
windows_of_content_example =
    windows_of_content count 8 sentences (omega arith, (omega arith, (omega arith, tt)))

abbrev lengthy : Text
lengthy = codes "A long one here."

-- A pattern matcher for one alternative at the front of a text.
abbrev at_front : List Text → Text → List Span
at_front pattern t = (0, 2) ∷ (1, 2) ∷ []

abbrev one_pattern : Matcher
one_pattern = record {
  patterns = (codes "service", codes "ab" ∷ []) ∷ [];
  compiled_patterns = (codes "service", codes "ab" ∷ []) ∷ [];
}

find_matches-CoversAll_example :
    let found = find_matches at_front one_pattern (codes "abc") in
    IsSorted found
    × All
        (λ p. All (λ s. IsWithin s found) (at_front p.1 (codes "abc")))
        one_pattern.compiled_patterns
    × All (λ m. m.entity_type ≡ codes "service") found
find_matches-CoversAll_example =
    find_matches-CoversAll at_front one_pattern (codes "abc") (λ m. m.entity_type ≡ codes "service")
      refl ((refl, (refl, tt)), tt)
