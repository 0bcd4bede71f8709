-- ===== src/Extraction/Patterns.antt =====
-- packages/extraction/tier_a/patterns.py: `EntityPatternMatcher`. Python's `re` is a parameter: the spans that
-- `finditer` reports for a pattern, which is the list of its escaped alternatives in their order.
pub mod Covered
use taboot.Prelude.{
  ℕ, ◌-◌, Text, Bool, true, false, ◌&&◌, ◌||◌, Option, none, some, List, [], ◌∷◌, ◌++◌, length,
  take, drop, is_empty, leb, text_eq, if◌then◌else◌,
}
use taboot.DocumentStore.{order_by}
use taboot.Extraction.{Match}

pub record Matcher : Type 0 where
  pub patterns : List (Text × List Text)
  pub compiled_patterns : List (Text × List Text)

abbrev pub empty_matcher : Matcher
empty_matcher = record { patterns = []; compiled_patterns = [] }

-- `d[key] = value`
unfoldable pub set_key : {A : Type 0} → Text → A → List (Text × A) → List (Text × A)
set_key key value [] = (key, value) ∷ []
set_key key value ((k, v) ∷ rest) =
    if text_eq k key then (k, value) ∷ rest else (k, v) ∷ set_key key value rest

unfoldable pub get_key : {A : Type 0} → Text → List (Text × A) → Option A
get_key key [] = none
get_key key ((k, v) ∷ rest) = if text_eq k key then some v else get_key key rest

abbrev pub or_empty : Option (List Text) → List Text
or_empty none = []
or_empty (some ts) = ts

-- `sorted(patterns, key=len, reverse=True)`
abbrev pub longest_first : List Text → List Text
longest_first patterns = order_by (λ p q. leb (length q) (length p)) patterns

pub add_patterns : Text → List Text → Matcher → Matcher
add_patterns entity_type patterns m = record {
  patterns = set_key entity_type (or_empty (get_key entity_type m.patterns) ++ patterns) m.patterns;
  compiled_patterns = set_key entity_type (longest_first patterns) m.compiled_patterns;
}

abbrev pub Span : Type 0
Span = ℕ × ℕ

-- `any(start >= s and end <= e for s, e in seen_positions)`
unfoldable pub is_covered : Span → List Match → Bool
is_covered (start, stop) [] = false
is_covered (start, stop) (m ∷ rest) =
    (leb m.start start && leb stop m.stop) || is_covered (start, stop) rest

abbrev pub match_at : Text → Text → Span → Match
match_at entity_type t (start, stop) = record {
  entity_type = entity_type;
  text = take (stop - start) (drop start t);
  start = start;
  stop = stop;
}

-- The seen positions are those of the matches.
abbrev pub add_match : Text → Text → Span → List Match → List Match
add_match entity_type t span matches =
    if is_covered span matches then matches else matches ++ match_at entity_type t span ∷ []

unfoldable pub add_matches : Text → Text → List Span → List Match → List Match
add_matches entity_type t [] matches = matches
add_matches entity_type t (span ∷ rest) matches =
    add_matches entity_type t rest (add_match entity_type t span matches)

abbrev pub earlier_first : Match → Match → Bool
earlier_first m n = leb m.start n.start

module _ (finditer : List Text → Text → List Span) where
  unfoldable pub scan_patterns : List (Text × List Text) → Text → List Match → List Match
  scan_patterns [] t matches = matches
  scan_patterns ((entity_type, pattern) ∷ rest) t matches =
      scan_patterns rest t (add_matches entity_type t (finditer pattern t) matches)

  unfoldable pub find_matches : Matcher → Text → List Match
  find_matches m t =
      if is_empty t then [] else order_by earlier_first (scan_patterns m.compiled_patterns t [])
