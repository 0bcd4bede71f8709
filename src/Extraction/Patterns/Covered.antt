-- ===== src/Extraction/Patterns/Covered.antt =====
-- Which spans the matches cover, and which patterns are searched for.
use taboot.Prelude.{
  ◌≤◌, ◌-◌, ◌≡◌, refl, Text, Bool, true, false, some, ◌⊎◌, inl, inr, List, [], ◌∷◌, ◌++◌, take,
  drop, is_empty, All, All-append, All-weaken, Bool-cases, arith, text_eq, text_eq_refl,
}
use taboot.DocumentStore.{insert_by, order_by}
use taboot.DocumentStore.Ordering.{IsOrdered, order_by-IsOrdered, All-order_by}
use taboot.Extraction.{Match}
use taboot.Extraction.Patterns.{
  Matcher, Span, set_key, get_key, or_empty, longest_first, add_patterns, is_covered, match_at,
  add_match, add_matches, earlier_first, scan_patterns, find_matches,
}

is_covered-append :
    (s : Span) (ms ns : List Match) → is_covered s ms ≡ true → is_covered s (ms ++ ns) ≡ true
unfolding is_covered
is_covered-append s [] ns h = cc
is_covered-append s (m ∷ ms) ns h = ground (arith, is_covered-append s ms ns)

is_covered-append_self :
    (entity_type t : Text) (s : Span) (ms : List Match)
    → is_covered s (ms ++ match_at entity_type t s ∷ []) ≡ true
unfolding is_covered
is_covered-append_self entity_type t s [] = ground arith
is_covered-append_self entity_type t s (m ∷ ms) =
    ground (arith, is_covered-append_self entity_type t s ms)

add_match-covers :
    (entity_type t : Text) (s : Span) (ms : List Match)
    → is_covered s (add_match entity_type t s ms) ≡ true
add_match-covers entity_type t s ms = elim (Bool-cases (is_covered s ms)) [
  | inl there ↦ rw there there
  | inr new ↦ rw new (is_covered-append_self entity_type t s ms)
]

add_match-keeps :
    (entity_type t : Text) (s r : Span) (ms : List Match)
    → is_covered r ms ≡ true
    → is_covered r (add_match entity_type t s ms) ≡ true
add_match-keeps entity_type t s r ms h = elim (Bool-cases (is_covered s ms)) [
  | inl there ↦ rw there h
  | inr new ↦ rw new (is_covered-append r ms (match_at entity_type t s ∷ []) h)
]

add_matches-keeps :
    (entity_type t : Text) (ss : List Span) (r : Span) (ms : List Match)
    → is_covered r ms ≡ true
    → is_covered r (add_matches entity_type t ss ms) ≡ true
unfolding add_matches
add_matches-keeps entity_type t [] r ms h = h
add_matches-keeps entity_type t (s ∷ ss) r ms h =
    add_matches-keeps entity_type t ss r (add_match entity_type t s ms)
      (add_match-keeps entity_type t s r ms h)

add_matches-covers :
    (entity_type t : Text) (ss : List Span) (ms : List Match)
    → All (λ s. is_covered s (add_matches entity_type t ss ms) ≡ true) ss
unfolding add_matches
add_matches-covers entity_type t [] ms = tt
add_matches-covers entity_type t (s ∷ ss) ms = (
  add_matches-keeps entity_type t ss s (add_match entity_type t s ms)
      (add_match-covers entity_type t s ms),
  add_matches-covers entity_type t ss (add_match entity_type t s ms),
)

is_covered-insert :
    (before : Match → Match → Bool) (s : Span) (m : Match) (ms : List Match)
    → is_covered s (insert_by before m ms) ≡ is_covered s (m ∷ ms)
unfolding is_covered insert_by
is_covered-insert before s m [] = refl
is_covered-insert before s m (n ∷ ms) = elim (Bool-cases (before m n)) [
  | inl first ↦ rw first refl
  | inr later ↦ rw later (ground (arith, is_covered-insert before s m ms))
]

is_covered-order_by :
    (before : Match → Match → Bool) (s : Span) (ms : List Match)
    → is_covered s (order_by before ms) ≡ is_covered s ms
unfolding is_covered order_by
is_covered-order_by before s [] = refl
is_covered-order_by before s (m ∷ ms) =
    rw (is_covered-insert before s m (order_by before ms))
      (ground (arith, is_covered-order_by before s ms))

module _ (finditer : List Text → Text → List Span) where
  scan_patterns-keeps :
      (ps : List (Text × List Text)) (t : Text) (r : Span) (ms : List Match)
      → is_covered r ms ≡ true
      → is_covered r (scan_patterns finditer ps t ms) ≡ true
  unfolding scan_patterns
  scan_patterns-keeps [] t r ms h = h
  scan_patterns-keeps ((entity_type, p) ∷ ps) t r ms h =
      scan_patterns-keeps ps t r (add_matches entity_type t (finditer p t) ms)
        (add_matches-keeps entity_type t (finditer p t) r ms h)

  -- Every span of a pattern is covered.
  abbrev pub CoversAll : List Match → Text → List (Text × List Text) → Type 0
  CoversAll ms t ps = All (λ p. All (λ s. is_covered s ms ≡ true) (finditer p.1 t)) ps

  All-keeps :
      (ps : List (Text × List Text)) (t : Text) (ss : List Span) (ms : List Match)
      → All (λ s. is_covered s ms ≡ true) ss
      → All (λ s. is_covered s (scan_patterns finditer ps t ms) ≡ true) ss
  All-keeps ps t [] ms h = tt
  All-keeps ps t (s ∷ ss) ms (here, rest) =
      (scan_patterns-keeps ps t s ms here, All-keeps ps t ss ms rest)

  scan_patterns-covers :
      (ps : List (Text × List Text)) (t : Text) (ms : List Match)
      → CoversAll (scan_patterns finditer ps t ms) t ps
  unfolding scan_patterns
  scan_patterns-covers [] t ms = tt
  scan_patterns-covers ((entity_type, p) ∷ ps) t ms = (
    All-keeps ps t (finditer p t) (add_matches entity_type t (finditer p t) ms)
        (add_matches-covers entity_type t (finditer p t) ms),
    scan_patterns-covers ps t (add_matches entity_type t (finditer p t) ms),
  )

  sorted-covers :
      (ss : List Span) (ms : List Match)
      → All (λ s. is_covered s ms ≡ true) ss
      → All (λ s. is_covered s (order_by earlier_first ms) ≡ true) ss
  sorted-covers [] ms h = tt
  sorted-covers (s ∷ ss) ms (here, rest) =
      (rw (is_covered-order_by earlier_first s ms) here, sorted-covers ss ms rest)

  CoversAll-sorted :
      (ps : List (Text × List Text)) (t : Text) (ms : List Match)
      → CoversAll ms t ps
      → CoversAll (order_by earlier_first ms) t ps
  CoversAll-sorted [] t ms h = tt
  CoversAll-sorted (p ∷ ps) t ms (here, rest) =
      (sorted-covers (finditer p.1 t) ms here, CoversAll-sorted ps t ms rest)

-- The span lies within one of the matches.
abbrev pub IsWithin : Span → List Match → Type 0
IsWithin (start, stop) [] = ⊥
IsWithin (start, stop) (m ∷ ms) = ((m.start ≤ start) × (stop ≤ m.stop)) ⊎ IsWithin (start, stop) ms

-- No match starts before an earlier one.
abbrev pub IsSorted : List Match → Type 0
IsSorted [] = Unit
IsSorted (m ∷ ms) = All (λ n. m.start ≤ n.start) ms × IsSorted ms

is_covered-IsWithin : (s : Span) (ms : List Match) → is_covered s ms ≡ true → IsWithin s ms
unfolding is_covered
is_covered-IsWithin s [] h = absurd cc
is_covered-IsWithin s (m ∷ ms) h = elim (Bool-cases (is_covered s ms)) [
  | inl there ↦ inr (is_covered-IsWithin s ms there)
  | inr none_there ↦ inl (ground arith)
]

IsOrdered-IsSorted : (ms : List Match) → IsOrdered earlier_first ms → IsSorted ms
IsOrdered-IsSorted [] h = tt
IsOrdered-IsSorted (m ∷ ms) (first, rest) = (
  All-weaken (λ n. earlier_first m n ≡ true) (λ n. m.start ≤ n.start) ms (λ n h. ground arith)
      first,
  IsOrdered-IsSorted ms rest,
)

-- A predicate that holds of every match that may be added holds of all matches.
module _ (P : Match → Type 0) where
  All-add_matches :
      (entity_type t : Text) (ss : List Span) (ms : List Match)
      → All (λ s. P (match_at entity_type t s)) ss
      → All P ms
      → All P (add_matches entity_type t ss ms)
  unfolding add_matches
  All-add_matches entity_type t [] ms h k = k
  All-add_matches entity_type t (s ∷ ss) ms (here, rest) k =
      All-add_matches entity_type t ss (add_match entity_type t s ms) rest
        (elim (Bool-cases (is_covered s ms)) [
          | inl there ↦ rw there k
          | inr new ↦ rw new (All-append P ms (match_at entity_type t s ∷ []) k (here, tt))
        ])

  All-scan_patterns :
      (finditer : List Text → Text → List Span) (ps : List (Text × List Text)) (t : Text)
      (ms : List Match)
      → All (λ p. All (λ s. P (match_at p.0 t s)) (finditer p.1 t)) ps
      → All P ms
      → All P (scan_patterns finditer ps t ms)
  unfolding scan_patterns
  All-scan_patterns finditer [] t ms h k = k
  All-scan_patterns finditer ((entity_type, p) ∷ ps) t ms (here, rest) k =
      All-scan_patterns finditer ps t (add_matches entity_type t (finditer p t) ms) rest
        (All-add_matches entity_type t (finditer p t) ms here k)

-- On a text that is not empty, the matches come in the order of their starts; every span that `re`
-- reports for one of the compiled patterns starts and ends within one match; and a predicate that
-- holds of what the spans are as matches, with the entity type of their pattern and the text between
-- their ends, holds of every match.
pub find_matches-CoversAll :
    (finditer : List Text → Text → List Span) (m : Matcher) (t : Text) (P : Match → Type 0)
    → is_empty t ≡ false
    → All
        (λ p.
          All
            (λ s. P (record {
              entity_type = p.0;
              text = take (s.1 - s.0) (drop s.0 t);
              start = s.0;
              stop = s.1;
            }))
            (finditer p.1 t))
        m.compiled_patterns
    → IsSorted (find_matches finditer m t)
      × All
          (λ p. All (λ s. IsWithin s (find_matches finditer m t)) (finditer p.1 t))
          m.compiled_patterns
      × All P (find_matches finditer m t)
unfolding find_matches
find_matches-CoversAll finditer m t P there spans = rw there (
  IsOrdered-IsSorted _
      (order_by-IsOrdered earlier_first (λ d e h. ground arith) (λ d e f h k. ground arith) _),
  All-weaken _ _ m.compiled_patterns
      (λ p h. All-weaken _ _ (finditer p.1 t) (λ s k. is_covered-IsWithin s _ k) h)
      (CoversAll-sorted finditer m.compiled_patterns t _
        (scan_patterns-covers finditer m.compiled_patterns t [])),
  All-order_by earlier_first P _ (All-scan_patterns P finditer m.compiled_patterns t [] spans tt),
)

get_key-set_key :
    {A : Type 0} (key : Text) (a : A) (rows : List (Text × A))
    → get_key key (set_key key a rows) ≡ some a
unfolding get_key set_key
get_key-set_key key a [] = rw (text_eq_refl key) refl
get_key-set_key key a ((k, v) ∷ rest) = elim (Bool-cases (text_eq k key)) [
  | inl same ↦ rw same (rw same refl)
  | inr other ↦ rw other (rw other (get_key-set_key key a rest))
]

-- Of two lists that are added for one entity type, both are kept among its patterns, and only the second is
-- compiled, longest first: the first is no longer searched for.
pub add_patterns-forgets :
    (entity_type : Text) (first second : List Text) (m : Matcher)
    → let twice = add_patterns entity_type second (add_patterns entity_type first m) in
      (get_key entity_type twice.patterns
        ≡ some ((or_empty (get_key entity_type m.patterns) ++ first) ++ second))
      × (get_key entity_type twice.compiled_patterns ≡ some (longest_first second))
unfolding add_patterns
add_patterns-forgets entity_type first second m = (
  rw (get_key-set_key entity_type (or_empty (get_key entity_type m.patterns) ++ first) m.patterns)
      (get_key-set_key entity_type _ _),
  get_key-set_key entity_type (longest_first second) _,
)
