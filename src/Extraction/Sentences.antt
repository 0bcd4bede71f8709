-- ===== src/Extraction/Sentences.antt =====
-- The `str` methods and the regular expression that packages/extraction/tier_b/window_selector.py
-- uses, on lists of code points.
use taboot.Prelude.{
  ℕ, Text, Bool, true, false, not, ◌&&◌, ◌||◌, List, [], ◌∷◌, ◌++◌, map, filter, is_empty, leb,
  ◌==◌, if◌then◌else◌,
}
use mathlib.Core.List.{reverse}

-- `str.isspace` of one character, which is also what `\s` matches in a `str` pattern.
abbrev pub is_space : ℕ → Bool
is_space c =
    (leb 9 c && leb c 13)
    || (leb 28 c && leb c 32)
    || c == 0x85
    || c == 0xa0
    || c == 0x1680
    || (leb 0x2000 c && leb c 0x200a)
    || c == 0x2028
    || c == 0x2029
    || c == 0x202f
    || c == 0x205f
    || c == 0x3000

abbrev pub lstrip : Text → Text
lstrip [] = []
lstrip (c ∷ t) = let rest = lstrip t in if is_space c then rest else c ∷ t

-- `text.strip()`
abbrev pub strip : Text → Text
strip t = reverse (lstrip (reverse (lstrip t)))

-- `" ".join(xs)`
abbrev pub join : List Text → Text
join [] = []
join (x ∷ []) = x
join (x ∷ y ∷ xs) = x ++ 32 ∷ join (y ∷ xs)

-- The last word so far and those before it.
pub record Words : Type 0 where
  pub word : Text
  pub complete : List Text

abbrev close_word : Words → Words
close_word s =
    if is_empty s.word then s else record { word = []; complete = s.complete ++ s.word ∷ [] }

abbrev word_char : Words → ℕ → Words
word_char s c = if is_space c then close_word s else record s { word = s.word ++ c ∷ [] }

abbrev scan_words : Words → Text → Words
scan_words s [] = s
scan_words s (c ∷ t) = scan_words (word_char s c) t

-- `sentence.split()`: the runs of characters that are no whitespace.
unfoldable pub split : Text → List Text
split t = (close_word (scan_words (record { word = []; complete = [] }) t)).complete

-- Where the search for `(?<=[.!?])\s+` stands: inside a match, behind a mark that ends a
-- sentence, and with which pieces.
pub record Scan : Type 0 where
  pub skipping : Bool
  pub ended : Bool
  pub piece : Text
  pub complete : List Text

abbrev pub is_end : ℕ → Bool
is_end c = c == b'.' || c == b'!' || c == b'?'

abbrev pub scan_char : Scan → ℕ → Scan
scan_char s c =
    if s.skipping && is_space c
    then s
    else if s.ended && is_space c
    then record {
      skipping = true;
      ended = false;
      piece = [];
      complete = s.complete ++ s.piece ∷ [];
    }
    else record s { skipping = false; ended = is_end c; piece = s.piece ++ c ∷ [] }

abbrev pub scan : Scan → Text → Scan
scan s [] = s
scan s (c ∷ t) = scan (scan_char s c) t

-- `re.split(r"(?<=[.!?])\s+", text)`
unfoldable pub re_split : Text → List Text
re_split t =
    let s = scan (record { skipping = false; ended = false; piece = []; complete = [] }) t in
    s.complete ++ s.piece ∷ []

-- `WindowSelector._split_into_sentences`
unfoldable pub split_into_sentences : Text → List Text
unfolding re_split
split_into_sentences t = filter (λ s. not (is_empty s)) (map strip (re_split t))
