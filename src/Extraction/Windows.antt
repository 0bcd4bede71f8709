-- ===== src/Extraction/Windows.antt =====
-- packages/extraction/tier_b/window_selector.py: `WindowSelector.select_windows`. The loops keep
-- their variables in records; `count_tokens` is tiktoken's count of a text.
pub mod Invariant
pub mod Bounds
pub mod Positions
pub mod Content
pub mod Order
pub mod Shifted
use taboot.Prelude.{
  ℕ, ◌+◌, Text, Bool, not, ◌&&◌, List, [], ◌∷◌, ◌++◌, length, is_empty, ltb, if◌then◌else◌,
}
use taboot.Extraction.{ExtractionWindow}
use taboot.Extraction.Sentences.{join, split, split_into_sentences}

-- The variables of the loop over sentences.
pub record Selection : Type 0 where
  pub windows : List ExtractionWindow
  pub current_window : List Text
  pub current_tokens : ℕ
  pub current_start : ℕ

-- The variables of the loop over the words of a long sentence, and those around it.
pub record WordSelection : Type 0 where
  pub selection : Selection
  pub word_window : List Text
  pub word_tokens : ℕ

abbrev pub start_selection : Selection
start_selection = record {
  windows = [];
  current_window = [];
  current_tokens = 0;
  current_start = 0;
}

-- `window_text = " ".join(parts)`, `windows.append(...)`, `current_start += len(window_text) + 1`
abbrev pub emit : List Text → ℕ → Selection → Selection
emit parts tokens s =
    let text = join parts in
    record s {
      windows =
          s.windows
          ++ record {
            content = text;
            token_count = tokens;
            start = s.current_start;
            stop = s.current_start + length text;
          }
            ∷ [];
      current_start = s.current_start + (length text + 1);
    }

-- `int(1.3)`
abbrev pub word_token_count : ℕ
word_token_count = 1

module _ (max_tokens : ℕ) where
  -- The test of the word loop, with the window that it closes.
  abbrev pub close_words : WordSelection → WordSelection
  close_words w =
      if ltb max_tokens (w.word_tokens + word_token_count) && not (is_empty w.word_window)
      then record {
        selection = emit w.word_window w.word_tokens w.selection;
        word_window = [];
        word_tokens = 0;
      }
      else w

  abbrev pub add_word : Text → WordSelection → WordSelection
  add_word word w =
      let c = close_words w in
      record c {
        word_window = c.word_window ++ word ∷ [];
        word_tokens = c.word_tokens + word_token_count;
      }

  pub add_words : List Text → WordSelection → WordSelection
  add_words [] w = w
  add_words (word ∷ words) w = add_words words (add_word word w)

  abbrev pub final_words : WordSelection → Selection
  final_words w =
      if is_empty w.word_window then w.selection else emit w.word_window w.word_tokens w.selection

  -- A sentence over the limit is cut into windows of words; the pending window stays pending.
  pub split_by_words : Text → Selection → Selection
  unfolding add_words
  split_by_words sentence s =
      final_words
        (add_words (split sentence) (record { selection = s; word_window = []; word_tokens = 0 }))

  abbrev pub close_sentences : ℕ → Selection → Selection
  close_sentences tokens s =
      if ltb max_tokens (s.current_tokens + tokens) && not (is_empty s.current_window)
      then record (emit s.current_window s.current_tokens s) {
        current_window = [];
        current_tokens = 0;
      }
      else s

  abbrev pub append_sentence : Text → ℕ → Selection → Selection
  append_sentence sentence tokens s =
      let c = close_sentences tokens s in
      record c {
        current_window = c.current_window ++ sentence ∷ [];
        current_tokens = c.current_tokens + tokens;
      }

module _ (count_tokens : Text → ℕ) (max_tokens : ℕ) where
  pub add_sentence : Text → Selection → Selection
  add_sentence sentence s =
      let tokens = count_tokens sentence in
      if ltb max_tokens tokens
      then split_by_words max_tokens sentence s
      else append_sentence max_tokens sentence tokens s

  pub add_sentences : List Text → Selection → Selection
  unfolding add_sentence
  add_sentences [] s = s
  add_sentences (sentence ∷ rest) s = add_sentences rest (add_sentence sentence s)

  abbrev pub final_window : Selection → Selection
  final_window s = if is_empty s.current_window then s else emit s.current_window s.current_tokens s

  -- The windows of a list of sentences.
  unfoldable pub windows_of : List Text → List ExtractionWindow
  unfolding add_sentences split_by_words
  windows_of sentences = (final_window (add_sentences sentences start_selection)).windows

  unfoldable pub select_windows : Text → List ExtractionWindow
  unfolding windows_of
  select_windows text = if is_empty text then [] else windows_of (split_into_sentences text)
