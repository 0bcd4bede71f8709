-- ===== src/Extraction/Windows/Order.antt =====
-- A long sentence between two short ones.
use taboot.Prelude.{
  ℕ, ◌+◌, ◌≤◌, ◌<◌, Text, ◌≡◌, refl, true, false, not, ◌&&◌, inl, inr, List, [], ◌∷◌, ◌++◌,
  is_empty, ltb, Bool-cases, arith, ap, ◌∙◌,
}
use taboot.Extraction.Sentences.{split}
use taboot.Extraction.Windows.{
  Selection, WordSelection, start_selection, add_word, add_words, final_words, split_by_words,
  add_sentence, add_sentences, final_window, windows_of,
}
use taboot.Extraction.Windows.Invariant.{window}

module _ (max_tokens : ℕ) (pending : List Text) (tokens : ℕ) where
  -- The same selection with other sentences pending.
  abbrev pend : Selection → Selection
  pend s = record s { current_window = pending; current_tokens = tokens }

  abbrev pend_words : WordSelection → WordSelection
  pend_words w = record w { selection = pend w.selection }

  add_word-pend :
      (word : Text) (w : WordSelection)
      → add_word max_tokens word (pend_words w) ≡ pend_words (add_word max_tokens word w)
  add_word-pend word w =
      elim (Bool-cases (ltb max_tokens (w.word_tokens + 1) && not (is_empty w.word_window))) [
        | inl full ↦ rw full
        | inr room ↦ rw room
      ]

  add_words-pend :
      (words : List Text) (w : WordSelection)
      → add_words max_tokens words (pend_words w) ≡ pend_words (add_words max_tokens words w)
  unfolding add_words
  add_words-pend [] w = refl
  add_words-pend (word ∷ words) w =
      ap (add_words max_tokens words) (add_word-pend word w)
      ∙ add_words-pend words (add_word max_tokens word w)

  final_words-pend :
      (w : WordSelection) → final_words max_tokens (pend_words w) ≡ pend (final_words max_tokens w)
  final_words-pend w = elim (Bool-cases (is_empty w.word_window)) [
    | inl done ↦ rw done
    | inr rest ↦ rw rest
  ]

  abbrev begin : Selection → WordSelection
  begin s = record { selection = s; word_window = []; word_tokens = 0 }

  -- Cutting a sentence into words leaves the pending sentences pending.
  pub split_by_words-pend :
      (sentence : Text) (s : Selection)
      → split_by_words max_tokens sentence (pend s) ≡ pend (split_by_words max_tokens sentence s)
  unfolding split_by_words
  split_by_words-pend sentence s =
      ap (final_words max_tokens) (add_words-pend (split sentence) (begin s))
      ∙ final_words-pend (add_words max_tokens (split sentence) (begin s))

module _ (count_tokens : Text → ℕ) (max_tokens : ℕ) where
  add_sentence_long :
      (sentence : Text) (s : Selection)
      → max_tokens < count_tokens sentence
      → add_sentence count_tokens max_tokens sentence s ≡ split_by_words max_tokens sentence s
  unfolding add_sentence
  add_sentence_long sentence s h = rw (long (count_tokens sentence) h)
    where
      long : (n : ℕ) → max_tokens < n → ltb max_tokens n ≡ true
      long n h = ground arith

  -- A short sentence joins the pending ones if they fit together.
  add_sentence_room :
      (sentence : Text) (s : Selection)
      → s.current_tokens + count_tokens sentence ≤ max_tokens
      → add_sentence count_tokens max_tokens sentence s ≡ record s {
        current_window = s.current_window ++ sentence ∷ [];
        current_tokens = s.current_tokens + count_tokens sentence;
      }
  unfolding add_sentence
  add_sentence_room sentence s h =
      rw (short (count_tokens sentence) h, room (count_tokens sentence) h)
    where
      short : (n : ℕ) → s.current_tokens + n ≤ max_tokens → ltb max_tokens n ≡ false
      short n h = ground arith

      room :
          (n : ℕ)
          → s.current_tokens + n ≤ max_tokens
          → ltb max_tokens (s.current_tokens + n) ≡ false
      room n h = ground arith

  -- Where a sentence over the limit stands between two that fit into one window together, its
  -- windows come first, and the two sentences make one window behind them.
  pub long_sentence_overtakes :
      (a b c : Text)
      → count_tokens a + count_tokens c ≤ max_tokens
      → max_tokens < count_tokens b
      → let s = split_by_words max_tokens b start_selection in
        windows_of count_tokens max_tokens (a ∷ b ∷ c ∷ [])
        ≡ s.windows ++ window s.current_start (a ∷ c ∷ []) (count_tokens a + count_tokens c) ∷ []
  unfolding windows_of add_sentences
  long_sentence_overtakes a b c fits long =
      let tokens = 0 + count_tokens a in
      let s = split_by_words max_tokens b start_selection in
      let first : add_sentence count_tokens max_tokens a start_selection
          ≡ pend max_tokens (a ∷ []) tokens start_selection =
        add_sentence_room a start_selection (omega arith) in
      let second : add_sentence count_tokens max_tokens b
            (pend max_tokens (a ∷ []) tokens start_selection)
          ≡ pend max_tokens (a ∷ []) tokens s =
        add_sentence_long b _ long
        ∙ split_by_words-pend max_tokens (a ∷ []) tokens b start_selection in
      let third = add_sentence_room c (pend max_tokens (a ∷ []) tokens s) (omega arith) in
      let counted : tokens + count_tokens c ≡ count_tokens a + count_tokens c = omega arith in
      ap (λ t. (final_window count_tokens max_tokens t).windows)
        (ap (λ t. add c (add b t)) first ∙ ap (add c) second ∙ third)
      ∙ ap (λ n. s.windows ++ window s.current_start (a ∷ c ∷ []) n ∷ []) counted
    where
      add : Text → Selection → Selection
      add = add_sentence count_tokens max_tokens
