-- ===== src/Extraction/Windows/Invariant.antt =====
-- An induction rule for `select_windows`: what every appended window keeps, the result has.
use Prim.Native.Nat.{max}
use taboot.Prelude.{
  ℕ, ◌+◌, ◌≤◌, Text, ◌≡◌, refl, true, false, not, ◌&&◌, inl, inr, List, [], ◌∷◌, ◌++◌, length, ltb,
  is_empty, Bool-cases, arith,
}
use taboot.Extraction.{ExtractionWindow}
use taboot.Extraction.Sentences.{join, split, split_into_sentences}
use taboot.Extraction.Windows.{
  Selection, WordSelection, start_selection, emit, add_word, add_words, final_words, split_by_words,
  append_sentence, add_sentences, final_window, windows_of, select_windows,
}

-- The window that `emit` appends, which starts at `p`.
abbrev pub window : ℕ → List Text → ℕ → ExtractionWindow
window p parts tokens = record {
  content = join parts;
  token_count = tokens;
  start = p;
  stop = p + length (join parts);
}

pub is_empty-append {ℓ} : {A : Type ℓ} (xs : List A) (x : A) → is_empty (xs ++ x ∷ []) ≡ false
is_empty-append [] x = refl
is_empty-append (y ∷ xs) x = refl

module _ (max_tokens : ℕ) (P : List ExtractionWindow → ℕ → Type 0)
    (keep : (ws : List ExtractionWindow) (p : ℕ) (parts : List Text) (tokens : ℕ)
      → tokens ≤ max 1 max_tokens
      → P ws p
      → P (ws ++ window p parts tokens ∷ []) (p + (length (join parts) + 1))) where
  abbrev Holds : Selection → Type 0
  Holds s = P s.windows s.current_start

  -- The pending window is in bounds, and counts nothing while it is empty.
  record Inv (s : Selection) : Type 0 where
    holds : P s.windows s.current_start
    fits : s.current_tokens ≤ max 1 max_tokens
    fresh : is_empty s.current_window ≡ true → s.current_tokens ≡ 0

  record WordInv (w : WordSelection) : Type 0 where
    around : Inv w.selection
    fits : w.word_tokens ≤ max 1 max_tokens
    fresh : is_empty w.word_window ≡ true → w.word_tokens ≡ 0

  Inv-emit :
      (parts : List Text) (tokens : ℕ) (s : Selection)
      → tokens ≤ max 1 max_tokens
      → Inv s
      → Inv (emit parts tokens s)
  Inv-emit parts tokens s h i = record {
    holds = keep s.windows s.current_start parts tokens h i.holds;
    fits = i.fits;
    fresh = i.fresh;
  }

  WordInv-add_word :
      (word : Text) (w : WordSelection) → WordInv w → WordInv (add_word max_tokens word w)
  WordInv-add_word word w i =
      elim (Bool-cases (ltb max_tokens (w.word_tokens + 1) && not (is_empty w.word_window))) [
        | inl full ↦ rw full (record {
          around = Inv-emit w.word_window w.word_tokens w.selection i.fits i.around;
          fits = omega arith;
          fresh = λ h. ground arith;
        })
        | inr room ↦ rw room (record {
          around = i.around;
          fits = ground (arith, i.fresh);
          fresh = λ h. ground (arith, is_empty-append w.word_window word);
        })
      ]

  WordInv-add_words :
      (words : List Text) (w : WordSelection) → WordInv w → WordInv (add_words max_tokens words w)
  unfolding add_words
  WordInv-add_words [] w i = i
  WordInv-add_words (word ∷ words) w i =
      WordInv-add_words words (add_word max_tokens word w) (WordInv-add_word word w i)

  Inv-final_words : (w : WordSelection) → WordInv w → Inv (final_words max_tokens w)
  Inv-final_words w i = elim (Bool-cases (is_empty w.word_window)) [
    | inl none_left ↦ rw none_left i.around
    | inr some_left ↦
        rw some_left (Inv-emit w.word_window w.word_tokens w.selection i.fits i.around)
  ]

  Inv-split_by_words :
      (sentence : Text) (s : Selection) → Inv s → Inv (split_by_words max_tokens sentence s)
  unfolding split_by_words
  Inv-split_by_words sentence s i = Inv-final_words _ (
      WordInv-add_words (split sentence) _
        (record { around = i; fits = omega arith; fresh = λ h. refl }))

  Inv-append_sentence :
      (sentence : Text) (tokens : ℕ) (s : Selection)
      → tokens ≤ max_tokens
      → Inv s
      → Inv (append_sentence max_tokens sentence tokens s)
  Inv-append_sentence sentence tokens s h i =
      elim (Bool-cases
        (ltb max_tokens (s.current_tokens + tokens) && not (is_empty s.current_window))) [
          | inl full ↦ rw full (record {
            holds = keep s.windows s.current_start s.current_window s.current_tokens i.fits i.holds;
            fits = omega arith;
            fresh = λ e. absurd (nonempty [] e);
          })
          | inr room ↦ rw room (record {
            holds = i.holds;
            fits = ground (arith, i.fresh);
            fresh = λ e. absurd (nonempty s.current_window e);
          })
        ]
    where
      nonempty : (xs : List Text) → is_empty (xs ++ sentence ∷ []) ≡ true → ⊥
      nonempty xs e = cc (is_empty-append xs sentence)

  module _ (count_tokens : Text → ℕ) where
    Inv-add_sentences :
        (sentences : List Text) (s : Selection)
        → Inv s
        → Inv (add_sentences count_tokens max_tokens sentences s)
    unfolding add_sentences
    Inv-add_sentences [] s i = i
    Inv-add_sentences (sentence ∷ rest) s i =
        Inv-add_sentences rest _ (elim (Bool-cases (ltb max_tokens (count_tokens sentence))) [
          | inl long ↦ rw long (Inv-split_by_words sentence s i)
          | inr short ↦
              rw short (Inv-append_sentence sentence (count_tokens sentence) s (ground arith) i)
        ])

    Inv-final_window :
        (s : Selection) → Inv s → (p : ℕ) × P (final_window count_tokens max_tokens s).windows p
    Inv-final_window s i = elim (Bool-cases (is_empty s.current_window)) [
      | inl done ↦ rw done (s.current_start, i.holds)
      | inr rest ↦
          rw rest
            (_, keep s.windows s.current_start s.current_window s.current_tokens i.fits i.holds)
    ]

    -- `p` is the position that the next window would have.
    pub windows_of_induction :
        (sentences : List Text)
        → P [] 0
        → (p : ℕ) × P (windows_of count_tokens max_tokens sentences) p
    unfolding windows_of
    windows_of_induction sentences start = Inv-final_window _ (
        Inv-add_sentences sentences start_selection
          (record { holds = start; fits = omega arith; fresh = λ h. refl }))

    pub select_windows_induction :
        (text : Text) → P [] 0 → (p : ℕ) × P (select_windows count_tokens max_tokens text) p
    unfolding select_windows
    select_windows_induction [] start = (0, start)
    select_windows_induction (c ∷ t) start =
        windows_of_induction (split_into_sentences (c ∷ t)) start
