-- ===== src/Extraction/Windows/Content.antt =====
-- What the windows hold, where no sentence is over the limit.
use taboot.Prelude.{
  ℕ, ◌+◌, ◌-◌, ◌≤◌, Text, ◌≡◌, refl, sym, ap, ◌∙◌, true, false, not, ◌&&◌, inl, inr, List, [], ◌∷◌,
  ◌++◌, map, length, take, drop, drop-drop, drop-append_self, take-append_self, is_empty, All, ltb,
  Bool-cases, append-nil, append_assoc, arith,
}
use mathlib.Core.List.{map-append, append_cancel_right}
use taboot.Extraction.{ExtractionWindow}
use taboot.Extraction.Sentences.{join}
use taboot.Extraction.Windows.{
  Selection, start_selection, emit, append_sentence, add_sentence, add_sentences, final_window,
  windows_of,
}
use taboot.Extraction.Windows.Positions.{Contiguous, windows_of-Contiguous}

abbrev pub contents : List ExtractionWindow → List Text
contents = map (λ w. w.content)

-- Each text with a space behind it.
abbrev spaced : List Text → Text
spaced [] = []
spaced (x ∷ xs) = x ++ 32 ∷ spaced xs

spaced-append : (xs ys : List Text) → spaced (xs ++ ys) ≡ spaced xs ++ spaced ys
spaced-append [] ys = refl
spaced-append (x ∷ xs) ys = simp (spaced-append xs ys, append_assoc)

spaced-ne_nil : (x : Text) (xs : List Text) → [] ≡ spaced (x ∷ xs) → ⊥
spaced-ne_nil [] xs h = cc
spaced-ne_nil (c ∷ x) xs h = cc

join-spaced : (xs : List Text) → is_empty xs ≡ false → join xs ++ 32 ∷ [] ≡ spaced xs
join-spaced [] h = cc
join-spaced (x ∷ []) h = refl
join-spaced (x ∷ y ∷ xs) h = simp append_assoc (ap (λ t. x ++ 32 ∷ t) (join-spaced (y ∷ xs) refl))

join_of_spaced : (xs ys : List Text) → spaced xs ≡ spaced ys → join xs ≡ join ys
join_of_spaced [] [] h = refl
join_of_spaced [] (y ∷ ys) h = absurd (spaced-ne_nil y ys h)
join_of_spaced (x ∷ xs) [] h = absurd (spaced-ne_nil x xs (sym h))
join_of_spaced (x ∷ xs) (y ∷ ys) h =
    append_cancel_right (join (x ∷ xs)) (join (y ∷ ys)) (32 ∷ [])
      (join-spaced (x ∷ xs) refl ∙ h ∙ sym (join-spaced (y ∷ ys) refl))

-- The text of the windows and of the pending sentences.
abbrev held : Selection → Text
held s = spaced (contents s.windows) ++ spaced s.current_window

held-emit :
    (s : Selection)
    → is_empty s.current_window ≡ false
    → spaced (contents (emit s.current_window s.current_tokens s).windows) ≡ held s
held-emit s h =
    simp (map-append, spaced-append)
      (ap (λ t. spaced (contents s.windows) ++ t) (join-spaced s.current_window h))

module _ (text : Text) (p : ℕ) (w : ExtractionWindow) (rest : Text)
    (h : drop p text ≡ w.content ++ rest) where
  cut :
      w.start ≡ p
      → w.stop ≡ p + length w.content
      → take (w.stop - w.start) (drop w.start text) ≡ w.content
  cut begins ends =
      let span : w.stop - w.start ≡ length w.content = omega arith in
      rw (span, begins, h) (take-append_self w.content rest)

beyond :
    (text : Text) (p : ℕ) (w : ExtractionWindow) (rest : Text)
    → drop p text ≡ w.content ++ 32 ∷ rest
    → w.stop ≡ p + length w.content
    → drop (w.stop + 1) text ≡ rest
beyond text p w rest h ends =
    drop-drop w.stop 1 (w.stop + 1) text refl
    ∙ ap (drop 1) (
        drop-drop p (length w.content) w.stop text ends
        ∙ ap (drop (length w.content)) h
        ∙ drop-append_self w.content (32 ∷ rest))

module _ (count_tokens : Text → ℕ) (max_tokens : ℕ) where
  -- No sentence has to be cut.
  abbrev pub Short : List Text → Type 0
  Short = All (λ sentence. count_tokens sentence ≤ max_tokens)

  held-append_sentence :
      (sentence : Text) (tokens : ℕ) (s : Selection)
      → held (append_sentence max_tokens sentence tokens s) ≡ held s ++ spaced (sentence ∷ [])
  held-append_sentence sentence tokens s =
      elim (Bool-cases
        (ltb max_tokens (s.current_tokens + tokens) && not (is_empty s.current_window))) [
          | inl full ↦
              rw full (
                ap (λ t. t ++ spaced (sentence ∷ [])) (held-emit s (pending s.current_window full)))
          | inr room ↦ rw room (simp (spaced-append, append_assoc))
        ]
    where
      pending :
          (xs : List Text)
          → (ltb max_tokens (s.current_tokens + tokens) && not (is_empty xs)) ≡ true
          → is_empty xs ≡ false
      pending xs e = ground arith

  held-add_sentence :
      (sentence : Text) (s : Selection)
      → count_tokens sentence ≤ max_tokens
      → held (add_sentence count_tokens max_tokens sentence s) ≡ held s ++ spaced (sentence ∷ [])
  unfolding add_sentence
  held-add_sentence sentence s h =
      rw (short (count_tokens sentence) h) (held-append_sentence sentence (count_tokens sentence) s)
    where
      short : (n : ℕ) → n ≤ max_tokens → ltb max_tokens n ≡ false
      short n le = ground arith

  held-add_sentences :
      (sentences : List Text) (s : Selection)
      → Short sentences
      → held (add_sentences count_tokens max_tokens sentences s) ≡ held s ++ spaced sentences
  unfolding add_sentences
  held-add_sentences [] s h = sym (append-nil _)
  held-add_sentences (sentence ∷ rest) s h =
      held-add_sentences rest (add_sentence count_tokens max_tokens sentence s) h.1
      ∙ ap (λ t. t ++ spaced rest) (held-add_sentence sentence s h.0)
      ∙ simp append_assoc

  spaced-windows_of :
      (sentences : List Text)
      → Short sentences
      → spaced (contents (windows_of count_tokens max_tokens sentences)) ≡ spaced sentences
  unfolding windows_of
  spaced-windows_of sentences h = ends _ ∙ held-add_sentences sentences start_selection h
    where
      ends :
          (s : Selection)
          → spaced (contents (final_window count_tokens max_tokens s).windows) ≡ held s
      ends s = elim (Bool-cases (is_empty s.current_window)) [
        | inl done ↦ rw done (
            sym (append-nil _)
            ∙ ap (λ t. spaced (contents s.windows) ++ t) (nothing s.current_window done))
        | inr rest ↦ rw rest (held-emit s rest)
      ]
        where
          nothing : (xs : List Text) → is_empty xs ≡ true → [] ≡ spaced xs
          nothing [] e = refl
          nothing (x ∷ xs) e = cc

  -- Where no sentence counts more than `max_tokens`, the windows joined by spaces are the
  -- sentences joined by spaces: nothing is lost, repeated or moved.
  pub windows_of_content :
      (sentences : List Text)
      → Short sentences
      → join (contents (windows_of count_tokens max_tokens sentences)) ≡ join sentences
  windows_of_content sentences h = join_of_spaced _ _ (spaced-windows_of sentences h)

  -- What lies behind position `p` is the text of the windows that begin there.
  slices :
      (text : Text) (p : ℕ) (ws : List ExtractionWindow)
      → drop p text ≡ join (contents ws)
      → Contiguous p ws
      → All (λ w. take (w.stop - w.start) (drop w.start text) ≡ w.content) ws
  slices text p [] h c = tt
  slices text p (w ∷ []) h c = (cut text p w [] (h ∙ sym (append-nil _)) c.0 c.1, tt)
  slices text p (w ∷ v ∷ ws) h c =
      (cut text p w _ h c.0 c.1, slices text (w.stop + 1) (v ∷ ws) (beyond text p w _ h c.1) c.2)

  -- Where no sentence counts more than `max_tokens`, the positions of each window cut its content
  -- out of the sentences joined by spaces.
  pub windows_of_slices :
      (sentences : List Text)
      → Short sentences
      → All
          (λ w. take (w.stop - w.start) (drop w.start (join sentences)) ≡ w.content)
          (windows_of count_tokens max_tokens sentences)
  windows_of_slices sentences h =
      slices (join sentences) 0 _ (sym (windows_of_content sentences h))
        (windows_of-Contiguous count_tokens max_tokens sentences)
