-- ===== src/Extraction/Windows/Shifted.antt =====
-- What whitespace in front of a text does to its windows.
use taboot.Prelude.{
  ℕ, ◌≡◌, refl, ◌∙◌, ap, Text, Bool, true, false, not, ◌&&◌, inl, inr, List, [], ◌∷◌, ◌++◌, map,
  filter, is_empty, Bool-cases, append_assoc, arith,
}
use taboot.Extraction.Sentences.{
  is_space, is_end, strip, Scan, scan_char, scan, re_split, split_into_sentences,
}
use taboot.Extraction.Windows.{windows_of, select_windows}

abbrev pieces : Scan → List Text
pieces s = s.complete ++ s.piece ∷ []

-- Behind complete pieces.
abbrev behind : List Text → Scan → Scan
behind front s = record s { complete = front ++ s.complete }

scan_char-behind :
    (front : List Text) (s : Scan) (c : ℕ)
    → scan_char (behind front s) c ≡ behind front (scan_char s c)
scan_char-behind front s c = elim (Bool-cases (s.skipping && is_space c)) [
  | inl skips ↦ rw skips
  | inr reads ↦ elim (Bool-cases (s.ended && is_space c)) [
    | inl cut ↦ rw (reads, cut) (rw (append_assoc front s.complete (s.piece ∷ [])))
    | inr within ↦ rw (reads, within)
  ]
]

scan-behind :
    (t : Text) (front : List Text) (s : Scan)
    → pieces (scan (behind front s) t) ≡ front ++ pieces (scan s t)
scan-behind [] front s = append_assoc front s.complete (s.piece ∷ [])
scan-behind (c ∷ t) front s =
    ap (λ u. pieces (scan u t)) (scan_char-behind front s c) ∙ scan-behind t front (scan_char s c)

abbrev reading : Bool → Text → Scan
reading ended piece = record { skipping = false; ended = ended; piece = piece; complete = [] }

abbrev gap : Scan
gap = record { skipping = true; ended = false; piece = []; complete = [] }

scan_char-within :
    (ended : Bool) (piece : Text) (d : ℕ)
    → (ended && is_space d) ≡ false
    → scan_char (reading ended piece) d ≡ reading (is_end d) (piece ++ d ∷ [])
scan_char-within ended piece d h = rw h

scan_char-cut :
    (ended : Bool) (piece : Text) (d : ℕ)
    → (ended && is_space d) ≡ true
    → scan_char (reading ended piece) d ≡ behind (piece ∷ []) gap
scan_char-cut ended piece d h = rw h

-- A character in front of the piece stays in front of it.
abbrev InFront : ℕ → List Text → List Text → Type 0
InFront c with_it without =
    (q : Text) × (rest : List Text) × (with_it ≡ (c ∷ q) ∷ rest) × (without ≡ q ∷ rest)

scan-InFront :
    (c : ℕ) (t : Text) (ended : Bool) (piece : Text)
    → InFront c
        (pieces (scan (reading ended (c ∷ piece)) t))
        (pieces (scan (reading ended piece) t))
scan-InFront c [] ended piece = (piece, [], refl, refl)
scan-InFront c (d ∷ t) ended piece = elim (Bool-cases (ended && is_space d)) [
  | inr within ↦
      let (q, rest, here, there) = scan-InFront c t (is_end d) (piece ++ d ∷ []) in
      (
        q,
        rest,
        ap (λ s. pieces (scan s t)) (scan_char-within ended (c ∷ piece) d within) ∙ here,
        ap (λ s. pieces (scan s t)) (scan_char-within ended piece d within) ∙ there,
      )
  | inl cut ↦ (
    piece,
    pieces (scan gap t),
    ap (λ s. pieces (scan s t)) (scan_char-cut ended (c ∷ piece) d cut)
        ∙ scan-behind t ((c ∷ piece) ∷ []) gap,
    ap (λ s. pieces (scan s t)) (scan_char-cut ended piece d cut) ∙ scan-behind t (piece ∷ []) gap,
  )
]

abbrev kept : List Text → List Text
kept ps = filter (λ s. not (is_empty s)) (map strip ps)

kept-InFront :
    (c : ℕ) (with_it without : List Text)
    → is_space c ≡ true
    → InFront c with_it without
    → kept with_it ≡ kept without
kept-InFront c with_it without space (q, rest, here, there) = rw (here, there) (rw space)

-- A space in front of a text changes none of its sentences.
split_into_sentences-space :
    (c : ℕ) (t : Text) → is_space c ≡ true → split_into_sentences (c ∷ t) ≡ split_into_sentences t
unfolding split_into_sentences re_split
split_into_sentences-space c t space =
    let no_end : is_end c ≡ false = ground arith in
    ap (λ e. kept (pieces (scan (reading e (c ∷ [])) t))) no_end
    ∙ kept-InFront c (pieces (scan (reading false (c ∷ [])) t)) (pieces (scan (reading false []) t))
        space (scan-InFront c t false [])

-- A whitespace character in front of a text changes none of its windows: neither their contents nor the
-- positions where they are recorded to start and to end.
pub select_windows-space :
    (count_tokens : Text → ℕ) (max_tokens : ℕ) (c : ℕ) (text : Text)
    → is_space c ≡ true
    → select_windows count_tokens max_tokens (c ∷ text)
      ≡ select_windows count_tokens max_tokens text
unfolding select_windows windows_of split_into_sentences re_split
select_windows-space count_tokens max_tokens c text space =
    ap (windows_of count_tokens max_tokens) (split_into_sentences-space c text space)
    ∙ windows_of_sentences text
  where
    windows_of_sentences :
        (t : Text)
        → windows_of count_tokens max_tokens (split_into_sentences t)
          ≡ select_windows count_tokens max_tokens t
    windows_of_sentences [] = refl
    windows_of_sentences (d ∷ t) = refl
