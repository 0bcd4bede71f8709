-- ===== src/Ingest/Unifi/Addresses.antt =====
-- The MAC addresses that the reader takes: six pairs of hexadecimal digits with colons between, and a line
-- break at the end, perhaps.
use taboot.Prelude.{
  ℕ, zero, suc, ◌≤◌, ◌≡◌, refl, ap, ◌⊎◌, inl, inr, Text, true, List, [], ◌∷◌, ◌++◌, length, All,
  arith, ◌==◌, ==_sound,
}
use taboot.Ingest.Unifi.{is_hex, at_end, matches_pairs, is_mac}

abbrev pub IsHex : ℕ → Type 0
IsHex c = ((48 ≤ c) × (c ≤ 57)) ⊎ (((65 ≤ c) × (c ≤ 70)) ⊎ ((97 ≤ c) × (c ≤ 102)))

unfoldable pub written : List (ℕ × ℕ) → Text
written [] = []
written ((a, b) ∷ []) = a ∷ b ∷ []
written ((a, b) ∷ p ∷ ps) = a ∷ b ∷ 58 ∷ written (p ∷ ps)

abbrev pub IsEnd : Text → Type 0
IsEnd t = (t ≡ []) ⊎ (t ≡ 10 ∷ [])

-- `n` pairs, and the end.
abbrev pub IsPairs : ℕ → Text → Type 0
IsPairs n t =
    (ps : List (ℕ × ℕ)) × (rest : Text) × (length ps ≡ n)
    × All (λ p. IsHex p.0 × IsHex p.1) ps
    × IsEnd rest
    × (t ≡ written ps ++ rest)

abbrev pub IsMac : Text → Type 0
IsMac t = IsPairs 6 t

is_hex-IsHex : (c : ℕ) → is_hex c ≡ true → IsHex c
is_hex-IsHex c h = ground arith

at_end-IsEnd : (t : Text) → at_end t ≡ true → IsEnd t
at_end-IsEnd [] h = inl refl
at_end-IsEnd (c ∷ []) h = inr (ap (λ d. d ∷ []) (==_sound c 10 h))
at_end-IsEnd (c ∷ d ∷ t) h = absurd cc

IsPairs-cons :
    (n a b c : ℕ) (t : Text)
    → IsHex a
    → IsHex b
    → c ≡ 58
    → IsPairs (suc n) t
    → IsPairs (suc (suc n)) (a ∷ b ∷ c ∷ t)
unfolding written
IsPairs-cons n a b c t ha hb colon ([], rest, sized, hex, end, at) = absurd (omega arith)
IsPairs-cons n a b c t ha hb colon (p ∷ ps, rest, sized, hex, end, at) = (
  (a, b) ∷ p ∷ ps,
  rest,
  omega arith,
  ((ha, hb), hex),
  end,
  rw colon (ap (λ u. a ∷ b ∷ 58 ∷ u) at),
)

matches_pairs-IsPairs : (n : ℕ) (t : Text) → matches_pairs n t ≡ true → IsPairs (suc n) t
unfolding matches_pairs written
matches_pairs-IsPairs zero [] h = absurd cc
matches_pairs-IsPairs zero (a ∷ []) h = absurd cc
matches_pairs-IsPairs zero (a ∷ b ∷ t) h =
    let (ha, hb, end) : (is_hex a ≡ true) × (is_hex b ≡ true) × (at_end t ≡ true) = ground arith in
    ((a, b) ∷ [], t, refl, ((is_hex-IsHex a ha, is_hex-IsHex b hb), tt), at_end-IsEnd t end, refl)
matches_pairs-IsPairs (suc n) [] h = absurd cc
matches_pairs-IsPairs (suc n) (a ∷ []) h = absurd cc
matches_pairs-IsPairs (suc n) (a ∷ b ∷ []) h = absurd cc
matches_pairs-IsPairs (suc n) (a ∷ b ∷ c ∷ t) h =
    let (ha, hb, colon, rest) : (is_hex a ≡ true)
        × (is_hex b ≡ true)
        × ((c == 58) ≡ true)
        × (matches_pairs n t ≡ true) =
      ground arith in
    IsPairs-cons n a b c t (is_hex-IsHex a ha) (is_hex-IsHex b hb) (==_sound c 58 colon)
      (matches_pairs-IsPairs n t rest)

pub is_mac-IsMac : (t : Text) → is_mac t ≡ true → IsMac t
is_mac-IsMac t h = matches_pairs-IsPairs 5 t h
