-- ===== src/Python/Texts.antt =====
-- Methods of `str`, and the search of a regular expression for its leftmost match.
use taboot.Prelude.{
  ℕ, suc, Text, ◌≡◌, refl, Bool, true, false, inl, inr, not, ◌&&◌, Option, none, some, List, [],
  ◌∷◌, ◌++◌, ◌==◌, All, Bool-cases, arith, if◌then◌else◌,
}

-- What is behind a prefix, where the text has it.
unfoldable pub after_prefix : Text → Text → Option Text
after_prefix [] t = some t
after_prefix (c ∷ p) [] = none
after_prefix (c ∷ p) (d ∷ t) = if c == d then after_prefix p t else none

abbrev pub is_some {ℓ} : {A : Type ℓ} → Option A → Bool
is_some none = false
is_some (some a) = true

-- `t.startswith(p)`
abbrev pub starts_with : Text → Text → Bool
starts_with p t = is_some (after_prefix p t)

abbrev pub or_else {ℓ} : {A : Type ℓ} → Option A → Option A → Option A
or_else none later = later
or_else (some a) later = some a

-- `re.search`: what `at` makes of the first position that it accepts.
unfoldable pub search {ℓ} : {A : Type ℓ} → (Text → Option A) → Text → Option A
search at [] = at []
search at (c ∷ t) = or_else (at (c ∷ t)) (search at t)

-- `p in t`
abbrev pub contains : Text → Text → Bool
contains p t = is_some (search (after_prefix p) t)

-- `t.count(c)`
unfoldable pub count : ℕ → Text → ℕ
count c [] = 0
count c (d ∷ t) = let rest = count c t in if d == c then suc rest else rest

-- The longest front whose characters pass the test, and what is behind it.
unfoldable pub span : (ℕ → Bool) → Text → Text × Text
span test [] = ([], [])
span test (c ∷ t) =
    let (front, back) = span test t in if test c then (c ∷ front, back) else ([], c ∷ t)

abbrev pub newline : ℕ
newline = 10

abbrev add_to_line : ℕ → List Text → List Text
add_to_line c [] = (c ∷ []) ∷ []
add_to_line c (l ∷ ls) = (c ∷ l) ∷ ls

-- `t.split(sep)`, for a separator of one character
unfoldable pub split_on : ℕ → Text → List Text
split_on sep [] = [] ∷ []
split_on sep (c ∷ t) =
    let rest = split_on sep t in if c == sep then [] ∷ rest else add_to_line c rest

abbrev pub split_lines : Text → List Text
split_lines t = split_on newline t

-- `"\n".join(lines)`
unfoldable pub join_lines : List Text → Text
join_lines [] = []
join_lines (l ∷ []) = l
join_lines (l ∷ m ∷ ls) = l ++ newline ∷ join_lines (m ∷ ls)

-- No line break inside.
unfoldable pub is_line : Text → Bool
is_line [] = true
is_line (c ∷ t) = not (c == newline) && is_line t

split_lines-line : (l : Text) → is_line l ≡ true → split_lines l ≡ l ∷ []
unfolding split_on is_line
split_lines-line [] h = refl
split_lines-line (c ∷ l) h = elim (Bool-cases (c == newline)) [
  | inl e ↦ absurd (ground arith)
  | inr e ↦ rw (e, split_lines-line l (ground arith))
]

split_lines-break :
    (l rest : Text) → is_line l ≡ true → split_lines (l ++ newline ∷ rest) ≡ l ∷ split_lines rest
unfolding split_on is_line
split_lines-break [] rest h = refl
split_lines-break (c ∷ l) rest h = elim (Bool-cases (c == newline)) [
  | inl e ↦ absurd (ground arith)
  | inr e ↦ rw (e, split_lines-break l rest (ground arith))
]

pub split_lines-join :
    (l : Text) (ls : List Text)
    → All (λ l. is_line l ≡ true) (l ∷ ls)
    → split_lines (join_lines (l ∷ ls)) ≡ l ∷ ls
unfolding join_lines
split_lines-join l [] (h, _) = split_lines-line l h
split_lines-join l (m ∷ ls) (h, rest) =
    rw (split_lines-break l (join_lines (m ∷ ls)) h, split_lines-join m ls rest)
